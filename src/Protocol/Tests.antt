-- ===== src/Protocol/Tests.antt =====
-- Negotiations at concrete descriptors.
use seagull_agent.Prelude.{pos, false, ◌&&◌, ◌≡◌, refl, some, [], leb_ℤ}
use seagull_agent.Protocol.Agreement.{IsExplicit, in_range, is_agreed, negotiate_iff_compatible}
use seagull_agent.Protocol.Incompatibility.{
  version, min_event_schema, max_event_schema, ErrorResponse,
}
use seagull_agent.Protocol.Inferred.{}
use seagull_agent.Protocol.Negotiate.{
  Descriptor, Negotiation, agreed, agree, negotiate_schema, negotiate_protocol, negotiate,
}

abbrev server : Descriptor
server = record {
  protocol_version = pos 3;
  min_supported = pos 1;
  max_supported = pos 3;
  event_schema_version = pos 2;
  min_event_schema = pos 1;
  max_event_schema = pos 2;
}

abbrev new_server : Descriptor
new_server = record server { min_supported = pos 2 }

server-IsExplicit : IsExplicit server
server-IsExplicit = record {
  protocol_positive = refl;
  protocol_ordered = refl;
  schema_positive = refl;
  schema_ordered = refl;
  schema_inside = refl;
}

new_server-IsExplicit : IsExplicit new_server
new_server-IsExplicit = record {
  protocol_positive = refl;
  protocol_ordered = refl;
  schema_positive = refl;
  schema_ordered = refl;
  schema_inside = refl;
}

negotiate_iff_compatible_example : is_agreed (negotiate (some server)) ≡ (
    in_range version (pos 1) (pos 3)
    && (leb_ℤ (pos 1) max_event_schema && leb_ℤ min_event_schema (pos 2)))
negotiate_iff_compatible_example = negotiate_iff_compatible server server-IsExplicit

abbrev outcome : Negotiation
outcome = record {
  protocol_version = pos 1;
  event_schema_version = pos 1;
  degraded = false;
  notes = [];
}

agreement : negotiate (some server) ≡ agreed outcome
unfolding negotiate negotiate_protocol negotiate_schema agree
agreement = refl

abbrev rejection : ErrorResponse
rejection = record {
  kind = "";
  agent_protocol_version = pos 1;
  server_protocol_version = pos 3;
  min_supported = pos 2;
  max_supported = pos 3;
  agent_event_schema_version = pos 1;
  event_schema_version = pos 2;
  min_event_schema = pos 1;
  max_event_schema = pos 2;
  message = "";
}
