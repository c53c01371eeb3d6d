-- ===== src/Protocol/Negotiate.antt =====
-- protocol/version.go: `LocalDescriptor`'s constants and `Negotiate`. A note and a detail are kept
-- as the numbers that they print.
use seagull_agent.Prelude.{
  ℤ, pos, ltb_ℤ, leb_ℤ, Bool, true, false, ◌&&◌, ◌||◌, Option, none, some, List, [], ◌∷◌,
  if◌then◌else◌,
}
use seagull_agent.Protocol.Incompatibility.{
  version, event_schema_version, min_event_schema, max_event_schema, Kind, protocol_too_old,
  protocol_too_new, event_schema, server_advertise, Detail, unusable_protocol_range,
  unusable_schema_range, schema_outside_range, agent_too_old, agent_too_new, schemas_disjoint,
  Incompatibility, positive,
}

pub record Descriptor : Type 0 where
  pub protocol_version : ℤ
  pub min_supported : ℤ
  pub max_supported : ℤ
  pub event_schema_version : ℤ
  pub min_event_schema : ℤ
  pub max_event_schema : ℤ

pub data Note : Type 0 where
  no_descriptor : Note
  schema_lowered : ℤ → ℤ → Note

pub record Negotiation : Type 0 where
  pub protocol_version : ℤ
  pub event_schema_version : ℤ
  pub degraded : Bool
  pub notes : List Note

pub data Negotiated : Type 0 where
  agreed : Negotiation → Negotiated
  disagreed : Incompatibility → Negotiated

-- `serverMin` and `serverMax`.
abbrev pub protocol_range : Descriptor → ℤ × ℤ
protocol_range d =
    if leb_ℤ d.min_supported (pos 0) && leb_ℤ d.max_supported (pos 0) && positive d.protocol_version
    then (d.protocol_version, d.protocol_version)
    else (d.min_supported, d.max_supported)

-- `serverEventSchema`, `serverMinEvent` and `serverMaxEvent`.
abbrev pub schema_range : Descriptor → ℤ × ℤ × ℤ
schema_range d =
    if leb_ℤ d.min_event_schema (pos 0) && leb_ℤ d.max_event_schema (pos 0)
    then (if leb_ℤ d.event_schema_version (pos 0)
        then (event_schema_version, event_schema_version, event_schema_version)
        else (d.event_schema_version, d.event_schema_version, d.event_schema_version))
    else (d.event_schema_version, d.min_event_schema, d.max_event_schema)

abbrev pub is_unusable : ℤ → ℤ → Bool
is_unusable lo hi = leb_ℤ lo (pos 0) || leb_ℤ hi (pos 0) || ltb_ℤ hi lo

-- An incompatibility of this agent and the server `d`, for the range and the schemas given.
abbrev pub mismatch : Kind → Detail → Descriptor → ℤ × ℤ → ℤ × ℤ × ℤ → Incompatibility
mismatch kind detail d (lo, hi) (schema, least, most) = record {
  kind = kind;
  agent_protocol = version;
  server_protocol = d.protocol_version;
  server_min = lo;
  server_max = hi;
  agent_event_schema = event_schema_version;
  server_event_schema = schema;
  server_min_event = least;
  server_max_event = most;
  http_status = 0;
  detail = detail;
}

abbrev pub no_schemas : ℤ × ℤ × ℤ
no_schemas = (pos 0, pos 0, pos 0)

-- The end of `Negotiate`, once the schema ranges meet.
unfoldable pub agree : ℤ → Negotiation
agree most =
    let schema = if ltb_ℤ most event_schema_version then most else event_schema_version in
    if ltb_ℤ schema event_schema_version
    then record {
      protocol_version = version;
      event_schema_version = schema;
      degraded = true;
      notes = schema_lowered schema most ∷ [];
    }
    else record {
      protocol_version = version;
      event_schema_version = schema;
      degraded = false;
      notes = [];
    }

-- The second half of `Negotiate`, with the protocol range and the schemas of the server.
unfoldable pub negotiate_schema : Descriptor → ℤ × ℤ → ℤ × ℤ × ℤ → Negotiated
negotiate_schema d range (schema, least, most) =
    if is_unusable least most
    then disagreed (
        mismatch server_advertise unusable_schema_range d range
          (schema, d.min_event_schema, d.max_event_schema))
    else if positive schema && (ltb_ℤ schema least || ltb_ℤ most schema)
    then disagreed (mismatch server_advertise schema_outside_range d range (schema, least, most))
    else if ltb_ℤ max_event_schema least || ltb_ℤ most min_event_schema
    then disagreed
        (mismatch event_schema (schemas_disjoint least most) d range (schema, least, most))
    else agreed (agree most)

unfoldable pub negotiate_protocol : Descriptor → ℤ × ℤ → Negotiated
negotiate_protocol d (lo, hi) =
    if is_unusable lo hi
    then disagreed (
        mismatch server_advertise unusable_protocol_range d (d.min_supported, d.max_supported)
          no_schemas)
    else if ltb_ℤ version lo
    then disagreed (mismatch protocol_too_old (agent_too_old version lo) d (lo, hi) no_schemas)
    else if ltb_ℤ hi version
    then disagreed (mismatch protocol_too_new (agent_too_new version hi) d (lo, hi) no_schemas)
    else negotiate_schema d (lo, hi) (schema_range d)

unfoldable pub negotiate : Option Descriptor → Negotiated
negotiate none = agreed (record {
  protocol_version = version;
  event_schema_version = event_schema_version;
  degraded = true;
  notes = no_descriptor ∷ [];
})
negotiate (some d) = negotiate_protocol d (protocol_range d)
