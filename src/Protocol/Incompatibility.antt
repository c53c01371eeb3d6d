-- ===== src/Protocol/Incompatibility.antt =====
-- The types of protocol/version.go, and protocol/error.go: the structured rejection of
-- a server. A body is what json.Unmarshal reads from it; a formatted message is kept as the
-- values that it shows.
use seagull_agent.Prelude.{
  ℕ, ℤ, pos, ltb_ℤ, Bool, ◌&&◌, Option, none, some, String, str_eq, ◌==◌, trim_space, is_blank,
  if◌then◌else◌,
}

abbrev pub version : ℤ
version = pos 1

abbrev pub min_supported_server : ℤ
min_supported_server = pos 1

abbrev pub max_supported_server : ℤ
max_supported_server = pos 1

abbrev pub event_schema_version : ℤ
event_schema_version = pos 1

abbrev pub min_event_schema : ℤ
min_event_schema = pos 1

abbrev pub max_event_schema : ℤ
max_event_schema = pos 1

pub data Kind : Type 0 where
  protocol_too_old protocol_too_new event_schema server_advertise : Kind

-- The texts of `Detail`, each with the numbers that it prints.
pub data Detail : Type 0 where
  given : String → Detail
  unstructured unusable_protocol_range unusable_schema_range schema_outside_range : Detail
  agent_too_old agent_too_new : ℤ → ℤ → Detail
  schemas_disjoint : ℤ → ℤ → Detail
  rejected : ℤ → ℤ → ℤ → Detail

pub record Incompatibility : Type 0 where
  pub kind : Kind
  pub agent_protocol : ℤ
  pub server_protocol : ℤ
  pub server_min : ℤ
  pub server_max : ℤ
  pub agent_event_schema : ℤ
  pub server_event_schema : ℤ
  pub server_min_event : ℤ
  pub server_max_event : ℤ
  pub http_status : ℕ
  pub detail : Detail

abbrev pub positive : ℤ → Bool
positive z = ltb_ℤ (pos 0) z

-- The fields of `ErrorResponse` that are read.
pub record ErrorResponse : Type 0 where
  pub kind : String
  pub agent_protocol_version : ℤ
  pub server_protocol_version : ℤ
  pub min_supported : ℤ
  pub max_supported : ℤ
  pub agent_event_schema_version : ℤ
  pub event_schema_version : ℤ
  pub min_event_schema : ℤ
  pub max_event_schema : ℤ
  pub message : String

-- What `detail` of the envelope holds: nothing, an error response, a text, or something else.
pub data Nested : Type 0 where
  absent opaque : Nested
  response : ErrorResponse → Nested
  text : String → Nested

pub record Envelope : Type 0 where
  pub outer : ErrorResponse
  pub detail : Nested

unfoldable pub unwrap : Envelope → ErrorResponse
unwrap e = elim e.detail [
  | absent ↦ e.outer
  | opaque ↦ e.outer
  | response r ↦ r
  | text m ↦ record (e.outer) { message = m }
]

unfoldable pub parse_kind : String → Option Kind
parse_kind value =
    let v = trim_space value in
    if str_eq v "protocol_version_too_old"
    then some protocol_too_old
    else if str_eq v "protocol_version_too_new"
    then some protocol_too_new
    else if str_eq v "event_schema_unsupported"
    then some event_schema
    else if str_eq v "server_descriptor_invalid"
    then some server_advertise
    else none

unfoldable pub agent_protocol_of : ErrorResponse → ℤ
agent_protocol_of r =
    if positive r.agent_protocol_version then r.agent_protocol_version else version

unfoldable pub agent_schema_of : ErrorResponse → ℤ
agent_schema_of r =
    if positive r.agent_event_schema_version
    then r.agent_event_schema_version
    else if positive r.event_schema_version
    then r.event_schema_version
    else event_schema_version

-- The kind that the numbers tell, where the server names none.
unfoldable pub infer_kind : ErrorResponse → ℤ → ℤ → Kind
infer_kind r protocol schema =
    if positive r.min_supported && ltb_ℤ protocol r.min_supported
    then protocol_too_old
    else if positive r.max_supported && ltb_ℤ r.max_supported protocol
    then protocol_too_new
    else if positive r.min_event_schema && ltb_ℤ schema r.min_event_schema
    then event_schema
    else if positive r.max_event_schema && ltb_ℤ r.max_event_schema schema
    then event_schema
    else server_advertise

unfoldable pub describe : ErrorResponse → ℕ → Incompatibility
describe r status =
    let protocol = agent_protocol_of r in
    let schema = agent_schema_of r in
    record {
      kind = elim (parse_kind r.kind) [ none ↦ infer_kind r protocol schema | some k ↦ k ];
      agent_protocol = protocol;
      server_protocol = r.server_protocol_version;
      server_min = r.min_supported;
      server_max = r.max_supported;
      agent_event_schema = schema;
      server_event_schema = r.event_schema_version;
      server_min_event = r.min_event_schema;
      server_max_event = r.max_event_schema;
      http_status = status;
      detail =
          if is_blank r.message
          then rejected protocol r.min_supported r.max_supported
          else given (trim_space r.message);
    }

abbrev pub unreadable_rejection : ℕ → Incompatibility
unreadable_rejection status = record {
  kind = server_advertise;
  agent_protocol = version;
  server_protocol = pos 0;
  server_min = pos 0;
  server_max = pos 0;
  agent_event_schema = pos 0;
  server_event_schema = pos 0;
  server_min_event = pos 0;
  server_max_event = pos 0;
  http_status = status;
  detail = unstructured;
}

-- `DecodeIncompatibility`, over what the body decodes to.
unfoldable pub decode_incompatibility : ℕ → Option Envelope → Option Incompatibility
decode_incompatibility status body =
    if status == 426
    then (elim body [
      | none ↦ some (unreadable_rejection status)
      | some e ↦ some (describe (unwrap e) status)
    ])
    else none
