-- ===== src/Sender/Post.antt =====
-- `postOnce`, `postWithRetry` and the checks of a response. What the HTTP client and json.Unmarshal
-- answer is data: an `Answer` for each attempt, with the body as each type would decode it.
use seagull_agent.Prelude.{
  ℕ, zero, suc, ℤ, pos, eq_ℤ, Bool, true, false, ◌&&◌, Option, none, some, String, str_eq, ltb, leb,
  ◌==◌, trim_space, is_blank, if◌then◌else◌,
}
use seagull_agent.Protocol.Incompatibility
use seagull_agent.Protocol.Incompatibility.{decode_incompatibility}
use seagull_agent.Sender.Classify.{
  SendError, NetError, unconfirmed, invalid_payload, bad_request, cancelled, incompatible,
  bad_status, network, is_retryable, kind_events, kind_inventory, kind_vuln,
}

-- The fields of the acknowledgements that are read; `received` is `received_findings` of a
-- vulnerability batch.
pub record Acknowledgement : Type 0 where
  pub accepted : Option Bool
  pub durable : Option Bool
  pub received : Option ℤ

pub record ConflictEnvelope : Type 0 where
  pub error : String
  pub detail_error : String

pub record Body : Type 0 where
  pub envelope : Option Incompatibility.Envelope
  pub conflict : Option ConflictEnvelope
  pub event_ack : Option Acknowledgement
  pub inventory_ack : Option Acknowledgement
  pub vuln_ack : Option Acknowledgement

-- A payload, with the number of events and of findings that it decodes to.
pub record Payload : Type 0 where
  pub raw : String
  pub events : Option ℕ
  pub is_object : Bool
  pub findings : Option ℕ

pub data Answer : Type 0 where
  no_request : Answer
  failure : NetError → Answer
  response : ℕ → Body → Answer

pub record Outcome : Type 0 where
  pub status : ℕ
  pub body : Option Body
  pub error : Option SendError

abbrev is_true : Option Bool → Bool
is_true none = false
is_true (some b) = b

unfoldable pub explicit_acknowledgement : Acknowledgement → Bool
explicit_acknowledgement a = is_true a.accepted && is_true a.durable

-- `received != nil && *received == n`
abbrev pub received_all : Option ℤ → ℕ → Bool
received_all none n = false
received_all (some z) n = eq_ℤ z (pos n)

-- An acknowledgement that must count what was sent.
unfoldable pub check_counted : Option ℕ → Option Acknowledgement → Option SendError
check_counted none ack = some invalid_payload
check_counted (some n) none = some unconfirmed
check_counted (some n) (some a) =
    if explicit_acknowledgement a && received_all a.received n then none else some unconfirmed

unfoldable pub check_stored : Bool → Option Acknowledgement → Option SendError
check_stored false ack = some invalid_payload
check_stored true none = some unconfirmed
check_stored true (some a) = if explicit_acknowledgement a then none else some unconfirmed

unfoldable pub validate_acknowledgement : String → Payload → Body → Option SendError
validate_acknowledgement kind payload body =
    let k = trim_space kind in
    if str_eq k kind_events
    then check_counted payload.events body.event_ack
    else if str_eq k kind_inventory
    then check_stored payload.is_object body.inventory_ack
    else if str_eq k kind_vuln
    then check_counted payload.findings body.vuln_ack
    else some invalid_payload

unfoldable pub conflict_code : ConflictEnvelope → String
conflict_code c = if is_blank c.error then trim_space c.detail_error else trim_space c.error

unfoldable pub decode_conflict : ℕ → Option ConflictEnvelope → Option SendError
decode_conflict status none = none
decode_conflict status (some c) =
    if status == 409 && str_eq (conflict_code c) "batch_payload_conflict"
    then some invalid_payload
    else none

unfoldable pub decode_permanent_delivery_error : ℕ → Body → Option SendError
decode_permanent_delivery_error status body = elim (decode_incompatibility status body.envelope) [
  | some i ↦ some (incompatible i)
  | none ↦ decode_conflict status body.conflict
]

unfoldable pub is_success : ℕ → Bool
is_success status = leb 200 status && ltb status 300

abbrev pub or_bad_status : ℕ → Option SendError → SendError
or_bad_status status none = bad_status status
or_bad_status status (some e) = e

unfoldable pub post_once : String → Payload → Answer → Outcome
post_once kind payload no_request = record { status = 0; body = none; error = some bad_request }
post_once kind payload (failure e) = record { status = 0; body = none; error = some (network e) }
post_once kind payload (response status b) = record {
  status = status;
  body = some b;
  error =
      if is_success status
      then validate_acknowledgement kind payload b
      else some (or_bad_status status (decode_permanent_delivery_error status b));
}

-- The answers to the attempts of one call, and whether the context ends in the wait before one.
pub record Network : Type 0 where
  pub answer : ℕ → Answer
  pub stops : ℕ → Bool

-- The attempts from `attempt` on, with `left` to go, after an attempt that gave `last`.
unfoldable pub attempts_from : String → Payload → Network → ℕ → ℕ → Outcome → Outcome
attempts_from kind payload net zero attempt last = last
attempts_from kind payload net (suc left) attempt last =
    let now = post_once kind payload (net.answer attempt) in
    if ltb 0 attempt && net.stops attempt
    then record last { error = some cancelled }
    else elim now.error [
      | none ↦ now
      | some err ↦ elim (is_retryable err now.status) [
        | false ↦ now
        | true ↦ attempts_from kind payload net left (suc attempt) now
      ]
    ]

abbrev pub nothing_sent : Outcome
nothing_sent = record { status = 0; body = none; error = none }

unfoldable pub post_with_retry : ℕ → String → Payload → Network → Outcome
post_with_retry retries kind payload net =
    attempts_from kind payload net (suc retries) 0 nothing_sent
