-- ===== src/Sender/Classify.antt =====
-- The errors of a delivery, and how internal/sender/sender.go classes them.
use seagull_agent.Prelude.{
  ℕ, ℤ, pos, Bool, true, false, ◌||◌, Option, none, some, String, str_eq, ltb, leb, ◌==◌,
  trim_space, if◌then◌else◌, ◌/◌,
}
use seagull_agent.Protocol.Incompatibility.{Incompatibility}
use seagull_agent.Spool.Queue.{EnqueueError, RemoveError}

-- The errors of the HTTP client; the first four are the ones that are tried again.
pub data NetError : Type 0 where
  conn_reset broken_pipe timed_out conn_refused other_net : NetError

-- The error values, with what they wrap. `persist_failed`, `discard_failed` are errors.Join.
pub data SendError : Type 0 where
  unconfirmed invalid_payload bad_request cancelled unknown_kind : SendError
  incompatible : Incompatibility → SendError
  bad_status : ℕ → SendError
  network : NetError → SendError
  commit_failed : RemoveError → SendError
  persist_failed : EnqueueError → SendError → SendError
  discard_failed : SendError → RemoveError → SendError
  durably_queued : SendError → SendError

-- errors.Is(err, ErrUnconfirmedDelivery)
unfoldable pub is_unconfirmed : SendError → Bool
is_unconfirmed unconfirmed = true
is_unconfirmed (persist_failed e err) = is_unconfirmed err
is_unconfirmed (discard_failed err e) = is_unconfirmed err
is_unconfirmed (durably_queued err) = is_unconfirmed err
is_unconfirmed _ = false

-- errors.Is(err, ErrInvalidDeliveryPayload)
unfoldable pub is_invalid_payload : SendError → Bool
is_invalid_payload invalid_payload = true
is_invalid_payload (persist_failed e err) = is_invalid_payload err
is_invalid_payload (discard_failed err e) = is_invalid_payload err
is_invalid_payload (durably_queued err) = is_invalid_payload err
is_invalid_payload _ = false

-- errors.As(err, *protocol.Incompatibility)
unfoldable pub is_incompatible : SendError → Bool
is_incompatible (incompatible i) = true
is_incompatible (persist_failed e err) = is_incompatible err
is_incompatible (discard_failed err e) = is_incompatible err
is_incompatible (durably_queued err) = is_incompatible err
is_incompatible _ = false

unfoldable pub is_durably_queued : SendError → Bool
is_durably_queued (durably_queued err) = true
is_durably_queued (persist_failed e err) = is_durably_queued err
is_durably_queued (discard_failed err e) = is_durably_queued err
is_durably_queued _ = false

unfoldable pub is_retryable_net : SendError → Bool
is_retryable_net (network conn_reset) = true
is_retryable_net (network broken_pipe) = true
is_retryable_net (network timed_out) = true
is_retryable_net (network conn_refused) = true
is_retryable_net (persist_failed e err) = is_retryable_net err
is_retryable_net (discard_failed err e) = is_retryable_net err
is_retryable_net (durably_queued err) = is_retryable_net err
is_retryable_net _ = false

unfoldable pub is_retryable : SendError → ℕ → Bool
is_retryable err status =
    if is_unconfirmed err
    then true
    else if status == 0
    then is_retryable_net err
    else leb 500 status

-- The statuses of the switch of `isSpoolable`.
unfoldable pub is_spoolable_status : ℕ → Bool
is_spoolable_status status =
    status == 401
    || status == 403
    || status == 408
    || status == 409
    || status == 423
    || status == 425
    || status == 426
    || status == 429
    || leb 500 status

unfoldable pub is_spoolable : SendError → ℕ → Bool
is_spoolable err status =
    if is_invalid_payload err
    then false
    else if is_incompatible err
    then false
    else if is_unconfirmed err
    then true
    else if status == 0
    then true
    else is_spoolable_status status

unfoldable pub is_permanent_status : ℕ → Bool
is_permanent_status status =
    status == 400
    || status == 404
    || status == 405
    || status == 410
    || status == 413
    || status == 414
    || status == 415
    || status == 422
    || status == 426
    || status == 431

unfoldable pub spool_drain_limit : ℕ → ℕ
spool_drain_limit max_batch =
    let limit = max_batch / 10 in
    let raised : ℕ = if ltb limit 8 then 8 else limit in if ltb 64 raised then 64 else raised

abbrev pub kind_events : String
kind_events = "events"

abbrev pub kind_inventory : String
kind_inventory = "inventory"

abbrev pub kind_vuln : String
kind_vuln = "vuln"

-- The path that `endpointFor` appends to the base URL; `none` is its empty answer.
unfoldable pub endpoint_for : String → Option String
endpoint_for kind =
    let k = trim_space kind in
    if str_eq k kind_events
    then some "/ingest/events"
    else if str_eq k kind_inventory
    then some "/inventory"
    else if str_eq k kind_vuln
    then some "/vuln/ingest"
    else none

unfoldable pub delivery_priority : String → ℤ
delivery_priority kind =
    let k = trim_space kind in
    if str_eq k kind_inventory || str_eq k kind_vuln
    then pos 100
    else if str_eq k kind_events
    then pos 10
    else pos 0
