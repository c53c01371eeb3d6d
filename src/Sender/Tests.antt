-- ===== src/Sender/Tests.antt =====
-- Runs of the sender at concrete inputs.
use seagull_agent.Prelude.{
  String, ℕ, zero, suc, ◌≤◌, ◌<◌, pos, ◌≡◌, ◌≢◌, refl, ◌⊎◌, inl, true, false, ◌&&◌, Option, none,
  some, List, [], ◌∷◌, trim_space, is_blank, arith, ltb,
}
use seagull_agent.Sender.Classify.{
  SendError, bad_status, durably_queued, is_spoolable, is_spoolable_status, is_retryable,
  is_retryable_net, is_permanent_status, is_durably_queued, is_incompatible, is_invalid_payload,
  is_unconfirmed, endpoint_for, delivery_priority, kind_events, kind_inventory, kind_vuln,
}
use seagull_agent.Sender.Deliver.{
  classify_flush, flush_delivery, Sender, Call, deliver, entry_of, after_enqueue, settle_delivery,
  send_events,
}
use seagull_agent.Sender.Flush.{flush_delivery-Confirms}
use seagull_agent.Spool.Drain.{accepted}
use seagull_agent.Sender.Events.{Ended, send_events-Ended}
use seagull_agent.Sender.Post.{
  Acknowledgement, Body, Payload, Answer, response, Network, post_once, attempts_from,
  post_with_retry, is_success, validate_acknowledgement, check_counted, explicit_acknowledgement,
  decode_permanent_delivery_error, decode_conflict,
}
use seagull_agent.Sender.Queueing.{IsSound, deliver_durably_queued, deliver-IsSound}
use seagull_agent.Sender.Rules.{Confirms, post_with_retry-Confirms, Retried, Final}
use seagull_agent.Sender.Verdict.{Counted, Explicit, validate_acknowledgement-Explicit}
use seagull_agent.Spool.Enqueue.{IsStored}
use seagull_agent.Spool.Files.{Envelope, has_file, write_file, without_file, member, total}
use seagull_agent.Spool.State.{Disk, written, Spool, persist_stats, record_removal, remove}
use seagull_agent.Protocol.Incompatibility.{decode_incompatibility}
use seagull_agent.Spool.Queue.{
  blank_spool, enqueue, enqueue_write, enqueue_answer, enqueue_written, envelope, new_file,
}
use seagull_agent.Spool.Retention.{
  enforce_retention, retain, evict_pass, expire_pass, candidates, by_name, text_lt, candidate,
  too_old, by_priority, within_budget, readable, remove_counted,
}
use seagull_agent.Spool.Sort.{insert, sort}
use seagull_agent.Spool.Valid.{IsValid}

abbrev ack : Acknowledgement
ack = record { accepted = some true; durable = some true; received = some (pos 1) }

abbrev good_body : Body
good_body = record {
  envelope = none;
  conflict = none;
  event_ack = some ack;
  inventory_ack = none;
  vuln_ack = none;
}

abbrev payload : Payload
payload = record { raw = "[1]"; events = some 1; is_object = false; findings = none }

-- A server that is unavailable at first and accepts the second attempt, and one that stays away.
abbrev second_answer : ℕ → Answer
second_answer zero = response 503 good_body
second_answer (suc i) = response 202 good_body

abbrev recovering : Network
recovering = record { answer = second_answer; stops = λ i. false }

abbrev down : Network
down = record { answer = λ i. response 503 good_body; stops = λ i. false }

abbrev disk : Disk
disk = record {
  can_list = true;
  can_stat = λ k. true;
  can_read = λ k. true;
  can_remove = λ k. true;
  can_sync = true;
  write = λ k. written;
}

abbrev empty_spool : Spool
empty_spool = blank_spool (record { max_bytes = 100; max_age = 1000; max_items = 5 }) [] none

empty_spool-IsValid : IsValid empty_spool
unfolding total
empty_spool-IsValid = record {
  distinct = tt;
  counted = refl;
  sized = refl;
  balanced = refl;
  itemised = refl;
}

abbrev call : Call
call = record {
  enqueue_disk = disk;
  settle_disk = disk;
  marshal = λ env. some 40;
  now = 20;
  fresh_id = "f";
  name = "2.spool.json";
  net = down;
}

abbrev sender : Sender
sender = record { max_batch = 2; retries = 0; spool = some empty_spool }

is_new : has_file "2.spool.json" empty_spool.files ≡ false
unfolding has_file
is_new = refl

is_queued : is_durably_queued (durably_queued (bad_status 503)) ≡ true
unfolding is_durably_queued
is_queued = refl

retained :
    (deliver call "events" "b2" payload sender).1.error ≡ some (durably_queued (bad_status 503))
unfolding deliver endpoint_for trim_space after_enqueue enqueue entry_of enqueue_write
    enqueue_answer has_file enqueue_written persist_stats enforce_retention retain evict_pass sort
    expire_pass candidates write_file is_blank decode_incompatibility delivery_priority
    is_incompatible is_invalid_payload is_retryable is_retryable_net is_spoolable
    is_spoolable_status is_unconfirmed settle_delivery attempts_from decode_conflict
    decode_permanent_delivery_error is_success post_once post_with_retry member without_file
    envelope new_file by_name by_priority candidate readable remove_counted text_lt too_old
    within_budget insert record_removal remove
retained = refl

deliver_durably_queued_example :
    (t : Spool) × ((deliver call "events" "b2" payload sender).0.spool ≡ some t)
    × ((env : Envelope) × IsStored (entry_of call "events" "b2" payload) t env)
    × ((e : SendError) × ((post_with_retry 0 "events" payload down).error ≡ some e)
        × (is_spoolable e (post_with_retry 0 "events" payload down).status ≡ true))
deliver_durably_queued_example =
    deliver_durably_queued call "events" "b2" payload sender empty_spool
      (durably_queued (bad_status 503)) refl empty_spool-IsValid is_new retained is_queued

sender-IsSound : IsSound sender
sender-IsSound sp h = let e : empty_spool ≡ sp = cc in rw (← e) empty_spool-IsValid

sender_is_new : (sp : Spool) → sender.spool ≡ some sp → has_file "2.spool.json" sp.files ≡ false
sender_is_new sp h = let e : empty_spool ≡ sp = cc in rw (← e) is_new

deliver-IsSound_example : IsSound (deliver call "events" "b2" payload sender).0
deliver-IsSound_example =
    deliver-IsSound call "events" "b2" payload sender sender-IsSound sender_is_new (λ h. cc)

confirmed : (post_with_retry 3 "events" payload recovering).error ≡ none
unfolding post_with_retry attempts_from post_once is_success is_retryable is_unconfirmed
    decode_permanent_delivery_error decode_incompatibility decode_conflict validate_acknowledgement
    trim_space check_counted explicit_acknowledgement
confirmed = refl

post_with_retry-Confirms_example : (k : ℕ) × (k ≤ 3) × Confirms "events" payload (second_answer k)
post_with_retry-Confirms_example = post_with_retry-Confirms "events" payload recovering 3 confirmed

no_stop : (i : ℕ) → (ltb 0 i && false) ≡ false
no_stop i = ground arith

retried : (i : ℕ) → i < 1 → Retried "events" payload recovering i
unfolding post_once is_success decode_permanent_delivery_error decode_incompatibility
    decode_conflict is_retryable is_unconfirmed
retried zero h = (bad_status 503, refl, refl)
retried (suc i) h = absurd (omega arith)

final : Final "events" payload recovering 1
unfolding post_once is_success validate_acknowledgement trim_space check_counted
    explicit_acknowledgement
final = inl refl

abbrev encode : List ℕ → Option Payload
encode events = some payload

send_events-Ended_example : Ended 3 (send_events encode (λ i. call) (1 ∷ 2 ∷ 3 ∷ []) sender)
send_events-Ended_example =
    send_events-Ended encode (λ i. call) (1 ∷ 2 ∷ 3 ∷ []) sender (omega arith)

permanent : is_permanent_status 400 ≡ true
unfolding is_permanent_status
permanent = refl

validated : validate_acknowledgement "events" payload good_body ≡ none
unfolding validate_acknowledgement trim_space check_counted explicit_acknowledgement
validated = refl

validate_acknowledgement-Explicit_example :
    ((trim_space "events" ≡ kind_events) × Counted (some 1) (some ack))
    ⊎ (((trim_space "events" ≡ kind_inventory)
          × ((a : Acknowledgement) × (none ≡ some a) × Explicit a))
        ⊎ ((trim_space "events" ≡ kind_vuln) × Counted none none))
validate_acknowledgement-Explicit_example =
    validate_acknowledgement-Explicit "events" payload good_body validated

abbrev stored : Envelope
stored = record {
  id = "b2";
  kind = "events";
  priority = pos 10;
  created_at = 20;
  attempts = 0;
  payload = "[1]";
  receipt = "2.spool.json";
}

abbrev decode : String → Payload
decode raw = payload

flushed : flush_delivery 3 decode (λ env. recovering) stored ≡ accepted
unfolding flush_delivery classify_flush endpoint_for post_with_retry attempts_from post_once
    is_success is_retryable is_unconfirmed decode_permanent_delivery_error decode_incompatibility
    decode_conflict validate_acknowledgement trim_space check_counted explicit_acknowledgement
flushed = refl

flush_delivery-Confirms_example :
    (endpoint_for "events" ≢ none)
    × ((k : ℕ) × (k ≤ 3) × Confirms "events" payload (second_answer k))
flush_delivery-Confirms_example =
    flush_delivery-Confirms 3 decode (λ env. recovering) stored flushed
