-- ===== src/Sender/Plain.antt =====
-- The errors of `postOnce` and `postWithRetry` in internal/sender/sender.go.
use seagull_agent.Prelude.{
  ℕ, zero, suc, ◌≡◌, Bool, true, false, ◌&&◌, Option, none, some, inl, inr, arith, String, ltb,
  Bool-cases, Option-cases,
}
use seagull_agent.Sender.Classify.{SendError, cancelled, is_durably_queued, is_retryable}
use seagull_agent.Sender.Deliver.{}
use seagull_agent.Protocol.Incompatibility.{decode_incompatibility}
use seagull_agent.Sender.Post.{
  Payload, Body, Answer, no_request, failure, response, Acknowledgement, ConflictEnvelope, Outcome,
  Network, post_once, attempts_from, nothing_sent, post_with_retry, is_success, or_bad_status,
  decode_permanent_delivery_error, decode_conflict, check_counted, check_stored,
  validate_acknowledgement,
}
use seagull_agent.Spool.Enqueue.{}
use seagull_agent.Spool.Files.{}
use seagull_agent.Spool.Queue.{}
use seagull_agent.Spool.Settle.{}
use seagull_agent.Spool.State.{}
use seagull_agent.Spool.Valid.{}

-- The errors of a send never say that the delivery is queued.
abbrev pub IsPlain : Outcome → Type 0
IsPlain out = (err : SendError) → out.error ≡ some err → is_durably_queued err ≡ false

conflict-plain :
    (status : ℕ) (c : Option ConflictEnvelope) (err : SendError)
    → decode_conflict status c ≡ some err
    → is_durably_queued err ≡ false
unfolding decode_conflict is_durably_queued
conflict-plain status none err h = cc
conflict-plain status (some c) err h = ground arith

bad_answer-plain :
    (status : ℕ) (b : Body)
    → is_durably_queued (or_bad_status status (decode_permanent_delivery_error status b)) ≡ false
unfolding decode_permanent_delivery_error is_durably_queued
bad_answer-plain status b = elim (Option-cases (decode_incompatibility status b.envelope)) [
  | inr (i, named) ↦ rw (named, decode_permanent_delivery_error)
  | inl plain ↦ elim (Option-cases (decode_conflict status b.conflict)) [
    | inl other ↦ rw (plain, other, decode_permanent_delivery_error)
    | inr (err, conflict) ↦
        rw (plain, conflict, decode_permanent_delivery_error)
          (conflict-plain status b.conflict err conflict)
  ]
]

counted-plain :
    (held : Option ℕ) (ack : Option Acknowledgement) (err : SendError)
    → check_counted held ack ≡ some err
    → is_durably_queued err ≡ false
unfolding check_counted is_durably_queued
counted-plain none ack err h = ground arith
counted-plain (some n) none err h = ground arith
counted-plain (some n) (some a) err h = ground arith

stored-plain :
    (object : Bool) (ack : Option Acknowledgement) (err : SendError)
    → check_stored object ack ≡ some err
    → is_durably_queued err ≡ false
unfolding check_stored is_durably_queued
stored-plain false ack err h = ground arith
stored-plain true none err h = ground arith
stored-plain true (some a) err h = ground arith

validate-plain :
    (kind : String) (payload : Payload) (b : Body) (err : SendError)
    → validate_acknowledgement kind payload b ≡ some err
    → is_durably_queued err ≡ false
unfolding validate_acknowledgement is_durably_queued
validate-plain kind payload b err h = ground (
  arith,
  counted-plain payload.events b.event_ack err,
  stored-plain payload.is_object b.inventory_ack err,
  counted-plain payload.findings b.vuln_ack err,
)

post_once-IsPlain :
    (kind : String) (payload : Payload) (a : Answer) → IsPlain (post_once kind payload a)
unfolding post_once is_durably_queued
post_once-IsPlain kind payload no_request err h = ground arith
post_once-IsPlain kind payload (failure e) err h = ground arith
post_once-IsPlain kind payload (response status b) err h = elim (Bool-cases (is_success status)) [
  | inl good ↦ validate-plain kind payload b err (rw good at h)
  | inr bad ↦
      let e : some (or_bad_status status (decode_permanent_delivery_error status b)) ≡ some err =
        rw bad at h in
      cc (bad_answer-plain status b)
]

attempts_from-IsPlain :
    (kind : String) (payload : Payload) (net : Network) (left attempt : ℕ) (last : Outcome)
    → IsPlain last
    → IsPlain (attempts_from kind payload net left attempt last)
unfolding attempts_from
attempts_from-IsPlain kind payload net zero attempt last p err h = p err h
attempts_from-IsPlain kind payload net (suc left) attempt last p err h =
    let now = post_once kind payload (net.answer attempt) in
    let q : IsPlain now = post_once-IsPlain kind payload (net.answer attempt) in
    elim (Bool-cases (ltb 0 attempt && net.stops attempt)) [
      | inl halt ↦
          let e : some cancelled ≡ some err = rw halt at h in
          unfold is_durably_queued in ground arith
      | inr go ↦ elim (Option-cases now.error) [
        | inl good ↦ cc (good, rw (go, good, attempts_from) at h)
        | inr (e, failed) ↦ elim (Bool-cases (is_retryable e now.status)) [
          | inr final ↦ q err (rw (go, failed, final, attempts_from) at h)
          | inl again ↦
              attempts_from-IsPlain kind payload net left (suc attempt) now q err
                (rw (go, failed, again, attempts_from) at h)
        ]
      ]
    ]

pub post_with_retry-IsPlain :
    (retries : ℕ) (kind : String) (payload : Payload) (net : Network)
    → IsPlain (post_with_retry retries kind payload net)
unfolding post_with_retry
post_with_retry-IsPlain retries kind payload net =
    attempts_from-IsPlain kind payload net (suc retries) 0 nothing_sent (λ err h. cc)
