-- ===== src/Sender/Queueing.antt =====
-- The entries that `deliver` of internal/sender/sender.go leaves in the spool.
use seagull_agent.Prelude.{
  ◌≡◌, ◌≢◌, refl, true, false, Option, none, some, inl, inr, arith, String, Bool-cases,
  Option-cases,
}
use seagull_agent.Sender.Classify.{
  SendError, unknown_kind, persist_failed, is_spoolable, is_durably_queued, endpoint_for,
}
use seagull_agent.Sender.Deliver.{
  Sender, Call, entry_of, acknowledged, discarded, settle_delivery, join_enqueue_error,
  after_enqueue, deliver,
}
use seagull_agent.Protocol.Incompatibility.{}
use seagull_agent.Sender.Post.{Payload, Outcome, post_with_retry}
use seagull_agent.Spool.Enqueue.{IsStored, enqueue-IsValid, enqueue-eq-queued}
use seagull_agent.Spool.Files.{Envelope, has_file}
use seagull_agent.Spool.Queue.{
  EnqueueResult, EnqueueError, RemoveError, queued, refused, enqueue, acknowledge, reject,
}
use seagull_agent.Spool.Settle.{remove_envelope-IsValid}
use seagull_agent.Spool.State.{unsynced, Spool, delivered, permanent}
use seagull_agent.Spool.Valid.{IsValid}
use seagull_agent.Sender.Plain.{IsPlain, post_with_retry-IsPlain}

state-acknowledged : (out : Outcome) (r : Spool × Option RemoveError) → (acknowledged out r).0 ≡ r.0
unfolding acknowledged
state-acknowledged out (sp, none) = refl
state-acknowledged out (sp, some e) = refl

state-discarded :
    (out : Outcome) (err : SendError) (r : Spool × Option RemoveError)
    → (discarded out err r).0 ≡ r.0
unfolding discarded
state-discarded out err (sp, none) = refl
state-discarded out err (sp, some e) = refl

settle_delivery-IsValid :
    (c : Call) (env : Envelope) (out : Outcome) (sp : Spool)
    → IsValid sp
    → IsValid (settle_delivery c env out sp).0
unfolding settle_delivery acknowledge reject
settle_delivery-IsValid c env out sp v = elim (Option-cases out.error) [
  | inl good ↦
      rw (good, settle_delivery, state-acknowledged)
        (remove_envelope-IsValid c.settle_disk env delivered sp v)
  | inr (err, bad) ↦ elim (Bool-cases (is_spoolable err out.status)) [
    | inl keep ↦ rw (bad, keep, settle_delivery) v
    | inr drop ↦
        rw (bad, drop, settle_delivery, state-discarded)
          (remove_envelope-IsValid c.settle_disk env permanent sp v)
  ]
]

acknowledged-IsPlain :
    (out : Outcome) (r : Spool × Option RemoveError)
    → out.error ≡ none
    → IsPlain (acknowledged out r).1
unfolding acknowledged is_durably_queued
acknowledged-IsPlain out (sp, none) good err h = cc
acknowledged-IsPlain out (sp, some e) good err h = ground arith

discarded-IsPlain :
    (out : Outcome) (err : SendError) (r : Spool × Option RemoveError)
    → IsPlain out
    → out.error ≡ some err
    → IsPlain (discarded out err r).1
unfolding discarded is_durably_queued
discarded-IsPlain out err (sp, none) p bad e h = p e h
discarded-IsPlain out err (sp, some f) p bad e h = ground (arith, p err bad)

abbrev KeptFor : Outcome → Spool → Spool → Type 0
KeptFor out sp t =
    (t ≡ sp) × ((e : SendError) × (out.error ≡ some e) × (is_spoolable e out.status ≡ true))

-- A settlement that says that the delivery is queued has left the spool alone, and only an error
-- that is spoolable says so.
settle_delivery_queued :
    (c : Call) (env : Envelope) (out : Outcome) (sp : Spool) (err : SendError)
    → IsPlain out
    → (settle_delivery c env out sp).1.error ≡ some err
    → is_durably_queued err ≡ true
    → KeptFor out sp (settle_delivery c env out sp).0
unfolding settle_delivery
settle_delivery_queued c env out sp err p h q = elim (Option-cases out.error) [
  | inl good ↦ cc (
    q,
    acknowledged-IsPlain out (acknowledge c.settle_disk env sp) good err
        (rw (good, settle_delivery) at h),
  )
  | inr (e, bad) ↦ elim (Bool-cases (is_spoolable e out.status)) [
    | inl keep ↦ rw (bad, keep, settle_delivery) (refl, (e, refl, keep))
    | inr drop ↦ cc (
      q,
      discarded-IsPlain out e (reject c.settle_disk env sp) p bad err
          (rw (bad, drop, settle_delivery) at h),
    )
  ]
]

join-IsPlain : (e : EnqueueError) (out : Outcome) → IsPlain out → IsPlain (join_enqueue_error e out)
unfolding join_enqueue_error is_durably_queued
join-IsPlain e out p err h = elim (Option-cases out.error) [
  | inl good ↦ cc (good, rw (good, join_enqueue_error) at h)
  | inr (f, bad) ↦
      let same : some (persist_failed e f) ≡ some err = rw (bad, join_enqueue_error) at h in
      ground (arith, p f bad)
]

after_enqueue_queued :
    (c : Call) (out : Outcome) (r : Spool × EnqueueResult) (err : SendError)
    → IsPlain out
    → (after_enqueue c out r).1.error ≡ some err
    → is_durably_queued err ≡ true
    → (env : Envelope) × (r.1 ≡ queued env) × KeptFor out r.0 (after_enqueue c out r).0
unfolding after_enqueue
after_enqueue_queued c out (sp, queued env) err p h q =
    (env, refl, settle_delivery_queued c env out sp err p h q)
after_enqueue_queued c out (sp, refused e) err p h q = cc (q, join-IsPlain e out p err h)

unknown_not_queued : is_durably_queued unknown_kind ≡ false
unfolding is_durably_queued
unknown_not_queued = refl

-- On a well-formed spool and with a new file name, if deliver answers that the delivery is retained
-- in the queue, then it is: the entry is in the
-- spool under its receipt with the payload of the call, and the send failed with an error that may
-- be tried again, so neither with an incompatibility nor with a rejected payload.
pub deliver_durably_queued :
    (c : Call) (kind batch_id : String) (payload : Payload) (s : Sender) (sp : Spool)
    (err : SendError)
    → s.spool ≡ some sp
    → IsValid sp
    → has_file c.name sp.files ≡ false
    → (deliver c kind batch_id payload s).1.error ≡ some err
    → is_durably_queued err ≡ true
    → (t : Spool) × ((deliver c kind batch_id payload s).0.spool ≡ some t)
      × ((env : Envelope) × IsStored (entry_of c kind batch_id payload) t env)
      × ((e : SendError) × ((post_with_retry s.retries kind payload c.net).error ≡ some e)
          × (is_spoolable e (post_with_retry s.retries kind payload c.net).status ≡ true))
unfolding deliver entry_of
deliver_durably_queued c kind batch_id payload s sp err some_spool v fresh h q =
    let out = post_with_retry s.retries kind payload c.net in
    let entry = entry_of c kind batch_id payload in
    let r = enqueue c.enqueue_disk c.marshal entry sp in
    let plain : IsPlain out = post_with_retry-IsPlain s.retries kind payload c.net in
    elim (Option-cases (endpoint_for kind)) [
      | inl nowhere ↦ cc (rw (nowhere, deliver) at h, unknown_not_queued, q)
      | inr (path, known) ↦
          let failed : (after_enqueue c out r).1.error ≡ some err =
            rw (known, some_spool, deliver) at h in
          let (env, in_queue, kept) = after_enqueue_queued c out r err plain failed q in
          let stored : IsStored entry r.0 env =
            enqueue-eq-queued c.enqueue_disk c.marshal entry sp env v fresh in_queue in
          (
            (after_enqueue c out r).0,
            rw (known, some_spool, deliver),
            (env, rw (kept.0) stored),
            kept.1,
          )
    ]

-- The spool of a sender, if it has one, is well formed.
abbrev pub IsSound : Sender → Type 0
IsSound s = (sp : Spool) → s.spool ≡ some sp → IsValid sp

after_enqueue-IsValid :
    (c : Call) (out : Outcome) (r : Spool × EnqueueResult)
    → IsValid r.0
    → IsValid (after_enqueue c out r).0
unfolding after_enqueue
after_enqueue-IsValid c out (sp, queued env) v = settle_delivery-IsValid c env out sp v
after_enqueue-IsValid c out (sp, refused e) v = v

-- deliver keeps the spool well formed, whatever the server answers and whichever part of the disk
-- fails, if the generated file name is new and no write is torn after its rename.
pub deliver-IsSound :
    (c : Call) (kind batch_id : String) (payload : Payload) (s : Sender)
    → IsSound s
    → ((sp : Spool) → s.spool ≡ some sp → has_file c.name sp.files ≡ false)
    → c.enqueue_disk.write c.name ≢ unsynced
    → IsSound (deliver c kind batch_id payload s).0
unfolding deliver entry_of
deliver-IsSound c kind batch_id payload s sound fresh synced t h =
    let out = post_with_retry s.retries kind payload c.net in
    let entry = entry_of c kind batch_id payload in
    elim (Option-cases (endpoint_for kind)) [
      | inl nowhere ↦ sound t (rw (nowhere, deliver) at h)
      | inr (path, known) ↦ elim (Option-cases s.spool) [
        | inl bare ↦ sound t (rw (known, bare, deliver) at h)
        | inr (sp, there) ↦
            let r = enqueue c.enqueue_disk c.marshal entry sp in
            let e : some (after_enqueue c out r).0 ≡ some t = rw (known, there, deliver) at h in
            let same : (after_enqueue c out r).0 ≡ t = cc in
            rw (← same) (
              after_enqueue-IsValid c out r (
                enqueue-IsValid c.enqueue_disk c.marshal entry sp (sound sp there) (fresh sp there)
                  synced))
      ]
    ]
