-- ===== src/Sender/Deliver.antt =====
-- `New`, `deliver`, the callback of `Flush`, and `SendEvents`.
use seagull_agent.Prelude.{
  ℕ, zero, suc, ◌+◌, ℤ, pos, negsuc, Bool, ◌||◌, Option, none, some, List, [], ◌∷◌, String, str_eq,
  is_blank, length, if◌then◌else◌, ◌==◌,
}
use seagull_agent.Sender.Classify.{
  SendError, unknown_kind, commit_failed, persist_failed, discard_failed, durably_queued,
  is_spoolable, is_invalid_payload, is_permanent_status, is_durably_queued, endpoint_for,
  delivery_priority, spool_drain_limit, kind_events, kind_inventory, kind_vuln,
}
use seagull_agent.Sender.Post.{Payload, Outcome, Network, nothing_sent, post_with_retry}
use seagull_agent.Spool.Drain.{Delivery, accepted, rejected, deferred, DrainError, drain}
use seagull_agent.Spool.Files.{Envelope}
use seagull_agent.Spool.Queue.{
  Entry, EnqueueResult, EnqueueError, RemoveError, queued, refused, enqueue, acknowledge, reject,
}
use seagull_agent.Spool.State.{Disk, Spool}

pub record Sender : Type 0 where
  pub max_batch : ℕ
  pub retries : ℕ
  pub spool : Option Spool

abbrev pub batch_size : ℤ → ℕ
batch_size (pos zero) = 300
batch_size (pos (suc n)) = suc n
batch_size (negsuc n) = 300

unfoldable pub new_sender : ℤ → Sender
new_sender max_batch = record { max_batch = batch_size max_batch; retries = 3; spool = none }

-- What one call of `deliver` reads from its surroundings: the disk at the enqueue and at the
-- settlement, the encoder, the time, the random ids and the file name, and the network.
pub record Call : Type 0 where
  pub enqueue_disk : Disk
  pub settle_disk : Disk
  pub marshal : Envelope → Option ℕ
  pub now : ℕ
  pub fresh_id : String
  pub name : String
  pub net : Network

unfoldable pub entry_of : Call → String → String → Payload → Entry
entry_of c kind batch_id payload = record {
  id = if is_blank batch_id then c.fresh_id else batch_id;
  kind = kind;
  priority = delivery_priority kind;
  payload = payload.raw;
  now = c.now;
  fresh_id = c.fresh_id;
  name = c.name;
}

-- The answer after Acknowledge, and after Reject.
unfoldable pub acknowledged : Outcome → Spool × Option RemoveError → Spool × Outcome
acknowledged out (sp, none) = (sp, out)
acknowledged out (sp, some e) = (sp, record out { error = some (commit_failed e) })

unfoldable pub discarded : Outcome → SendError → Spool × Option RemoveError → Spool × Outcome
discarded out err (sp, none) = (sp, out)
discarded out err (sp, some e) = (sp, record out { error = some (discard_failed err e) })

-- After the entry is in the spool and the server has answered.
unfoldable pub settle_delivery : Call → Envelope → Outcome → Spool → Spool × Outcome
settle_delivery c env out sp = elim out.error [
  | none ↦ acknowledged out (acknowledge c.settle_disk env sp)
  | some err ↦
      if is_spoolable err out.status
      then (sp, record out { error = some (durably_queued err) })
      else discarded out err (reject c.settle_disk env sp)
]

abbrev pub no_endpoint : Outcome
no_endpoint = record { status = 0; body = none; error = some unknown_kind }

-- The send after the enqueue failed: its error joins that of the send.
unfoldable pub join_enqueue_error : EnqueueError → Outcome → Outcome
join_enqueue_error e out = elim out.error [
  | none ↦ out
  | some err ↦ record out { error = some (persist_failed e err) }
]

unfoldable pub after_enqueue : Call → Outcome → Spool × EnqueueResult → Spool × Outcome
after_enqueue c out (sp, queued env) = settle_delivery c env out sp
after_enqueue c out (sp, refused e) = (sp, join_enqueue_error e out)

abbrev pub with_spool : Sender → Spool × Outcome → Sender × Outcome
with_spool s (sp, out) = (record s { spool = some sp }, out)

unfoldable pub deliver : Call → String → String → Payload → Sender → Sender × Outcome
deliver c kind batch_id payload s =
    let out = post_with_retry s.retries kind payload c.net in
    elim (endpoint_for kind) [
      | none ↦ (s, no_endpoint)
      | some path ↦ elim s.spool [
        | none ↦ (s, out)
        | some sp ↦ with_spool s (
            after_enqueue c out
              (enqueue c.enqueue_disk c.marshal (entry_of c kind batch_id payload) sp))
      ]
    ]

-- `SetSpool`, with a spool that is nil or disabled as `none`.
unfoldable pub set_spool : Option Spool → Sender → Sender
set_spool none s = s
set_spool (some sp) s = record s { spool = some sp }

-- `SendVulnIngest`, with a base URL.
unfoldable pub send_vuln_ingest : Call → Payload → Sender → Sender × Outcome
send_vuln_ingest c payload s =
    if str_eq payload.raw "" then (s, nothing_sent) else deliver c kind_vuln "" payload s

-- `SendInventorySnapshot`, with a base URL; `none` is a snapshot that json.Marshal cannot encode.
unfoldable pub send_inventory_snapshot : Call → Option Payload → Sender → Sender × Option Outcome
send_inventory_snapshot c none s = (s, none)
send_inventory_snapshot c (some payload) s =
    let (s', out) = deliver c kind_inventory "" payload s in (s', some out)

-- The callback that `Flush` hands to `Drain`: the answer to one envelope. `decode` reads the raw
-- payload, `net` is the network for this envelope.
unfoldable pub classify_flush : Outcome → Delivery
classify_flush out = elim out.error [
  | none ↦ accepted
  | some err ↦
      if is_permanent_status out.status || is_invalid_payload err then rejected else deferred
]

unfoldable pub flush_delivery : ℕ → (String → Payload) → (Envelope → Network) → Envelope → Delivery
flush_delivery retries decode net env = elim (endpoint_for env.kind) [
  | none ↦ rejected
  | some path ↦ classify_flush (post_with_retry retries env.kind (decode env.payload) (net env))
]

unfoldable pub flush :
    Disk
    → (Envelope → Option ℕ)
    → (String → Payload)
    → (Envelope → Network)
    → (ℕ → ℕ)
    → (ℕ → Bool)
    → Sender
    → Sender × ℕ × Option DrainError
flush d marshal decode net clock done s = elim s.spool [
  | none ↦ (s, 0, none)
  | some sp ↦
      if sp.pending == 0
      then (s, 0, none)
      else let (sp', count, failed) =
          drain d marshal (flush_delivery s.retries decode net) clock done
            (pos (spool_drain_limit s.max_batch)) sp in
        (record s { spool = some sp' }, count, failed)
]

-- `EventDeliveryResult`, with the error that `SendEvents` returns beside it.
pub record EventResult : Type 0 where
  pub status : ℕ
  pub attempted : ℕ
  pub delivered : ℕ
  pub durable : ℕ

pub data EventsError : Type 0 where
  marshal_failed : EventsError
  send_failed : SendError → EventsError

-- One chunk's effect on the counters, and whether the loop goes on.
unfoldable pub count_chunk : ℕ → Outcome → EventResult → EventResult × Option EventsError
count_chunk n out r = elim out.error [
  | none ↦
      (record r { status = out.status; delivered = r.delivered + n; durable = r.durable + n }, none)
  | some err ↦ (
    record r {
      status = out.status;
      durable = if is_durably_queued err then r.durable + n else r.durable;
    },
    some (send_failed err),
  )
]

module _ {A : Type 0} where
  unfoldable pub take : ℕ → List A → List A
  take zero l = []
  take (suc n) [] = []
  take (suc n) (x ∷ l) = x ∷ take n l

  unfoldable pub drop : ℕ → List A → List A
  drop zero l = l
  drop (suc n) [] = []
  drop (suc n) (x ∷ l) = drop n l

  -- The loop over the chunks, with fuel; `none` is fuel that ran out. `encode` is json.Marshal of a
  -- chunk (which has been given its ids), and `calls` gives the surroundings of each send.
  unfoldable pub send_chunks :
      (List A → Option Payload)
      → (ℕ → Call)
      → ℕ
      → ℕ
      → List A
      → Sender
      → EventResult
      → Option (Sender × EventResult × Option EventsError)
  send_chunks encode calls zero round events s r = none
  send_chunks encode calls (suc fuel) round [] s r = some (s, r, none)
  send_chunks encode calls (suc fuel) round (e ∷ events) s r =
      let chunk = take s.max_batch (e ∷ events) in
      elim (encode chunk) [
        | none ↦ some (s, r, some marshal_failed)
        | some payload ↦
            let (s', out) = deliver (calls round) kind_events "" payload s in
            let (r', failed) = count_chunk (length chunk) out r in
            elim failed [
              | some err ↦ some (s', r', some err)
              | none ↦
                  send_chunks encode calls fuel (suc round) (drop s.max_batch (e ∷ events)) s' r'
            ]
      ]

  -- `SendEvents`, with a base URL.
  unfoldable pub send_events :
      (List A → Option Payload)
      → (ℕ → Call)
      → List A
      → Sender
      → Option (Sender × EventResult × Option EventsError)
  send_events encode calls events s =
      send_chunks encode calls (suc (length events)) 0 events s
        (record { status = 0; attempted = length events; delivered = 0; durable = 0 })
