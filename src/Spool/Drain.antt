-- ===== src/Spool/Drain.antt =====
-- `Drain`: the snapshot's order, one entry of the loop in two halves (before and after the call of
-- `deliver`, which runs without the lock), and the loop.
use seagull_agent.Prelude.{
  ℕ, zero, suc, ◌+◌, ℤ, pos, negsuc, ◌+ℤ◌, ◌-ℤ◌, ltb_ℤ, eq_ℤ, Bool, true, false, ◌&&◌, Option, none,
  some, List, [], ◌∷◌, String, ltb, leb, ◌==◌, if◌then◌else◌, ◌≡◌, refl, ◌⊎◌, inl, inr, Bool-cases,
  Option-cases,
}
use seagull_agent.Spool.Files.{File, Envelope, find_file, write_file, delete}
use seagull_agent.Spool.Retention.{readable, text_lt}
use seagull_agent.Spool.Sort.{sort}
use seagull_agent.Spool.State.{
  Disk, written, failed, unsynced, Spool, Reason, delivered, expired, corrupt, permanent,
  persist_stats, record_removal, remove,
}

-- A record of `snapshot`.
pub record Queued : Type 0 where
  pub name : String
  pub priority : ℤ
  pub created_at : ℕ
  pub valid : Bool

unfoldable pub queued_record : Disk → File → Queued
queued_record d f = elim (readable d f) [
  | none ↦ record { name = f.name; priority = pos 0; created_at = 0; valid = false }
  | some env ↦ record {
    name = f.name;
    priority = env.priority;
    created_at = env.created_at;
    valid = true;
  }
]

unfoldable pub queued_records : Disk → List File → List Queued
queued_records d [] = []
queued_records d (f ∷ l) = queued_record d f ∷ queued_records d l

-- The order among records that can both be read.
unfoldable pub delivered_before : Queued → Queued → Bool
delivered_before a b =
    if eq_ℤ a.priority b.priority
    then (if a.created_at == b.created_at
        then text_lt a.name b.name
        else ltb a.created_at b.created_at)
    else ltb_ℤ b.priority a.priority

-- What cannot be read comes first.
unfoldable pub drained_before : Queued → Queued → Bool
drained_before a b =
    if a.valid
    then (if b.valid then delivered_before a b else false)
    else (if b.valid then true else delivered_before a b)

unfoldable pub names : List Queued → List String
names [] = []
names (q ∷ qs) = q.name ∷ names qs

unfoldable pub snapshot : Disk → Spool → Option (List String)
snapshot d s =
    if d.can_list then some (names (sort drained_before (queued_records d s.files))) else none

-- The first half: mark the entry, and read it.
pub data Begun : Type 0 where
  missing unreadable : Begun
  opened : File → Begun

unfoldable pub begin : Disk → String → Spool → Spool × Begun
begin d name s = elim (find_file name s.files) [
  | none ↦ (record s { inflight = delete name s.inflight }, missing)
  | some f ↦
      if d.can_read name
      then (record s { inflight = name ∷ s.inflight }, opened f)
      else (record s { inflight = delete name s.inflight }, unreadable)
]

-- The three ways through the first half.
pub begin_cases :
    (d : Disk) (name : String) (s : Spool)
    → (begin d name s ≡ (record s { inflight = delete name s.inflight }, missing))
      ⊎ ((begin d name s ≡ (record s { inflight = delete name s.inflight }, unreadable))
          ⊎ ((f : File) × (find_file name s.files ≡ some f)
              × (begin d name s ≡ (record s { inflight = name ∷ s.inflight }, opened f))))
unfolding begin
begin_cases d name s = elim (Option-cases (find_file name s.files)) [
  | inl gone ↦ inl (rw (gone, begin))
  | inr (f, found) ↦ elim (Bool-cases (d.can_read name)) [
    | inl reads ↦ inr (inr (f, found, rw (found, reads, begin)))
    | inr locked ↦ inr (inl (rw (found, locked, begin)))
  ]
]

unfoldable pub release : String → Spool → Spool
release name s = record s { inflight = delete name s.inflight }

unfoldable pub discard : Disk → File → Reason → Spool → Spool
discard d f reason s = elim (remove d f.name s) [
  | none ↦ release f.name s
  | some s' ↦ release f.name (persist_stats d (record_removal f.size reason s'))
]

-- The answers of the callback: nil, a PermanentError, or another error.
pub data Delivery : Type 0 where
  accepted rejected deferred : Delivery

pub Delivery-cases : (r : Delivery) → (r ≡ accepted) ⊎ ((r ≡ rejected) ⊎ (r ≡ deferred))
Delivery-cases accepted = inl refl
Delivery-cases rejected = inr (inl refl)
Delivery-cases deferred = inr (inr refl)

pub data DrainError : Type 0 where
  cancelled read_error delivery_error retry_marshal_error retry_write_error remove_error :
      DrainError

pub data Progress : Type 0 where
  skipped sent : Progress
  stopped : DrainError → Progress

pub Progress-cases :
    (p : Progress) → (p ≡ skipped) ⊎ ((p ≡ sent) ⊎ ((e : DrainError) × (p ≡ stopped e)))
Progress-cases skipped = inl refl
Progress-cases sent = inr (inl refl)
Progress-cases (stopped e) = inr (inr (e, refl))

-- The envelope with one more attempt, in the place of the file that it was read from.
unfoldable pub retried_file : File → Envelope → ℕ → ℕ → File
retried_file f env now size = record f {
  size = size;
  mod_time = now;
  content = some (record env { attempts = env.attempts + 1 });
}

-- After a retryable error: the entry is written again with one more attempt.
unfoldable pub keep_for_retry : Disk → ℕ → File → Envelope → ℕ → Spool → Spool × Progress
keep_for_retry d now f env size s =
    let files' = write_file (retried_file f env now size) s.files in
    elim (d.write f.name) [
      | written ↦
          let s' : Spool = record s {
            files = files';
            bytes = s.bytes +ℤ (pos size -ℤ pos f.size);
            retries = s.retries + 1;
          } in
          (release f.name (persist_stats d s'), stopped delivery_error)
      | failed ↦ (release f.name s, stopped retry_write_error)
      | unsynced ↦ (release f.name (record s { files = files' }), stopped retry_write_error)
    ]

unfoldable pub finish_delivered : Disk → File → Spool → Spool × Progress
finish_delivered d f s = elim (remove d f.name s) [
  | none ↦ (release f.name s, stopped remove_error)
  | some s' ↦ (release f.name (persist_stats d (record_removal f.size delivered s')), sent)
]

abbrev pub drain_limit : ℤ → ℕ
drain_limit (pos zero) = 64
drain_limit (pos (suc n)) = suc n
drain_limit (negsuc n) = 64

module _ (d : Disk) (marshal : Envelope → Option ℕ) (deliver : Envelope → Delivery) where
  unfoldable pub finish_decoded : ℕ → File → Envelope → Spool → Spool × Progress
  finish_decoded now f env s = elim (deliver env) [
    | accepted ↦ finish_delivered d f s
    | rejected ↦ (discard d f permanent s, skipped)
    | deferred ↦ elim (marshal (record env { attempts = env.attempts + 1 })) [
      | none ↦ (release f.name s, stopped retry_marshal_error)
      | some size ↦ keep_for_retry d now f env size s
    ]
  ]

  -- The second half: decode, test the age, deliver, and settle.
  unfoldable pub finish : ℕ → File → Spool → Spool × Progress
  finish now f s = elim f.content [
    | none ↦ (discard d f corrupt s, skipped)
    | some env ↦
        if ltb 0 s.opts.max_age && ltb (env.created_at + s.opts.max_age) now
        then (discard d f expired s, skipped)
        else finish_decoded now f env s
  ]

  unfoldable pub after_begin : ℕ → Spool × Begun → Spool × Progress
  after_begin now (s, missing) = (s, skipped)
  after_begin now (s, unreadable) = (s, stopped read_error)
  after_begin now (s, opened f) = finish now f s

  -- One entry, with nothing in between.
  unfoldable pub drain_entry : ℕ → String → Spool → Spool × Progress
  unfolding after_begin
  drain_entry now name s = after_begin now (begin d name s)

  -- The loop: `clock` gives the time, and `done` whether the context is cancelled, at each round.
  unfoldable pub drain_loop :
      (ℕ → ℕ) → (ℕ → Bool) → ℕ → List String → ℕ → ℕ → Spool → Spool × ℕ × Option DrainError
  drain_loop clock done limit [] processed count s = (s, count, none)
  drain_loop clock done limit (name ∷ rest) processed count s =
      if leb limit processed
      then (s, count, none)
      else if done processed
      then (s, count, some cancelled)
      else let (s', progress) = drain_entry (clock processed) name s in
        elim progress [
          | skipped ↦ drain_loop clock done limit rest (suc processed) count s'
          | sent ↦ drain_loop clock done limit rest (suc processed) (suc count) s'
          | stopped e ↦ (s', count, some e)
        ]

  unfoldable pub drain : (ℕ → ℕ) → (ℕ → Bool) → ℤ → Spool → Spool × ℕ × Option DrainError
  drain clock done limit s = elim (snapshot d s) [
    | none ↦ (s, 0, some read_error)
    | some entries ↦ drain_loop clock done (drain_limit limit) entries 0 0 s
  ]
