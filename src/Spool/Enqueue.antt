-- ===== src/Spool/Enqueue.antt =====
-- What `EnqueuePriority` leaves behind, on every branch.
use seagull_agent.Prelude.{
  ℕ, ◌+◌, pos, ◌+ℤ◌, ◌≡◌, ◌≢◌, refl, ap, ◌∙◌, true, false, Option, some, inl, inr, arith, length,
  String, str_eq, str_eq_iff, Bool-cases, Option-cases,
}
use seagull_agent.Spool.Files.{
  File, Envelope, has_file, find_file, write_file, write_file-Distinct, write_file_new,
  find-write_file, has-write_file, find_file_present, has-find_file, member,
}
use seagull_agent.Spool.Passes.{Pruned}
use seagull_agent.Spool.Queue.{
  Entry, queued, refused, write_error, envelope, new_file, enqueue_written, enqueue_failed,
  enqueue_answer, enqueue_write, enqueue,
}
use seagull_agent.Spool.Retain.{enforce_retention-Pruned}
use seagull_agent.Spool.Retention.{enforce_retention}
use seagull_agent.Spool.State.{Disk, unsynced, WriteOutcome-cases, Spool, persist_stats}
use seagull_agent.Spool.Valid.{
  IsValid, SameCounts-IsValid, persist_stats-IsValid, persist_stats-SameCounts,
}

-- The spool with the new entry counted, before the retention.
abbrev counted_in : Entry → ℕ → Spool → Spool
counted_in e size s = record s {
  files = write_file (new_file e size) s.files;
  pending = s.pending + 1;
  bytes = s.bytes +ℤ pos size;
  enqueued = s.enqueued + 1;
}

name-new_file : (e : Entry) (size : ℕ) → (new_file e size).name ≡ e.name
unfolding new_file
name-new_file e size = refl

counted_in-IsValid :
    (e : Entry) (size : ℕ) (s : Spool)
    → IsValid s
    → has_file e.name s.files ≡ false
    → IsValid (counted_in e size s)
unfolding new_file
counted_in-IsValid e size s v fresh =
    let grown = write_file_new (new_file e size) s.files fresh in
    record {
      distinct = write_file-Distinct (new_file e size) s.files v.distinct;
      counted = omega (arith, grown.0, v.counted);
      sized = rw v.sized (ground (arith, grown.1));
      balanced = omega (arith, v.balanced);
      itemised = v.itemised;
    }

module _ (d : Disk) (e : Entry) (size : ℕ) (s : Spool) (v : IsValid s)
    (fresh : has_file e.name s.files ≡ false) where
  after_retention : Pruned (counted_in e size s) (enforce_retention d e.now (counted_in e size s))
  after_retention =
      enforce_retention-Pruned d e.now (counted_in e size s) (counted_in-IsValid e size s v fresh)

  enqueue_written-IsValid : IsValid (enqueue_written d e size s)
  unfolding enqueue_written
  enqueue_written-IsValid = persist_stats-IsValid d _ after_retention.valid

  -- What the directory has under the new name after the retention is the new entry.
  find-enqueue_written :
      (f : File)
      → find_file e.name (enqueue_written d e size s).files ≡ some f
      → f ≡ new_file e size
  unfolding enqueue_written
  find-enqueue_written f h =
      let kept = enforce_retention d e.now (counted_in e size s) in
      let p : find_file e.name kept.files ≡ some f = rw (persist_stats-SameCounts d kept).0 at h in
      ground (
        arith,
        after_retention.from_before e.name f p,
        find-write_file e.name (new_file e size) s.files,
        name-new_file e size,
        str_eq_iff e.name e.name,
      )

enqueue_failed-IsValid : (d : Disk) (s : Spool) → IsValid s → IsValid (enqueue_failed d s)
unfolding enqueue_failed
enqueue_failed-IsValid d s v =
    persist_stats-IsValid d _
      (SameCounts-IsValid s _ (refl, refl, refl, refl, refl, refl, refl, refl, refl, refl) v)

enqueue_write-IsValid :
    (d : Disk) (e : Entry) (size : ℕ) (s : Spool)
    → IsValid s
    → has_file e.name s.files ≡ false
    → d.write e.name ≢ unsynced
    → IsValid (enqueue_write d e size s).0
unfolding enqueue_write
enqueue_write-IsValid d e size s v fresh synced = elim (WriteOutcome-cases (d.write e.name)) [
  | inl done ↦ rw (done, enqueue_write) (enqueue_written-IsValid d e size s v fresh)
  | inr (inl broken) ↦ rw (broken, enqueue_write) (enqueue_failed-IsValid d s v)
  | inr (inr torn) ↦ absurd (synced torn)
]

-- Enqueue keeps a spool well formed whether it queues the entry or refuses it, if the generated
-- name is new and a write that renames its file also syncs the directory.
pub enqueue-IsValid :
    (d : Disk) (marshal : Envelope → Option ℕ) (e : Entry) (s : Spool)
    → IsValid s
    → has_file e.name s.files ≡ false
    → d.write e.name ≢ unsynced
    → IsValid (enqueue d marshal e s).0
unfolding enqueue
enqueue-IsValid d marshal e s v fresh synced = elim (Bool-cases (str_eq e.payload "")) [
  | inl empty ↦ rw empty v
  | inr full ↦ elim (Option-cases (marshal (envelope e))) [
    | inl broken ↦ rw (full, broken, enqueue) v
    | inr (size, fits) ↦ rw (full, fits, enqueue) (enqueue_write-IsValid d e size s v fresh synced)
  ]
]

-- An entry that an answer says is queued.
abbrev pub IsStored : Entry → Spool → Envelope → Type 0
IsStored e s env =
    (f : File) × (find_file env.receipt s.files ≡ some f)
    × (f.content ≡ some (record env { receipt = "" }))
    × (env.receipt ≡ e.name)
    × (env.payload ≡ e.payload)

answer-IsStored :
    (d : Disk) (e : Entry) (size : ℕ) (s : Spool) (env : Envelope)
    → IsValid s
    → has_file e.name s.files ≡ false
    → enqueue_answer d e (enqueue_written d e size s) ≡ queued env
    → IsStored e (enqueue_written d e size s) env
unfolding enqueue_answer new_file
answer-IsStored d e size s env v fresh h =
    let t = enqueue_written d e size s in
    let here : has_file e.name t.files ≡ true = ground arith in
    let (f, found) = find_file_present e.name t.files here in
    let same : f ≡ new_file e size = find-enqueue_written d e size s v fresh f found in
    let is_env : env ≡ record (envelope e) { receipt = e.name } = ground arith in
    rw is_env (f, found, ap (λ (g : File). g.content) same, refl, refl)

-- On a well-formed spool and with a new file name, an entry that Enqueue queues is in the directory
-- under its receipt, with the payload of the call.
pub enqueue-eq-queued :
    (d : Disk) (marshal : Envelope → Option ℕ) (e : Entry) (s : Spool) (env : Envelope)
    → IsValid s
    → has_file e.name s.files ≡ false
    → (enqueue d marshal e s).1 ≡ queued env
    → IsStored e (enqueue d marshal e s).0 env
unfolding enqueue enqueue_write
enqueue-eq-queued d marshal e s env v fresh h = elim (Bool-cases (str_eq e.payload "")) [
  | inl empty ↦ cc (rw empty at h)
  | inr full ↦ elim (Option-cases (marshal (envelope e))) [
    | inl broken ↦ cc (rw (full, broken, enqueue) at h)
    | inr (size, fits) ↦ elim (WriteOutcome-cases (d.write e.name)) [
      | inl done ↦
          rw (full, fits, done, enqueue, enqueue_write)
            (answer-IsStored d e size s env v fresh
              (rw (full, fits, done, enqueue, enqueue_write) at h))
      | inr (inl bad) ↦ cc (rw (full, fits, bad, enqueue, enqueue_write) at h)
      | inr (inr torn) ↦ cc (rw (full, fits, torn, enqueue, enqueue_write) at h)
    ]
  ]
]

-- When the directory cannot be synced after the rename, Enqueue answers with a write error and
-- leaves the entry in the queue: the directory holds one file more than the spool counts.
pub enqueue-unsynced :
    (d : Disk) (marshal : Envelope → Option ℕ) (e : Entry) (size : ℕ) (s : Spool)
    → IsValid s
    → has_file e.name s.files ≡ false
    → str_eq e.payload "" ≡ false
    → marshal (envelope e) ≡ some size
    → d.write e.name ≡ unsynced
    → ((enqueue d marshal e s).1 ≡ refused write_error)
      × (has_file e.name (enqueue d marshal e s).0.files ≡ true)
      × (length (enqueue d marshal e s).0.files ≡ (enqueue d marshal e s).0.pending + 1)
unfolding enqueue enqueue_write enqueue_failed new_file
enqueue-unsynced d marshal e size s v fresh full fits torn =
    let f = new_file e size in
    let torn_in : Spool = record s {
      files = write_file f s.files;
      enqueue_errors = s.enqueue_errors + 1;
    } in
    let kept = persist_stats-SameCounts d torn_in in
    let grown = write_file_new f s.files fresh in
    rw (full, fits, torn, enqueue, enqueue_write)
      (
        refl,
        rw kept.0 (
            ground (
              arith,
              has-write_file e.name f s.files,
              name-new_file e size,
              str_eq_iff e.name e.name,
            )),
        rw (kept.0, kept.1) (omega (arith, grown.0, v.counted)),
      )

-- What Enqueue leaves of an entry in flight.
abbrev pub Holds : Spool → Spool → Type 0
Holds s t =
    (t.inflight ≡ s.inflight)
    × ((k : String) (f : File)
        → member k s.inflight ≡ true
        → find_file k s.files ≡ some f
        → find_file k t.files ≡ some f)

inflight-persist_stats : (d : Disk) (s : Spool) → (persist_stats d s).inflight ≡ s.inflight
unfolding persist_stats
inflight-persist_stats d s = ground arith

enqueue_written-Holds :
    (d : Disk) (e : Entry) (size : ℕ) (s : Spool)
    → IsValid s
    → has_file e.name s.files ≡ false
    → Holds s (enqueue_written d e size s)
unfolding enqueue_written
enqueue_written-Holds d e size s v fresh =
    let p = after_retention d e size s v fresh in
    let kept = enforce_retention d e.now (counted_in e size s) in
    (
      inflight-persist_stats d kept ∙ p.inflight,
      λ k f busy found.
          rw ((persist_stats-SameCounts d kept).0, p.held k busy)
            (ground (
              arith,
              find-write_file k (new_file e size) s.files,
              name-new_file e size,
              str_eq_iff e.name k,
              has-find_file k s.files f found,
            )),
    )

enqueue_failed-Holds : (d : Disk) (s : Spool) → Holds s (enqueue_failed d s)
unfolding enqueue_failed persist_stats
enqueue_failed-Holds d s = (ground arith, λ k f busy found. ground arith)

pub enqueue-Holds :
    (d : Disk) (marshal : Envelope → Option ℕ) (e : Entry) (s : Spool)
    → IsValid s
    → has_file e.name s.files ≡ false
    → d.write e.name ≢ unsynced
    → Holds s (enqueue d marshal e s).0
unfolding enqueue enqueue_write
enqueue-Holds d marshal e s v fresh synced = elim (Bool-cases (str_eq e.payload "")) [
  | inl empty ↦ rw empty (refl, λ k f busy found. found)
  | inr full ↦ elim (Option-cases (marshal (envelope e))) [
    | inl broken ↦ rw (full, broken, enqueue) (refl, λ k f busy found. found)
    | inr (size, fits) ↦ elim (WriteOutcome-cases (d.write e.name)) [
      | inl done ↦
          rw (full, fits, done, enqueue, enqueue_write) (enqueue_written-Holds d e size s v fresh)
      | inr (inl bad) ↦ rw (full, fits, bad, enqueue, enqueue_write) (enqueue_failed-Holds d s)
      | inr (inr torn) ↦ absurd (synced torn)
    ]
  ]
]
