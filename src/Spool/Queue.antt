-- ===== src/Spool/Queue.antt =====
-- `New`, `EnqueuePriority`, `Acknowledge` and `Reject`. json.Marshal is the argument `marshal`:
-- the length of the encoding, or `none` where it fails. The time, the random id and the generated
-- file name of a call are arguments too.
use Prim.Native.Nat.{max}
use seagull_agent.Prelude.{
  ℕ, zero, suc, ◌+◌, ◌*◌, ◌^◌, ℤ, pos, negsuc, pos_part, ◌+ℤ◌, eq_ℤ, Bool, not, ◌&&◌, Option, none,
  some, List, [], ◌∷◌, String, str_eq, trim_space, is_blank, has_suffix, contains_code,
  if◌then◌else◌, length,
}
use seagull_agent.Spool.Files.{File, Envelope, has_file, find_file, write_file, total}
use seagull_agent.Spool.Retention.{enforce_retention}
use seagull_agent.Spool.State.{
  Disk, written, failed, unsynced, Options, Saved, Spool, Reason, delivered, permanent, stats_file,
  stats_version, persist_stats, record_removal, remove,
}

abbrev pub file_suffix : String
file_suffix = ".spool.json"

-- The options of a caller, where 0 and below ask for the default.
pub record Request : Type 0 where
  pub dir : String
  pub max_bytes : ℤ
  pub max_age : ℤ
  pub max_items : ℤ

abbrev pub or_default : ℕ → ℤ → ℕ
or_default d (pos zero) = d
or_default d (pos (suc n)) = suc n
or_default d (negsuc n) = d

unfoldable pub options : Request → Options
options r = record {
  max_bytes = or_default (256 * 2 ^ 20) r.max_bytes;
  max_age = or_default (24 * 3600 * 10 ^ 9) r.max_age;
  max_items = or_default 10000 r.max_items;
}

abbrev pub restore : Saved → Spool → Spool
restore v s =
    if eq_ℤ v.version stats_version
    then (record s {
      enqueued = pos_part v.stats.enqueued_total;
      delivered = pos_part v.stats.delivered_total;
      dropped = pos_part v.stats.dropped_total;
      expired = pos_part v.stats.expired_total;
      capacity = pos_part v.stats.capacity_total;
      corrupt = pos_part v.stats.corrupt_total;
      permanent = pos_part v.stats.permanent_total;
      retries = pos_part v.stats.retry_total;
      enqueue_errors = pos_part v.stats.enqueue_errors_total;
    })
    else s

unfoldable pub load_stats : Disk → Spool → Spool
load_stats d s = elim (if d.can_read stats_file then s.saved else none) [
  | none ↦ s
  | some v ↦ restore v s
]

-- The files whose Info answers.
unfoldable pub visible : Disk → List File → List File
visible d [] = []
visible d (f ∷ l) = let rest = visible d l in if d.can_stat f.name then f ∷ rest else rest

abbrev pub recount : Disk → Spool → Spool
recount d s =
    let seen = visible d s.files in
    record s {
      pending = length seen;
      bytes = pos (total seen);
      enqueued = max s.enqueued (length seen);
    }

unfoldable pub rescan : Disk → ℕ → Spool → Spool
rescan d now s = if d.can_list then persist_stats d (enforce_retention d now (recount d s)) else s

pub data Opened : Type 0 where
  disabled : Opened
  unusable : Opened
  ready : Spool → Opened

-- A spool before anything is read from its directory.
abbrev pub blank_spool : Options → List File → Option Saved → Spool
blank_spool o files saved = record {
  opts = o;
  files = files;
  saved = saved;
  inflight = [];
  pending = 0;
  bytes = pos 0;
  enqueued = 0;
  delivered = 0;
  dropped = 0;
  expired = 0;
  capacity = 0;
  corrupt = 0;
  permanent = 0;
  retries = 0;
  enqueue_errors = 0;
}

-- `can_create` is the answer of MkdirAll and Chmod.
unfoldable pub new : Disk → ℕ → Bool → Request → List File → Option Saved → Opened
new d now can_create r files saved =
    if is_blank r.dir
    then disabled
    else if can_create
    then ready (rescan d now (load_stats d (blank_spool (options r) files saved)))
    else unusable

pub data EnqueueError : Type 0 where
  empty_payload marshal_error write_error over_budget inspect_error : EnqueueError

pub data EnqueueResult : Type 0 where
  queued : Envelope → EnqueueResult
  refused : EnqueueError → EnqueueResult

-- The arguments of a call of `EnqueuePriority`, and what it reads from its environment.
pub record Entry : Type 0 where
  pub id : String
  pub kind : String
  pub priority : ℤ
  pub payload : String
  pub now : ℕ
  pub fresh_id : String
  pub name : String

unfoldable pub envelope : Entry → Envelope
envelope e = record {
  id = if is_blank e.id then e.fresh_id else trim_space e.id;
  kind = trim_space e.kind;
  priority = e.priority;
  created_at = e.now;
  attempts = 0;
  payload = e.payload;
  receipt = "";
}

unfoldable pub new_file : Entry → ℕ → File
unfolding envelope
new_file e size = record {
  name = e.name;
  size = size;
  mod_time = e.now;
  content = some (envelope e);
}

-- After a successful write: count it, then make room.
unfoldable pub enqueue_written : Disk → Entry → ℕ → Spool → Spool
enqueue_written d e size s = persist_stats d (
    enforce_retention d e.now (record s {
      files = write_file (new_file e size) s.files;
      pending = s.pending + 1;
      bytes = s.bytes +ℤ pos size;
      enqueued = s.enqueued + 1;
    }))

unfoldable pub enqueue_failed : Disk → Spool → Spool
enqueue_failed d s = persist_stats d (record s { enqueue_errors = s.enqueue_errors + 1 })

-- `os.Lstat` of the new entry.
unfoldable pub enqueue_answer : Disk → Entry → Spool → EnqueueResult
enqueue_answer d e s =
    if d.can_stat e.name
    then (if has_file e.name s.files
        then queued (record (envelope e) { receipt = e.name })
        else refused over_budget)
    else refused inspect_error

-- `writeAtomic` answers with an error too when the rename succeeded and the directory could not be
-- synced: the file is there, and the counters are those of a failure.
unfoldable pub enqueue_write : Disk → Entry → ℕ → Spool → Spool × EnqueueResult
enqueue_write d e size s = elim (d.write e.name) [
  | written ↦ let s' = enqueue_written d e size s in (s', enqueue_answer d e s')
  | failed ↦ (enqueue_failed d s, refused write_error)
  | unsynced ↦ (
    enqueue_failed d (record s { files = write_file (new_file e size) s.files }),
    refused write_error,
  )
]

unfoldable pub enqueue : Disk → (Envelope → Option ℕ) → Entry → Spool → Spool × EnqueueResult
enqueue d marshal e s =
    if str_eq e.payload "" then (s, refused empty_payload) else elim (marshal (envelope e)) [
      | none ↦ (s, refused marshal_error)
      | some size ↦ enqueue_write d e size s
    ]

pub data RemoveError : Type 0 where
  invalid_receipt read_error decode_error mismatch remove_error sync_error : RemoveError

-- `filepath.Base(name) != name` holds, of names with the suffix, where there is a slash.
unfoldable pub is_receipt : String → Bool
is_receipt name = not (contains_code b'/' name) && has_suffix file_suffix name

-- The removal at the end of `removeEnvelope`.
unfoldable pub settle : Disk → File → Reason → Spool → Spool × Option RemoveError
settle d f reason s = elim (remove d f.name s) [
  | none ↦ (s, some remove_error)
  | some s' ↦
      let t = record_removal f.size reason s' in
      if d.can_sync then (persist_stats d t, none) else (t, some sync_error)
]

unfoldable pub stored_file : Disk → String → Spool → Option File
stored_file d name s = if d.can_read name then find_file name s.files else none

-- `removeEnvelope`; `none` is success.
unfoldable pub remove_envelope : Disk → Envelope → Reason → Spool → Spool × Option RemoveError
remove_envelope d env reason s =
    let name = trim_space env.receipt in
    if is_receipt name
    then elim (stored_file d name s) [
      | none ↦ (s, some read_error)
      | some f ↦ elim f.content [
        | none ↦ (s, some decode_error)
        | some stored ↦
            if str_eq (trim_space stored.id) (trim_space env.id)
            then settle d f reason s
            else (s, some mismatch)
      ]
    ]
    else (s, some invalid_receipt)

unfoldable pub acknowledge : Disk → Envelope → Spool → Spool × Option RemoveError
acknowledge d env s = remove_envelope d env delivered s

unfoldable pub reject : Disk → Envelope → Spool → Spool × Option RemoveError
reject d env s = remove_envelope d env permanent s
