-- ===== src/Spool/State.antt =====
-- The types of internal/spool/spool.go, its counters, and the directory that holds the queue.
-- A file stands for one directory entry with the suffix `.spool.json`: its size, its modification
-- time, and the envelope that json.Unmarshal reads from it, if it reads one. Times and durations
-- are nanoseconds. What the file system answers is the argument `Disk`.
use seagull_agent.Prelude.{
  ℕ, suc, ◌-◌, ℤ, pos, negsuc, ◌-ℤ◌, Bool, ◌&&◌, Option, none, some, List, String, if◌then◌else◌,
  ◌≡◌, refl, ◌⊎◌, inl, inr,
}
use seagull_agent.Spool.Files.{File, has_file, without_file}

-- The answers of the file system: a listing, a stat, a read or a removal may fail; a write may
-- fail before the rename, or after it, when the directory cannot be synced.
pub data WriteOutcome : Type 0 where
  written failed unsynced : WriteOutcome

pub WriteOutcome-cases : (w : WriteOutcome) → (w ≡ written) ⊎ ((w ≡ failed) ⊎ (w ≡ unsynced))
WriteOutcome-cases written = inl refl
WriteOutcome-cases failed = inr (inl refl)
WriteOutcome-cases unsynced = inr (inr refl)

pub record Disk : Type 0 where
  pub can_list : Bool
  pub can_stat : String → Bool
  pub can_read : String → Bool
  pub can_remove : String → Bool
  pub can_sync : Bool
  pub write : String → WriteOutcome

pub record Options : Type 0 where
  pub max_bytes : ℕ
  pub max_age : ℕ
  pub max_items : ℕ

pub record Stats : Type 0 where
  pub pending : ℤ
  pub bytes : ℤ
  pub enqueued_total : ℤ
  pub delivered_total : ℤ
  pub dropped_total : ℤ
  pub expired_total : ℤ
  pub capacity_total : ℤ
  pub corrupt_total : ℤ
  pub permanent_total : ℤ
  pub retry_total : ℤ
  pub enqueue_errors_total : ℤ

-- The content of `.spool-stats.json`.
pub record Saved : Type 0 where
  pub version : ℤ
  pub stats : Stats

pub record Spool : Type 0 where
  pub opts : Options
  pub files : List File
  pub saved : Option Saved
  pub inflight : List String
  pub pending : ℕ
  pub bytes : ℤ
  pub enqueued : ℕ
  pub delivered : ℕ
  pub dropped : ℕ
  pub expired : ℕ
  pub capacity : ℕ
  pub corrupt : ℕ
  pub permanent : ℕ
  pub retries : ℕ
  pub enqueue_errors : ℕ

unfoldable pub stats : Spool → Stats
stats s = record {
  pending = pos s.pending;
  bytes = s.bytes;
  enqueued_total = pos s.enqueued;
  delivered_total = pos s.delivered;
  dropped_total = pos s.dropped;
  expired_total = pos s.expired;
  capacity_total = pos s.capacity;
  corrupt_total = pos s.corrupt;
  permanent_total = pos s.permanent;
  retry_total = pos s.retries;
  enqueue_errors_total = pos s.enqueue_errors;
}

abbrev pub stats_file : String
stats_file = ".spool-stats.json"

abbrev pub stats_version : ℤ
stats_version = pos 1

-- `persistStatsLocked`: the callers drop its error.
unfoldable pub persist_stats : Disk → Spool → Spool
unfolding stats
persist_stats d s =
    let saved : Option Saved = some (record { version = stats_version; stats = stats s }) in
    elim (d.write stats_file) [ failed ↦ s | _ ↦ record s { saved = saved } ]

pub data Reason : Type 0 where
  delivered expired capacity corrupt permanent : Reason

-- The switch of `recordRemovalLocked`.
unfoldable pub tally : Reason → Spool → Spool
tally delivered s = record s { delivered = suc s.delivered }
tally expired s = record s { dropped = suc s.dropped; expired = suc s.expired }
tally capacity s = record s { dropped = suc s.dropped; capacity = suc s.capacity }
tally corrupt s = record s { dropped = suc s.dropped; corrupt = suc s.corrupt }
tally permanent s = record s { dropped = suc s.dropped; permanent = suc s.permanent }

-- The last tests of `recordRemovalLocked` and of `enforceRetentionLocked`.
abbrev pub clamp : ℤ → ℤ
clamp (pos n) = pos n
clamp (negsuc n) = pos 0

-- `pending` is decremented and set to 0 below 0, which is subtraction on ℕ.
unfoldable pub record_removal : ℕ → Reason → Spool → Spool
unfolding tally
record_removal size reason s =
    tally reason (record s { pending = s.pending - 1; bytes = clamp (s.bytes -ℤ pos size) })

-- `os.Remove`, which fails on a missing file; `none` is its error.
unfoldable pub remove : Disk → String → Spool → Option Spool
remove d name s =
    if d.can_remove name && has_file name s.files
    then some (record s { files = without_file name s.files })
    else none
