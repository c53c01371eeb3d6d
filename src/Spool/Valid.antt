-- ===== src/Spool/Valid.antt =====
-- A well-formed spool: its counters agree with the directory and with each other.
use seagull_agent.Prelude.{
  ℕ, suc, ◌+◌, ◌-◌, pos, ◌-ℤ◌, ◌≡◌, refl, true, some, arith, length, String,
}
use seagull_agent.Spool.Files.{
  File, has_file, find_file, without_file, total, Distinct, has-find_file, without_file-Distinct,
  total-without_file, length-without_file,
}
use seagull_agent.Spool.State.{
  Disk, Spool, Reason, delivered, tally, record_removal, remove, persist_stats, clamp,
}

pub record IsValid (s : Spool) : Type 0 where
  pub distinct : Distinct s.files
  pub counted : s.pending ≡ length s.files
  pub sized : s.bytes ≡ pos (total s.files)
  pub balanced : s.enqueued ≡ s.pending + s.delivered + s.dropped
  pub itemised : s.dropped ≡ s.expired + s.capacity + s.corrupt + s.permanent

pub files-remove :
    (d : Disk) (name : String) (s s' : Spool)
    → remove d name s ≡ some s'
    → s' ≡ record s { files = without_file name s.files }
unfolding remove
files-remove d name s s' h = ground arith

pub has-remove :
    (d : Disk) (name : String) (s s' : Spool)
    → remove d name s ≡ some s'
    → has_file name s.files ≡ true
unfolding remove
has-remove d name s s' h = ground arith

-- The state after a counted removal.
abbrev pub removed : File → Reason → Spool → Spool
removed f reason s = record_removal f.size reason (record s { files = without_file f.name s.files })

sized_after : (a b c : ℕ) → a + b ≡ c → clamp (pos c -ℤ pos b) ≡ pos a
sized_after a b c h = ground arith

-- The parts of the invariant that do not depend on the reason.
record Shrunk (s t : Spool) : Type 0 where
  distinct : Distinct t.files
  counted : t.pending ≡ length t.files
  sized : t.bytes ≡ pos (total t.files)
  balance : s.pending ≡ t.pending + 1

module _ (f : File) (s : Spool) (v : IsValid s) (h : find_file f.name s.files ≡ some f) where
  shrunk : Shrunk s (record s {
    files = without_file f.name s.files;
    pending = s.pending - 1;
    bytes = clamp (s.bytes -ℤ pos f.size);
  })
  shrunk =
      let gone = length-without_file f.name s.files v.distinct (has-find_file f.name s.files f h) in
      record {
        distinct = without_file-Distinct f.name s.files v.distinct;
        counted = omega (arith, gone, v.counted);
        sized = rw v.sized (sized_after _ _ _ (total-without_file f.name s.files f v.distinct h));
        balance = omega (arith, gone, v.counted);
      }

  -- A counted removal keeps the counters right.
  pub removed-IsValid : (reason : Reason) → IsValid (removed f reason s)
  unfolding record_removal tally
  removed-IsValid delivered = record {
    distinct = shrunk.distinct;
    counted = shrunk.counted;
    sized = shrunk.sized;
    balanced = omega (arith, shrunk.balance);
    itemised = v.itemised;
  }
  removed-IsValid _ = record {
    distinct = shrunk.distinct;
    counted = shrunk.counted;
    sized = shrunk.sized;
    balanced = omega (arith, shrunk.balance);
    itemised = omega arith;
  }

-- Two spools that differ only in what the invariant does not read.
abbrev pub SameCounts : Spool → Spool → Type 0
SameCounts s t =
    (t.files ≡ s.files)
    × (t.pending ≡ s.pending)
    × (t.bytes ≡ s.bytes)
    × (t.enqueued ≡ s.enqueued)
    × (t.delivered ≡ s.delivered)
    × (t.dropped ≡ s.dropped)
    × (t.expired ≡ s.expired)
    × (t.capacity ≡ s.capacity)
    × (t.corrupt ≡ s.corrupt)
    × (t.permanent ≡ s.permanent)

pub SameCounts-IsValid : (s t : Spool) → SameCounts s t → IsValid s → IsValid t
SameCounts-IsValid s t (files, pending, bytes, enq, dlv, drp, exp, cap, cor, per) v = record {
  distinct = rw files v.distinct;
  counted = rw (files, pending) v.counted;
  sized = rw (files, bytes) v.sized;
  balanced = omega arith;
  itemised = omega arith;
}

pub persist_stats-SameCounts : (d : Disk) (s : Spool) → SameCounts s (persist_stats d s)
unfolding persist_stats
persist_stats-SameCounts d s = ground arith

pub persist_stats-IsValid : (d : Disk) (s : Spool) → IsValid s → IsValid (persist_stats d s)
persist_stats-IsValid d s v =
    SameCounts-IsValid s (persist_stats d s) (persist_stats-SameCounts d s) v

-- A removal changes neither the limits nor what is in flight.
pub removed_keeps :
    (f : File) (reason : Reason) (s : Spool)
    → ((removed f reason s).files ≡ without_file f.name s.files)
      × ((removed f reason s).opts ≡ s.opts)
      × ((removed f reason s).inflight ≡ s.inflight)
unfolding record_removal tally
removed_keeps f delivered s = (refl, refl, refl)
removed_keeps f _ s = (refl, refl, refl)

pub delivered-removed : (f : File) (s : Spool) → (removed f delivered s).delivered ≡ suc s.delivered
unfolding record_removal tally
delivered-removed f s = refl
