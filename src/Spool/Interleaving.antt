-- ===== src/Spool/Interleaving.antt =====
-- The drain worker beside the producers. `deliver` runs without the lock, so an Enqueue and its
-- retention may come between the two halves of an entry; Acknowledge and Reject wait for the
-- drain's own lock.
use seagull_agent.Prelude.{
  ℕ, ◌≡◌, ◌≢◌, refl, ap, true, false, Option, none, some, ◌∷◌, arith, String, str_eq_iff,
}
use seagull_agent.Spool.Drain.{finish, Delivery}
use seagull_agent.Spool.Draining.{finish-IsValid}
use seagull_agent.Spool.Enqueue.{enqueue-IsValid, enqueue-Holds}
use seagull_agent.Spool.Files.{File, Envelope, has_file, find_file, member, name-find_file}
use seagull_agent.Spool.Queue.{Entry, enqueue, remove_envelope}
use seagull_agent.Spool.Settle.{remove_envelope-IsValid}
use seagull_agent.Spool.State.{Disk, unsynced, Spool, Reason}
use seagull_agent.Spool.Valid.{IsValid, SameCounts-IsValid}

-- The spool, and the file that the drain worker has read and not settled.
pub record World : Type 0 where
  pub spool : Spool
  pub active : Option File

module _ (marshal : Envelope → Option ℕ) (deliver : Envelope → Delivery) where
  -- One critical section, under a file system that syncs after a rename.
  pub data Step (w : World) : World → Type 0 where
    enqueue_step :
        (d : Disk) (e : Entry)
        → has_file e.name w.spool.files ≡ false
        → ((k : String) → d.write k ≢ unsynced)
        → Step w (record w { spool = (enqueue d marshal e w.spool).0 })
    settle_step :
        (d : Disk) (env : Envelope) (reason : Reason)
        → w.active ≡ none
        → Step w (record w { spool = (remove_envelope d env reason w.spool).0 })
    begin_step :
        (name : String) (f : File)
        → w.active ≡ none
        → find_file name w.spool.files ≡ some f
        → Step w (record {
          spool = record (w.spool) { inflight = name ∷ w.spool.inflight };
          active = some f;
        })
    finish_step :
        (d : Disk) (now : ℕ) (f : File)
        → w.active ≡ some f
        → ((k : String) → d.write k ≢ unsynced)
        → Step w (record { spool = (finish d marshal deliver now f w.spool).0; active = none })

  pub data Reach (w : World) : World → Type 0 where
    here : Reach w w
    next : {u v : World} → Reach w u → Step u v → Reach w v

-- The spool is well formed, and the file in hand is in the queue as it was read, and in flight.
pub record IsSafe (w : World) : Type 0 where
  pub valid : IsValid w.spool
  pub in_hand :
      (f : File)
      → w.active ≡ some f
      → (find_file f.name w.spool.files ≡ some f) × (member f.name w.spool.inflight ≡ true)

in_hand_begun :
    (name : String) (f g : File) (s : Spool)
    → find_file name s.files ≡ some f
    → f ≡ g
    → (find_file g.name s.files ≡ some g) × (member g.name (name ∷ s.inflight) ≡ true)
unfolding member
in_hand_begun name f g s found same =
    let named = name-find_file name s.files f found in
    (
      cc (found, same, named, ap (λ (x : File). x.name) same),
      ground (arith, str_eq_iff name g.name, named, ap (λ (x : File). x.name) same),
    )

module _ (marshal : Envelope → Option ℕ) (deliver : Envelope → Delivery) where
  pub Step-IsSafe : {u v : World} → Step marshal deliver u v → IsSafe u → IsSafe v
  Step-IsSafe {u} (enqueue_step d e fresh synced) h = record {
    valid = enqueue-IsValid d marshal e u.spool h.valid fresh (synced e.name);
    in_hand = λ f p.
        let (found, busy) = h.in_hand f p in
        let (inflight, same) = enqueue-Holds d marshal e u.spool h.valid fresh (synced e.name) in
        (same f.name f busy found, rw inflight busy);
  }
  Step-IsSafe {u} (settle_step d env reason idle) h = record {
    valid = remove_envelope-IsValid d env reason u.spool h.valid;
    in_hand = λ f p. cc;
  }
  Step-IsSafe {u} (begin_step name f idle found) h = record {
    valid =
        SameCounts-IsValid u.spool _ (refl, refl, refl, refl, refl, refl, refl, refl, refl, refl)
          h.valid;
    in_hand = λ g p. in_hand_begun name f g u.spool found (cc);
  }
  Step-IsSafe {u} (finish_step d now f active synced) h = record {
    valid = finish-IsValid d marshal deliver synced now f u.spool h.valid (h.in_hand f active).0;
    in_hand = λ g p. cc;
  }

  -- Whatever the producers, the acknowledgements and the drain worker do, in whatever order, the
  -- counters agree with the directory, and an entry that is being delivered is never removed or
  -- changed by anything but its own settlement, if generated names are new and no write is torn
  -- after its rename.
  pub Reach-IsSafe : {u v : World} → IsSafe u → Reach marshal deliver u v → IsSafe v
  Reach-IsSafe h here = h
  Reach-IsSafe h (next r s) = Step-IsSafe s (Reach-IsSafe h r)
