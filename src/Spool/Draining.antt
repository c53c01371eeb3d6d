-- ===== src/Spool/Draining.antt =====
-- `Drain` of internal/spool/spool.go and the well-formedness of the spool.
use seagull_agent.Prelude.{
  ℕ, suc, ◌+◌, ℤ, pos, ◌+ℤ◌, ◌-ℤ◌, ◌≡◌, ◌≢◌, refl, Bool, ◌&&◌, Option, some, inl, inr, List, [],
  ◌∷◌, arith, String, ltb, leb, Bool-cases, Option-cases,
}
use seagull_agent.Spool.Drain.{
  release, discard, Delivery, Delivery-cases, Progress-cases, begin_cases, retried_file,
  keep_for_retry, finish_delivered, finish_decoded, finish, drain_entry, drain_loop, drain_limit,
  drain, snapshot,
}
use seagull_agent.Spool.Files.{
  File, Envelope, find_file, write_file, total, write_file-Distinct, write_file_again,
  name-find_file, delete,
}
use seagull_agent.Spool.State.{
  Disk, unsynced, WriteOutcome-cases, Spool, Reason, delivered, expired, corrupt, permanent, remove,
  persist_stats,
}
use seagull_agent.Spool.Valid.{
  IsValid, SameCounts-IsValid, removed, removed-IsValid, files-remove, persist_stats-IsValid,
}

inflight-IsValid : (l : List String) (s : Spool) → IsValid s → IsValid (record s { inflight = l })
inflight-IsValid l s v =
    SameCounts-IsValid s _ (refl, refl, refl, refl, refl, refl, refl, refl, refl, refl) v

release-IsValid : (name : String) (s : Spool) → IsValid s → IsValid (release name s)
unfolding release
release-IsValid name s v = inflight-IsValid (delete name s.inflight) s v

module _ (d : Disk) (f : File) (s : Spool) (v : IsValid s)
    (found : find_file f.name s.files ≡ some f) where
  settled-IsValid :
      (reason : Reason) → IsValid (release f.name (persist_stats d (removed f reason s)))
  settled-IsValid reason =
      release-IsValid f.name _ (persist_stats-IsValid d _ (removed-IsValid f s v found reason))

  discard-IsValid : (reason : Reason) → IsValid (discard d f reason s)
  unfolding discard
  discard-IsValid reason = elim (Option-cases (remove d f.name s)) [
    | inl stays ↦ rw (stays, discard) (release-IsValid f.name s v)
    | inr (t, gone) ↦ rw (gone, files-remove d f.name s t gone, discard) (settled-IsValid reason)
  ]

  finish_delivered-IsValid : IsValid (finish_delivered d f s).0
  unfolding finish_delivered
  finish_delivered-IsValid = elim (Option-cases (remove d f.name s)) [
    | inl stays ↦ rw (stays, finish_delivered) (release-IsValid f.name s v)
    | inr (t, gone) ↦
        rw (gone, files-remove d f.name s t gone, finish_delivered) (settled-IsValid delivered)
  ]

sized_retry : (t t' old size : ℕ) → t' + old ≡ t + size → (pos t +ℤ (pos size -ℤ pos old)) ≡ pos t'
sized_retry t t' old size h = ground arith

module _ (d : Disk) (now : ℕ) (f : File) (env : Envelope) (size : ℕ) (s : Spool) (v : IsValid s)
    (found : find_file f.name s.files ≡ some f) where
  retried-IsValid : IsValid (record s {
    files = write_file (retried_file f env now size) s.files;
    bytes = s.bytes +ℤ (pos size -ℤ pos f.size);
    retries = s.retries + 1;
  })
  unfolding retried_file
  retried-IsValid =
      let again = write_file_again (retried_file f env now size) f s.files found in
      record {
        distinct = write_file-Distinct (retried_file f env now size) s.files v.distinct;
        counted = omega (arith, again.0, v.counted);
        sized = rw v.sized (sized_retry (total s.files) _ f.size size again.1);
        balanced = v.balanced;
        itemised = v.itemised;
      }

  keep_for_retry-IsValid : d.write f.name ≢ unsynced → IsValid (keep_for_retry d now f env size s).0
  unfolding keep_for_retry
  keep_for_retry-IsValid synced = elim (WriteOutcome-cases (d.write f.name)) [
    | inl done ↦
        rw (done, keep_for_retry)
          (release-IsValid f.name _ (persist_stats-IsValid d _ retried-IsValid))
    | inr (inl bad) ↦ rw (bad, keep_for_retry) (release-IsValid f.name s v)
    | inr (inr torn) ↦ absurd (synced torn)
  ]

module _ (d : Disk) (marshal : Envelope → Option ℕ) (deliver : Envelope → Delivery)
    (synced : (k : String) → d.write k ≢ unsynced) where
  finish_decoded-IsValid :
      (now : ℕ) (f : File) (env : Envelope) (s : Spool)
      → IsValid s
      → find_file f.name s.files ≡ some f
      → IsValid (finish_decoded d marshal deliver now f env s).0
  unfolding finish_decoded
  finish_decoded-IsValid now f env s v found = elim (Delivery-cases (deliver env)) [
    | inl ok ↦ rw (ok, finish_decoded) (finish_delivered-IsValid d f s v found)
    | inr (inl bad) ↦ rw (bad, finish_decoded) (discard-IsValid d f s v found permanent)
    | inr (inr later) ↦ elim (Option-cases (marshal (record env { attempts = env.attempts + 1 }))) [
      | inl broken ↦ rw (later, broken, finish_decoded) (release-IsValid f.name s v)
      | inr (size, fits) ↦
          rw (later, fits, finish_decoded)
            (keep_for_retry-IsValid d now f env size s v found (synced f.name))
    ]
  ]

  -- The second half of an entry keeps a spool well formed, as long as the file that the first half
  -- read is still there.
  pub finish-IsValid :
      (now : ℕ) (f : File) (s : Spool)
      → IsValid s
      → find_file f.name s.files ≡ some f
      → IsValid (finish d marshal deliver now f s).0
  unfolding finish
  finish-IsValid now f s v found = elim (Option-cases f.content) [
    | inl garbled ↦ rw (garbled, finish) (discard-IsValid d f s v found corrupt)
    | inr (env, decoded) ↦
        elim (Bool-cases (ltb 0 s.opts.max_age && ltb (env.created_at + s.opts.max_age) now)) [
          | inl old ↦ rw (decoded, old, finish) (discard-IsValid d f s v found expired)
          | inr young ↦ rw (decoded, young, finish) (finish_decoded-IsValid now f env s v found)
        ]
  ]

  drain_entry-IsValid :
      (now : ℕ) (name : String) (s : Spool)
      → IsValid s
      → IsValid (drain_entry d marshal deliver now name s).0
  unfolding drain_entry
  drain_entry-IsValid now name s v = elim (begin_cases d name s) [
    | inl gone ↦ rw gone (inflight-IsValid (delete name s.inflight) s v)
    | inr (inl locked) ↦ rw locked (inflight-IsValid (delete name s.inflight) s v)
    | inr (inr (f, found, read)) ↦ rw read (
        finish-IsValid now f (record s { inflight = name ∷ s.inflight })
          (inflight-IsValid (name ∷ s.inflight) s v) (cc (name-find_file name s.files f found)))
  ]

  drain_loop-IsValid :
      (clock : ℕ → ℕ) (done : ℕ → Bool) (limit : ℕ) (entries : List String) (processed count : ℕ)
      (s : Spool)
      → IsValid s
      → IsValid (drain_loop d marshal deliver clock done limit entries processed count s).0
  unfolding drain_loop
  drain_loop-IsValid clock done limit [] processed count s v = v
  drain_loop-IsValid clock done limit (name ∷ rest) processed count s v =
      elim (Bool-cases (leb limit processed)) [
        | inl full ↦ rw full v
        | inr room ↦ elim (Bool-cases (done processed)) [
          | inl halt ↦ rw (room, halt) v
          | inr run ↦
              let w = drain_entry-IsValid (clock processed) name s v in
              let t = (drain_entry d marshal deliver (clock processed) name s).0 in
              elim (Progress-cases (drain_entry d marshal deliver (clock processed) name s).1) [
                | inl over ↦
                    rw (room, run, over, drain_loop)
                      (drain_loop-IsValid clock done limit rest (suc processed) count t w)
                | inr (inl out) ↦
                    rw (room, run, out, drain_loop)
                      (drain_loop-IsValid clock done limit rest (suc processed) (suc count) t w)
                | inr (inr (e, halted)) ↦ rw (room, run, halted, drain_loop) w
              ]
        ]
      ]

  -- Drain keeps a spool well formed, whatever the server answers, whenever it is cancelled, and
  -- whichever reads, removals and writes fail, if no write renames its file and then fails to sync
  -- the directory.
  pub drain-IsValid :
      (clock : ℕ → ℕ) (done : ℕ → Bool) (limit : ℤ) (s : Spool)
      → IsValid s
      → IsValid (drain d marshal deliver clock done limit s).0
  unfolding drain
  drain-IsValid clock done limit s v = elim (Option-cases (snapshot d s)) [
    | inl broken ↦ rw (broken, drain) v
    | inr (entries, read) ↦
        rw (read, drain) (drain_loop-IsValid clock done (drain_limit limit) entries 0 0 s v)
  ]
