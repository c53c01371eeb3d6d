-- ===== src/Spool/Delivered.antt =====
-- What Drain counts as delivered, and what it leaves in the queue.
use seagull_agent.Prelude.{
  ℕ, suc, ◌+◌, ◌-◌, ◌≤◌, ℤ, ◌≡◌, ◌≢◌, refl, Bool, true, false, ◌&&◌, Option, some, inl, inr, List,
  [], ◌∷◌, arith, String, str_eq_iff, ltb, leb, Bool-cases, Option-cases,
}
use seagull_agent.Spool.Drain.{
  begin_cases, release, discard, Delivery, Delivery-cases, deferred, DrainError, Progress,
  Progress-cases, sent, stopped, retried_file, keep_for_retry, finish_delivered, finish_decoded,
  finish, drain_entry, drain_loop, drain_limit, drain, snapshot, delivery_error, retry_write_error,
  retry_marshal_error,
}
use seagull_agent.Spool.Files.{File, Envelope, has_file, has-write_file}
use seagull_agent.Spool.State.{
  Disk, WriteOutcome-cases, Spool, Reason, delivered, expired, corrupt, permanent, tally, remove,
  record_removal, persist_stats,
}
use seagull_agent.Spool.Valid.{removed, files-remove, persist_stats-SameCounts, delivered-removed}

abbrev gained : Progress → ℕ
gained sent = 1
gained _ = 0

-- A step that counts exactly what it reports as sent.
abbrev CountsSent : Spool → Spool × Progress → Type 0
CountsSent s r = r.0.delivered ≡ s.delivered + gained r.1

delivered-removed_other :
    (f : File) (reason : Reason) (s : Spool)
    → reason ≢ delivered
    → (removed f reason s).delivered ≡ s.delivered
unfolding record_removal tally
delivered-removed_other f delivered s h = absurd (h refl)
delivered-removed_other f _ s h = refl

delivered-discard :
    (d : Disk) (f : File) (reason : Reason) (s : Spool)
    → reason ≢ delivered
    → (discard d f reason s).delivered ≡ s.delivered
unfolding discard release
delivered-discard d f reason s h = elim (Option-cases (remove d f.name s)) [
  | inl stays ↦ rw (stays, discard)
  | inr (t, gone) ↦
      rw
        (
          gone,
          files-remove d f.name s t gone,
          discard,
          (persist_stats-SameCounts d (removed f reason s)).4,
        )
        (delivered-removed_other f reason s h)
]

finish_delivered-CountsSent :
    (d : Disk) (f : File) (s : Spool) → CountsSent s (finish_delivered d f s)
unfolding finish_delivered release
finish_delivered-CountsSent d f s = elim (Option-cases (remove d f.name s)) [
  | inl stays ↦ rw (stays, finish_delivered) (omega arith)
  | inr (t, gone) ↦
      rw
        (
          gone,
          files-remove d f.name s t gone,
          finish_delivered,
          (persist_stats-SameCounts d (removed f delivered s)).4,
        )
        (omega (arith, delivered-removed f s))
]

keep_for_retry-CountsSent :
    (d : Disk) (now : ℕ) (f : File) (env : Envelope) (size : ℕ) (s : Spool)
    → CountsSent s (keep_for_retry d now f env size s)
unfolding keep_for_retry release persist_stats
keep_for_retry-CountsSent d now f env size s = ground arith

module _ (d : Disk) (marshal : Envelope → Option ℕ) (deliver : Envelope → Delivery) where
  finish_decoded-CountsSent :
      (now : ℕ) (f : File) (env : Envelope) (s : Spool)
      → CountsSent s (finish_decoded d marshal deliver now f env s)
  unfolding finish_decoded
  finish_decoded-CountsSent now f env s = elim (Delivery-cases (deliver env)) [
    | inl ok ↦ rw (ok, finish_decoded) (finish_delivered-CountsSent d f s)
    | inr (inl bad) ↦
        rw (bad, finish_decoded) (omega (arith, delivered-discard d f permanent s (λ e. cc)))
    | inr (inr later) ↦ elim (Option-cases (marshal (record env { attempts = env.attempts + 1 }))) [
      | inl broken ↦ rw (later, broken, finish_decoded) (unfold release in omega arith)
      | inr (size, fits) ↦
          rw (later, fits, finish_decoded) (keep_for_retry-CountsSent d now f env size s)
    ]
  ]

  finish-CountsSent :
      (now : ℕ) (f : File) (s : Spool) → CountsSent s (finish d marshal deliver now f s)
  unfolding finish
  finish-CountsSent now f s = elim (Option-cases f.content) [
    | inl garbled ↦ rw (garbled, finish) (omega (arith, delivered-discard d f corrupt s (λ e. cc)))
    | inr (env, decoded) ↦
        elim (Bool-cases (ltb 0 s.opts.max_age && ltb (env.created_at + s.opts.max_age) now)) [
          | inl old ↦
              rw (decoded, old, finish) (omega (arith, delivered-discard d f expired s (λ e. cc)))
          | inr young ↦ rw (decoded, young, finish) (finish_decoded-CountsSent now f env s)
        ]
  ]

  drain_entry-CountsSent :
      (now : ℕ) (name : String) (s : Spool)
      → CountsSent s (drain_entry d marshal deliver now name s)
  unfolding drain_entry
  drain_entry-CountsSent now name s = elim (begin_cases d name s) [
    | inl gone ↦ rw gone (omega arith)
    | inr (inl locked) ↦ rw locked (omega arith)
    | inr (inr (f, found, read)) ↦
        rw read (finish-CountsSent now f (record s { inflight = name ∷ s.inflight }))
  ]

  -- The counter and the result of the loop grow together, and the result by no more than the
  -- rounds that the limit leaves.
  abbrev Tallied : ℕ → ℕ → ℕ → Spool → Spool × ℕ × Option DrainError → Type 0
  Tallied limit processed count s r =
      (r.0.delivered + count ≡ s.delivered + r.1) × (r.1 ≤ count + (limit - processed))

  drain_loop-Tallied :
      (clock : ℕ → ℕ) (done : ℕ → Bool) (limit : ℕ) (entries : List String) (processed count : ℕ)
      (s : Spool)
      → Tallied limit processed count s
          (drain_loop d marshal deliver clock done limit entries processed count s)
  unfolding drain_loop
  drain_loop-Tallied clock done limit [] processed count s = omega arith
  drain_loop-Tallied clock done limit (name ∷ rest) processed count s =
      elim (Bool-cases (leb limit processed)) [
        | inl full ↦ rw full (omega arith)
        | inr room ↦ elim (Bool-cases (done processed)) [
          | inl halt ↦ rw (room, halt) (omega arith)
          | inr run ↦
              let step = drain_entry-CountsSent (clock processed) name s in
              let t = (drain_entry d marshal deliver (clock processed) name s).0 in
              let more : processed + 1 ≤ limit = ground arith in
              elim (Progress-cases (drain_entry d marshal deliver (clock processed) name s).1) [
                | inl over ↦
                    let ih = drain_loop-Tallied clock done limit rest (suc processed) count t in
                    let same : t.delivered ≡ s.delivered + 0 = rw over at step in
                    rw (room, run, over, drain_loop) (omega (arith, ih, same))
                | inr (inl out) ↦
                    let ih =
                      drain_loop-Tallied clock done limit rest (suc processed) (suc count) t in
                    let one : t.delivered ≡ s.delivered + 1 = rw out at step in
                    rw (room, run, out, drain_loop) (omega (arith, ih, one))
                | inr (inr (e, halted)) ↦
                    let same : t.delivered ≡ s.delivered + 0 = rw halted at step in
                    rw (room, run, halted, drain_loop) (omega (arith, same))
              ]
        ]
      ]

  -- The number that Drain returns is what it adds to the delivered entries, and is at most the
  -- limit, on every path out of the loop.
  pub drain_delivered :
      (clock : ℕ → ℕ) (done : ℕ → Bool) (limit : ℤ) (s : Spool)
      → ((drain d marshal deliver clock done limit s).0.delivered
          ≡ s.delivered + (drain d marshal deliver clock done limit s).1)
        × ((drain d marshal deliver clock done limit s).1 ≤ drain_limit limit)
  unfolding drain
  drain_delivered clock done limit s = elim (Option-cases (snapshot d s)) [
    | inl broken ↦ rw (broken, drain) (omega arith)
    | inr (entries, read) ↦
        rw (read, drain)
          (omega (arith, drain_loop-Tallied clock done (drain_limit limit) entries 0 0 s))
  ]

  keep_for_retry-has :
      (now : ℕ) (f : File) (env : Envelope) (size : ℕ) (s : Spool)
      → has_file f.name s.files ≡ true
      → has_file f.name (keep_for_retry d now f env size s).0.files ≡ true
  unfolding keep_for_retry release persist_stats retried_file
  keep_for_retry-has now f env size s h =
      ground (
        arith,
        has-write_file f.name (retried_file f env now size) s.files,
        str_eq_iff f.name f.name,
      )

  abbrev pub StaysQueued : String → Spool × Progress → Type 0
  StaysQueued name r = (has_file name r.0.files ≡ true) × ((e : DrainError) × (r.1 ≡ stopped e))

  keep_for_retry-StaysQueued :
      (now : ℕ) (f : File) (env : Envelope) (size : ℕ) (s : Spool)
      → has_file f.name s.files ≡ true
      → StaysQueued f.name (keep_for_retry d now f env size s)
  unfolding keep_for_retry
  keep_for_retry-StaysQueued now f env size s h = (
    keep_for_retry-has now f env size s h,
    elim (WriteOutcome-cases (d.write f.name)) [
      | inl done ↦ (delivery_error, rw (done, keep_for_retry))
      | inr (inl bad) ↦ (retry_write_error, rw (bad, keep_for_retry))
      | inr (inr torn) ↦ (retry_write_error, rw (torn, keep_for_retry))
    ],
  )

  -- An entry of the queue that is young and whose delivery is deferred stops the drain and is still in the queue, whatever
  -- the encoder and the file system answer.
  pub finish_deferred :
      (now : ℕ) (f : File) (env : Envelope) (s : Spool)
      → has_file f.name s.files ≡ true
      → f.content ≡ some env
      → (ltb 0 s.opts.max_age && ltb (env.created_at + s.opts.max_age) now) ≡ false
      → deliver env ≡ deferred
      → StaysQueued f.name (finish d marshal deliver now f s)
  unfolding finish finish_decoded
  finish_deferred now f env s here decoded young later =
      elim (Option-cases (marshal (record env { attempts = env.attempts + 1 }))) [
        | inl broken ↦
            rw (decoded, young, later, broken, finish, finish_decoded)
              (unfold release in (here, (retry_marshal_error, refl)))
        | inr (size, fits) ↦
            rw (decoded, young, later, fits, finish, finish_decoded)
              (keep_for_retry-StaysQueued now f env size s here)
      ]
