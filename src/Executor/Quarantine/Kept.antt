-- ===== src/Executor/Quarantine/Kept.antt =====
-- executor.go: what quarantine_file takes off the path and leaves at the destination.
use seagull_agent.Prelude.{
  ℕ, String, ◌≡◌, refl, ◌∙◌, ◌⊎◌, inl, inr, Bool, true, false, not, ◌||◌, Option, none, some, List,
  Bool-cases, Option-cases,
}
use seagull_agent.Executor.Outcome.{Outcome, ok, fail, Outcome-cases}
use seagull_agent.Executor.Quarantine.{
  QuarantineFilePayload, QuarantineRequest, parse_quarantine_file_payload, validate_quarantine_path,
  quarantine_dir,
}
use seagull_agent.Executor.Quarantine.Move.{
  Entry, Places, Looks, QuarantineReport, open_quarantine_target, remove_dest,
  copy_quarantine_target, same_file, taken, finish_quarantine, move_target, hashed, report,
  run_parsed, run_quarantine_file, fill_dest, partial_copy, open_copy, full_copy,
}

-- The destination holds these bytes, with no permission.
abbrev pub HoldsBytes : List ℕ → Option Entry → Type 0
HoldsBytes bytes dest = (e : Entry) × (dest ≡ some e) × (e.content ≡ bytes) × (e.permissions ≡ 0)

abbrev pub says_moved : Outcome QuarantineReport → Bool
says_moved (fail e) = false
says_moved (ok q) = q.quarantined

-- What stood at the destination before stays.
abbrev pub NeverOver : Places → Places → Type 0
NeverOver w w' = (w.dest ≡ none) ⊎ (w'.dest ≡ w.dest)

-- The action takes nothing, and does not say that it did; or what it takes stood at the path when
-- os.Remove ran, the look before had found the opened file there, and the destination holds what the
-- copy has read from that file.
pub data IsKept (k : Looks) (w : Places) (r : Places × Outcome QuarantineReport) : Type 0 where
  kept : r.0.removed ≡ w.removed → says_moved r.1 ≡ false → NeverOver w r.0 → IsKept k w r
  moved :
      (target e : Entry)
      → open_quarantine_target k ≡ ok target
      → same_file target k.at_revalidation ≡ true
      → k.at_removal ≡ some e
      → r.0.removed ≡ some e
      → HoldsBytes k.copied r.0.dest
      → w.dest ≡ none
      → IsKept k w r

refused : (k : Looks) (w : Places) (e : String) → IsKept k w (w, fail e)
refused k w e = kept refl refl (inr refl)

remove_dest-removed : (k : Looks) (w : Places) → (remove_dest k w).removed ≡ w.removed
unfolding remove_dest
remove_dest-removed k w = elim (Bool-cases k.can_clean) [
  | inl cleans ↦ rw (cleans, remove_dest) refl
  | inr stuck ↦ rw (stuck, remove_dest) refl
]

-- A copy takes nothing, and one without an error has filled a destination that was free.
record Copied (k : Looks) (w : Places) (r : Places × Option String) : Type 0 where
  takes_nothing : r.0.removed ≡ w.removed
  never_over : NeverOver w r.0
  filled : r.1 ≡ none → (HoldsBytes k.copied r.0.dest) × (w.dest ≡ none)

no_copy :
    (k : Looks) (w w' : Places) (message : String)
    → w'.removed ≡ w.removed
    → NeverOver w w'
    → Copied k w (w', some message)
no_copy k w w' message h d = record {
  takes_nothing = h;
  never_over = d;
  filled = λ z. absurd (cc z);
}

fill_dest-Copied : (k : Looks) (w : Places) → w.dest ≡ none → Copied k w (fill_dest k w)
unfolding fill_dest
fill_dest-Copied k w free = elim (Bool-cases k.can_create) [
  | inr bad ↦ simp (bad, fill_dest) (no_copy k w w _ refl (inr refl))
  | inl created ↦ elim (Bool-cases k.can_copy) [
    | inr bad ↦
        simp (created, bad, fill_dest)
          (no_copy k w _ _ (remove_dest-removed k (partial_copy k w)) (inl free))
    | inl copied ↦ elim (Bool-cases (not k.can_sync_output || not k.can_chmod)) [
      | inl bad ↦
          simp (created, copied, bad, fill_dest)
            (no_copy k w _ _ (remove_dest-removed k (open_copy k w)) (inl free))
      | inr synced ↦ elim (Bool-cases (not k.can_close || not k.can_sync_dest)) [
        | inl bad ↦
            simp (created, copied, synced, bad, fill_dest)
              (no_copy k w _ _ (remove_dest-removed k (full_copy k w)) (inl free))
        | inr good ↦
            simp (created, copied, synced, good, fill_dest)
              (record {
                takes_nothing = refl;
                never_over = inl free;
                filled = λ z. ((_, refl, refl, refl), free);
              })
      ]
    ]
  ]
]

copy-Copied : (k : Looks) (w : Places) → Copied k w (copy_quarantine_target k w)
unfolding copy_quarantine_target
copy-Copied k w = elim (Bool-cases k.can_seek) [
  | inr stuck ↦ simp (stuck, copy_quarantine_target) (no_copy k w w _ refl (inr refl))
  | inl seeks ↦ elim (Option-cases w.dest) [
    | inr (old, there) ↦
        simp (seeks, there, copy_quarantine_target) (no_copy k w w _ refl (inr refl))
    | inl free ↦ simp (seeks, free, copy_quarantine_target) (fill_dest-Copied k w free)
  ]
]

taken-eq-some : (k : Looks) (e : Entry) → taken k ≡ some e → k.at_removal ≡ some e
taken-eq-some k e h = elim (Bool-cases k.can_remove) [
  | inl removes ↦ rw removes at h
  | inr stuck ↦ absurd (cc (rw stuck at h))
]

finish-IsKept :
    (k : Looks) (target : Entry) (r : QuarantineReport) (w w' : Places)
    → open_quarantine_target k ≡ ok target
    → w'.removed ≡ w.removed
    → HoldsBytes k.copied w'.dest
    → w.dest ≡ none
    → IsKept k w (finish_quarantine k target r w')
unfolding finish_quarantine
finish-IsKept k target r w w' opened nothing copy free =
    let cleaned = remove_dest-removed k w' ∙ nothing in
    elim (Bool-cases (same_file target k.at_revalidation)) [
      | inr other ↦ simp (other, finish_quarantine) (kept cleaned refl (inl free))
      | inl same ↦ elim (Option-cases (taken k)) [
        | inl stuck ↦ simp (same, stuck, finish_quarantine) (kept cleaned refl (inl free))
        | inr (e, took) ↦
            let stood = taken-eq-some k e took in
            elim (Bool-cases k.can_sync_source) [
              | inr unsynced ↦
                  simp (same, took, unsynced, finish_quarantine)
                    (moved target e opened same stood refl copy free)
              | inl synced ↦
                  simp (same, took, synced, finish_quarantine)
                    (moved target e opened same stood refl copy free)
            ]
      ]
    ]

move_target-IsKept :
    (k : Looks) (target : Entry) (r : QuarantineReport) (w : Places)
    → open_quarantine_target k ≡ ok target
    → r.quarantined ≡ false
    → IsKept k w (move_target k target r w)
unfolding move_target
move_target-IsKept k target r w opened fresh =
    let copy = copy_quarantine_target k w in
    let did : Copied k w copy = copy-Copied k w in
    elim (Bool-cases r.dry_run) [
      | inl dry ↦ simp (dry, move_target) (kept refl fresh (inr refl))
      | inr real ↦ elim (Bool-cases (not k.can_prepare || not k.prepared_is_dir)) [
        | inl bad ↦ simp (real, bad, move_target) (refused k w _)
        | inr prepared ↦ elim (Option-cases copy.1) [
          | inr (e, bad) ↦
              simp (real, prepared, bad, move_target) (kept did.takes_nothing refl did.never_over)
          | inl good ↦
              let (full, free) = did.filled good in
              simp (real, prepared, good, move_target)
                (finish-IsKept k target r w copy.0 opened did.takes_nothing full free)
        ]
      ]
    ]

run_parsed-IsKept :
    (k : Looks) (name : String → String) (configured : String) (p : QuarantineFilePayload)
    (w : Places)
    → IsKept k w (run_parsed k name configured p w)
unfolding run_parsed
run_parsed-IsKept k name configured p w = elim (Outcome-cases (validate_quarantine_path p.path)) [
  | inl (e, bad) ↦ simp (bad, run_parsed) (refused k w e)
  | inr (u, fine) ↦ elim (Outcome-cases (open_quarantine_target k)) [
    | inl (e, bad) ↦ simp (fine, bad, run_parsed) (refused k w _)
    | inr (target, opened) ↦ elim (Outcome-cases (quarantine_dir configured)) [
      | inl (e, bad) ↦ simp (fine, opened, bad, run_parsed) (refused k w e)
      | inr (dir, placed) ↦ elim (Outcome-cases (hashed k p)) [
        | inl (e, bad) ↦ simp (fine, opened, placed, bad, run_parsed) (refused k w e)
        | inr (sum, summed) ↦
            simp (fine, opened, placed, summed, run_parsed)
              (move_target-IsKept k target (report p (name dir) target sum) w opened refl)
      ]
    ]
  ]
]

-- Whatever the system answers and other processes do with the path and the opened file in the
-- meantime, and where no other process writes to the destination: quarantine_file takes nothing off
-- the path and does not say that it did; or the last look at the path before the removal found the
-- file that it opened, the destination, which was free, holds all the bytes that the copy read from
-- that file and has no permission, and what it takes is what stands at the path when os.Remove runs.
-- An entry that stood at the destination before stays as it was.
pub run_quarantine_file-IsKept :
    (decode : String → Outcome QuarantineRequest) (k : Looks) (name : String → String)
    (configured raw : String) (w : Places)
    → IsKept k w (run_quarantine_file decode k name configured raw w)
unfolding run_quarantine_file
run_quarantine_file-IsKept decode k name configured raw w =
    elim (Outcome-cases (parse_quarantine_file_payload decode raw)) [
      | inl (e, bad) ↦ simp (bad, run_quarantine_file) (refused k w e)
      | inr (p, parsed) ↦
          simp (parsed, run_quarantine_file) (run_parsed-IsKept k name configured p w)
    ]
