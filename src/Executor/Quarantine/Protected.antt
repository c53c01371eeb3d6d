-- ===== src/Executor/Quarantine/Protected.antt =====
-- executor.go: the paths that quarantine_file refuses.
use seagull_agent.Prelude.{
  String, is_abs, ◌≡◌, ◌≢◌, refl, inl, inr, true, false, none, List, [], ◌∷◌, All, Bool-cases,
  Option-cases,
}
use seagull_agent.Executor.Outcome.{Outcome, ok, Outcome-cases}
use seagull_agent.Executor.Quarantine.{
  QuarantineFilePayload, validate_quarantine_path, forbidden_prefix, lies_below,
  quarantine_forbidden_prefixes,
}
use seagull_agent.Executor.Quarantine.Kept.{}
use seagull_agent.Executor.Quarantine.Move.{Places, Looks, QuarantineReport, run_parsed}

-- An absolute path that lies below none of the protected locations.
pub record IsFree (path : String) : Type 0 where
  pub absolute : is_abs path ≡ true
  pub outside : All (λ prefix. lies_below path prefix ≡ false) quarantine_forbidden_prefixes

forbidden_prefix-eq-none :
    (path : String) (l : List String)
    → forbidden_prefix path l ≡ none
    → All (λ prefix. lies_below path prefix ≡ false) l
unfolding forbidden_prefix
forbidden_prefix-eq-none path [] h = tt
forbidden_prefix-eq-none path (prefix ∷ l) h = elim (Bool-cases (lies_below path prefix)) [
  | inl below ↦ absurd (cc (rw (forbidden_prefix, below) at h))
  | inr beside ↦ (beside, forbidden_prefix-eq-none path l (rw (forbidden_prefix, beside) at h))
]

validate_quarantine_path-IsFree :
    (path : String) → validate_quarantine_path path ≡ ok tt → IsFree path
unfolding validate_quarantine_path
validate_quarantine_path-IsFree path h = elim (Bool-cases (is_abs path)) [
  | inr relative ↦ absurd (cc (rw (validate_quarantine_path, relative) at h))
  | inl rooted ↦ elim (Option-cases (forbidden_prefix path quarantine_forbidden_prefixes)) [
    | inr (prefix, below) ↦ absurd (cc (rw (validate_quarantine_path, rooted, below) at h))
    | inl beside ↦ record {
      absolute = rooted;
      outside = forbidden_prefix-eq-none path quarantine_forbidden_prefixes beside;
    }
  ]
]

-- What a run changes it changes for a path that is free, and so does what it reports.
pub record IsConfined (p : QuarantineFilePayload) (w : Places)
    (r : Places × Outcome QuarantineReport) : Type 0 where
  pub changed : (r.0 ≢ w) → IsFree p.path
  pub reported : (q : QuarantineReport) → r.1 ≡ ok q → IsFree p.path

-- quarantine_file touches the path and the destination, and reports a file, only where the cleaned
-- path is absolute and is neither one of the twelve protected locations nor below one.
pub run_parsed-IsConfined :
    (k : Looks) (name : String → String) (configured : String) (p : QuarantineFilePayload)
    (w : Places)
    → IsConfined p w (run_parsed k name configured p w)
unfolding run_parsed
run_parsed-IsConfined k name configured p w =
    elim (Outcome-cases (validate_quarantine_path p.path)) [
      | inl (e, bad) ↦
          simp (bad, run_parsed)
            (record { changed = λ h. absurd (h refl); reported = λ q h. absurd (cc h) })
      | inr (tt, fine) ↦
          let free = validate_quarantine_path-IsFree p.path fine in
          record { changed = λ h. free; reported = λ q h. free }
    ]
