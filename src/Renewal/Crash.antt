-- ===== src/Renewal/Crash.antt =====
-- certrenew.go: what a crash or an error in the middle leaves of the pair.
use seagull_agent.Prelude.{
  ℕ, String, str_eq, ◌≡◌, refl, Bool, true, false, none, some, if◌then◌else◌,
}
use seagull_agent.Renewal.Steps.{Files, Fate, State, good, op}
use seagull_agent.Renewal.Recover.{
  sync, cleanup_pair_artifacts, loads, choose, restore, recover_pair,
}
use seagull_agent.Renewal.Ends.{Ends, ends_good, ends_weaken, ends_op, ends_then, ends_also}

pub record IsUsable (accepts : String → String → Bool) (c k : String) : Type 0 where
  pub some_cert : str_eq c "" ≡ false
  pub some_key : str_eq k "" ≡ false
  pub accepted : accepts c k ≡ true

abbrev pub Holding : String → String → Files → Type 0
Holding c k f = (f.cert ≡ some c) × (f.key ≡ some k)

abbrev pub KeyAway : String → String → Files → Type 0
KeyAway c k f = (f.cert ≡ some c) × (f.key ≡ none) × (f.key_previous ≡ some k)

abbrev pub BothAway : String → String → Files → Type 0
BothAway c k f = (f.cert ≡ none) × (f.cert_previous ≡ some c) × (f.key_previous ≡ some k)

-- The pair stands in its place, or its key, or both, stand in the backup.
pub data IsSafe (Fine : String → String → Type 0) (f : Files) : Type 0 where
  whole : (c k : String) → Fine c k → Holding c k f → IsSafe Fine f
  key_away : (c k : String) → Fine c k → KeyAway c k f → IsSafe Fine f
  both_away : (c k : String) → Fine c k → BothAway c k f → IsSafe Fine f

abbrev pub Whole : (String → String → Type 0) → Files → Type 0
Whole Fine f = (c : String) × (k : String) × (Fine c k) × (Holding c k f)

module _ (accepts : String → String → Bool) (one_dir : Bool) (fates : ℕ → Fate) where
  pub cleanup_pair_artifacts-Holding :
      (c k : String) (s : State)
      → Holding c k s.files
      → Ends fates (Holding c k) (Holding c k) (cleanup_pair_artifacts fates one_dir s)
  unfolding cleanup_pair_artifacts
  cleanup_pair_artifacts-Holding c k s h = ends_also _ _ (ends_op _ s h h h) λ s h.
      ends_also _ _ (ends_op _ s h h h) λ s h. ends_also _ _ (ends_op _ s h h h) λ s h.
        ends_also _ _ (ends_op _ s h h h) λ s h.
          ends_also _ _ (ends_op _ s h h h)
            λ s h. ends_also _ _ (ends_op _ s h h h) λ s h. last one_dir s h
    where
      last :
          (b : Bool) (s : State)
          → Holding c k s.files
          → Ends fates (Holding c k) (Holding c k) (if b then (s, good) else op fates sync s)
      last true s h = ends_good s h h
      last false s h = ends_op _ s h h h

  module _ (Fine : String → String → Type 0)
      (usable : (c k : String) → Fine c k → IsUsable accepts c k) where
    restore-Whole :
        (c k : String) (s : State)
        → Fine c k
        → IsSafe Fine s.files
        → IsSafe Fine (record s.files { key = some k })
        → Ends fates (IsSafe Fine) (Holding c k) (restore accepts one_dir fates (some c) (some k) s)
    unfolding restore
    restore-Whole c k s h safe then_safe =
        ends_then {Q = λ f. (IsSafe Fine f) × (f.key ≡ some k)} _ _
          (ends_op _ s safe then_safe (then_safe, refl))
          λ s r. ends_then _ _ (ends_op _ s r.0 (whole c k h (refl, r.1)) (refl, r.1)) λ s held.
            ends_weaken (λ f p. whole c k h p) (λ f q. q)
              (cleanup_pair_artifacts-Holding c k s held)

    cert_first :
        (c k : String) (s : State)
        → Fine c k
        → KeyAway c k s.files
        → Ends fates (IsSafe Fine) (Whole Fine) (recover_pair accepts one_dir fates s)
    unfolding recover_pair choose
    cert_first c k s h away =
        let u = usable c k h in
        simp (away.0, away.1, away.2, u.some_cert, u.some_key, u.accepted, recover_pair, choose)
          (ends_weaken (λ f p. p) (λ f p. (c, k, h, p))
            (restore-Whole c k s h (key_away c k h away) (whole c k h (away.0, refl))))

    backup_first :
        (c k : String) (s : State)
        → Fine c k
        → BothAway c k s.files
        → Ends fates (IsSafe Fine) (Whole Fine) (recover_pair accepts one_dir fates s)
    unfolding recover_pair choose
    backup_first c k s h away =
        let u = usable c k h in
        simp (away.0, away.1, away.2, u.some_cert, u.some_key, u.accepted, recover_pair, choose)
          (ends_weaken (λ f p. p) (λ f p. (c, k, h, p))
            (restore-Whole c k s h (both_away c k h away) (both_away c k h away)))

    pub recover_pair-Whole :
        (s : State)
        → IsSafe Fine s.files
        → Ends fates (IsSafe Fine) (Whole Fine) (recover_pair accepts one_dir fates s)
    unfolding recover_pair
    recover_pair-Whole s (whole c k h held) =
        let loaded : loads accepts s.files.cert s.files.key ≡ true =
          rw (held.0, held.1) (usable c k h).accepted in
        rw (loaded, recover_pair)
          (ends_weaken (λ f p. whole c k h p) (λ f p. (c, k, h, p))
            (cleanup_pair_artifacts-Holding c k s held))
    recover_pair-Whole s (key_away c k h away) = cert_first c k s h away
    recover_pair-Whole s (both_away c k h away) = backup_first c k s h away
