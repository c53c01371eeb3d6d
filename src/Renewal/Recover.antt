-- ===== src/Renewal/Recover.antt =====
-- certrenew.go: `cleanupPairArtifacts`, `recoverPair` and `replaceBackup`.
use seagull_agent.Prelude.{
  ℕ, String, str_eq, Bool, false, not, ◌&&◌, Option, none, some, List, [], ◌∷◌, if◌then◌else◌,
}
use seagull_agent.Renewal.Steps.{Files, Fate, State, Answer, good, bad, op, and_then, and_also}

abbrev pub sync : Files → Files
sync f = f

module _ (fates : ℕ → Fate) where
  -- The removal of the companions, and the sync of their directories, which are one or two.
  unfoldable pub cleanup_pair_artifacts : Bool → State → State × Answer
  cleanup_pair_artifacts one_dir s = and_also (op fates (λ f. record f { cert_next = none }) s) λ s.
      and_also (op fates (λ f. record f { key_next = none }) s) λ s.
        and_also (op fates (λ f. record f { cert_previous = none }) s) λ s.
          and_also (op fates (λ f. record f { key_previous = none }) s) λ s.
            and_also (op fates (λ f. record f { transaction = none }) s)
              λ s. and_also (op fates sync s) λ s. if one_dir then (s, good) else op fates sync s

abbrev pub present : Option String → Bool
present none = false
present (some m) = not (str_eq m "")

-- tls.LoadX509KeyPair
abbrev pub loads : (String → String → Bool) → Option String → Option String → Bool
loads accepts none k = false
loads accepts (some c) none = false
loads accepts (some c) (some k) = accepts c k

abbrev pub candidates : Files → List (Option String × Option String)
candidates f =
    (f.cert, f.key_previous)
    ∷ (f.cert_previous, f.key_previous)
    ∷ (f.cert_next, f.key)
    ∷ (f.cert_next, f.key_next)
    ∷ (f.cert_previous, f.key)
    ∷ []

-- The first candidate that is there and is a pair.
unfoldable pub choose :
    (String → String → Bool)
    → List (Option String × Option String)
    → Option (Option String × Option String)
choose accepts [] = none
choose accepts ((c, k) ∷ l) =
    if present c && present k && loads accepts c k then some (c, k) else choose accepts l

unfoldable pub nothing_there : Files → Bool
nothing_there f =
    not (present f.cert)
    && not (present f.key)
    && not (present f.cert_next)
    && not (present f.key_next)
    && not (present f.cert_previous)
    && not (present f.key_previous)

module _ (accepts : String → String → Bool) (one_dir : Bool) (fates : ℕ → Fate) where
  unfoldable pub restore : Option String → Option String → State → State × Answer
  restore c k s = and_then (op fates (λ f. record f { key = k }) s) λ s.
      and_then (op fates (λ f. record f { cert = c }) s) λ s. cleanup_pair_artifacts fates one_dir s

  unfoldable pub recover_pair : State → State × Answer
  recover_pair s =
      if loads accepts s.files.cert s.files.key
      then cleanup_pair_artifacts fates one_dir s
      else elim (choose accepts (candidates s.files)) [
        | some (c, k) ↦ restore c k s
        | none ↦ if nothing_there s.files then (s, good) else (s, bad)
      ]
