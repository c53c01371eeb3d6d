-- ===== src/Renewal/Commit.antt =====
-- certrenew.go: the staging and the commit of a new pair, while the old one stands in its place or
-- in the backup.
use seagull_agent.Prelude.{ℕ, String, ◌≡◌, refl, Bool, true, Option, some}
use seagull_agent.Renewal.Issued.{Certificate}
use seagull_agent.Renewal.Steps.{Files, Fate, State, Answer}
use seagull_agent.Renewal.Recover.{loads}
use seagull_agent.Renewal.Persist.{
  accepts_of, rename_if, backup_key, backup_cert, commit_key, commit_cert, check_loaded, commit,
  stage,
}
use seagull_agent.Renewal.Ends.{Ends, ends_good, ends_op, ends_then, ends_also, ends_on_error}
use seagull_agent.Renewal.Crash.{
  IsUsable, Holding, KeyAway, BothAway, IsSafe, whole, key_away, both_away,
}

abbrev pub Staged : String → String → Files → Type 0
Staged cert key f = (f.cert_next ≡ some cert) × (f.key_next ≡ some key)

-- The new key is in its place, and its certificate is not.
abbrev KeyIn : String → String → String → String → Files → Type 0
KeyIn c k cert key f = (BothAway c k f) × (f.cert_next ≡ some cert) × (f.key ≡ some key)

module _ (pair : String → String → Option Certificate) (fates : ℕ → Fate)
    (Fine : String → String → Type 0)
    (usable : (c k : String) → Fine c k → IsUsable (accepts_of pair) c k) where
  rename_if-Ends :
      {P Q : Files → Type 0} {m : String} (o : Option String) (absent done : State × Answer)
      → o ≡ some m
      → Ends fates P Q done
      → Ends fates P Q (rename_if o absent done)
  rename_if-Ends o absent done h e = rw h e

  backup_key-Ends :
      (c k cert key : String) (s : State)
      → Fine c k
      → (Holding c k s.files) × (Staged cert key s.files)
      → Ends fates (IsSafe Fine) (λ f. (KeyAway c k f) × (Staged cert key f)) (backup_key fates s)
  unfolding backup_key
  backup_key-Ends c k cert key s h r =
      ends_then {Q = λ f. (Holding c k f) × (Staged cert key f)} _ _
        (ends_op _ s (whole c k h r.0) (whole c k h r.0) r)
        λ s r. rename_if-Ends _ _ _ r.0.1 (
          ends_then {Q = λ f. (KeyAway c k f) × (Staged cert key f)} _ _
            (ends_op _ s (whole c k h r.0) (key_away c k h (r.0.0, refl, r.0.1))
              ((r.0.0, refl, r.0.1), r.1))
            λ s r. ends_op _ s (key_away c k h r.0) (key_away c k h r.0) r)

  backup_cert-Ends :
      (c k cert key : String) (s : State)
      → Fine c k
      → (KeyAway c k s.files) × (Staged cert key s.files)
      → Ends fates (IsSafe Fine) (λ f. (BothAway c k f) × (Staged cert key f)) (backup_cert fates s)
  unfolding backup_cert
  backup_cert-Ends c k cert key s h r =
      ends_then {Q = λ f. (KeyAway c k f) × (Staged cert key f)} _ _
        (ends_op _ s (key_away c k h r.0) (key_away c k h r.0) r)
        λ s r. rename_if-Ends _ _ _ r.0.0 (
          ends_then {Q = λ f. (BothAway c k f) × (Staged cert key f)} _ _
            (ends_op _ s (key_away c k h r.0) (both_away c k h (refl, r.0.0, r.0.2))
              ((refl, r.0.0, r.0.2), r.1))
            λ s r. ends_op _ s (both_away c k h r.0) (both_away c k h r.0) r)

  commit_key-Ends :
      (c k cert key : String) (s : State)
      → Fine c k
      → (BothAway c k s.files) × (Staged cert key s.files)
      → Ends fates (IsSafe Fine) (KeyIn c k cert key) (commit_key fates s)
  unfolding commit_key
  commit_key-Ends c k cert key s h r = rename_if-Ends _ _ _ r.1.1 (
      ends_then {Q = KeyIn c k cert key} _ _
        (ends_op _ s (both_away c k h r.0) (both_away c k h r.0) (r.0, r.1.0, r.1.1))
        λ s r. ends_op _ s (both_away c k h r.0) (both_away c k h r.0) r)

  commit_cert-Ends :
      (c k cert key : String) (s : State)
      → Fine c k
      → Fine cert key
      → KeyIn c k cert key s.files
      → Ends fates (IsSafe Fine) (Holding cert key) (commit_cert fates s)
  unfolding commit_cert
  commit_cert-Ends c k cert key s h fine r = rename_if-Ends _ _ _ r.1 (
      ends_then {Q = Holding cert key} _ _
        (ends_op _ s (both_away c k h r.0) (whole cert key fine (r.1, r.2)) (r.1, r.2))
        λ s r. ends_op _ s (whole cert key fine r) (whole cert key fine r) r)

  check_loaded-Ends :
      (one_dir : Bool) (cert key : String) (s : State)
      → Fine cert key
      → Holding cert key s.files
      → Ends fates (IsSafe Fine) (Holding cert key) (check_loaded pair one_dir fates s)
  check_loaded-Ends one_dir cert key s fine r =
      let loaded : loads (accepts_of pair) s.files.cert s.files.key ≡ true =
        rw (r.0, r.1) (usable cert key fine).accepted in
      rw loaded (ends_good s (whole cert key fine r) r)

  pub commit-Holding :
      (one_dir : Bool) (c k cert key : String) (s : State)
      → Fine c k
      → Fine cert key
      → (Holding c k s.files) × (Staged cert key s.files)
      → Ends fates (IsSafe Fine) (Holding cert key) (commit pair one_dir fates s)
  unfolding commit
  commit-Holding one_dir c k cert key s h fine r =
      ends_then _ _ (backup_key-Ends c k cert key s h r) λ s r.
        ends_then _ _ (backup_cert-Ends c k cert key s h r) λ s r.
          ends_then _ _ (commit_key-Ends c k cert key s h r) λ s r.
            ends_then _ _ (commit_cert-Ends c k cert key s h fine r)
              λ s r. check_loaded-Ends one_dir cert key s fine r

  pub stage-Staged :
      (one_dir : Bool) (c k cert key mark : String) (s : State)
      → Holding c k s.files
      → Ends fates
          (Holding c k)
          (λ f. (Holding c k f) × (Staged cert key f))
          (stage pair one_dir fates cert key mark s)
  unfolding stage
  stage-Staged one_dir c k cert key mark s r =
      ends_then {Q = λ f. (Holding c k f) × (f.key_next ≡ some key)} _ _ (ends_op _ s r r (r, refl))
        λ s r.
          ends_then {Q = λ f. (Holding c k f) × (Staged cert key f)} _ _
            (ends_on_error _ _ (ends_op _ s r.0 r.0 (r.0, (refl, r.1)))
              (λ s r. ends_op {Q = Holding c k} _ s r r r))
            λ s r. ends_on_error _ _ (ends_op _ s r.0 r.0 r) (λ s r.
              ends_also {R = Holding c k} _ _ (ends_op _ s r r r) (λ s r. ends_op _ s r r r))
