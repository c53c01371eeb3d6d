-- ===== src/Renewal/Persist.antt =====
-- certrenew.go: `PersistPair`, once the paths are known to be given and different.
use seagull_agent.Prelude.{ℕ, String, Bool, true, false, Option, none, some, if◌then◌else◌}
use seagull_agent.Renewal.Issued.{Certificate, validate_issued_pair}
use seagull_agent.Renewal.Recover.{sync, cleanup_pair_artifacts, loads, recover_pair}
use seagull_agent.Renewal.Steps.{
  Files, Fate, State, Answer, good, bad, op, and_then, on_error, and_also,
}

abbrev pub is_pair : Option Certificate → Bool
is_pair none = false
is_pair (some c) = true

-- tls.X509KeyPair
abbrev pub accepts_of : (String → String → Option Certificate) → String → String → Bool
accepts_of pair c k = is_pair (pair c k)

abbrev pub move_key : Files → Files
move_key f = record f { key_previous = f.key; key = none }

abbrev pub move_cert : Files → Files
move_cert f = record f { cert_previous = f.cert; cert = none }

-- A rename: without its source it is left out, or is an error.
abbrev pub rename_if : Option String → State × Answer → State × Answer → State × Answer
rename_if none absent done = absent
rename_if (some m) absent done = done

module _ (fates : ℕ → Fate) where
  -- `replaceBackup` of the key and of the certificate.
  unfoldable pub backup_key : State → State × Answer
  backup_key s =
      and_then (op fates (λ f. record f { key_previous = none }) s)
        λ s. rename_if s.files.key (s, good) (and_then (op fates move_key s) (op fates sync))

  unfoldable pub backup_cert : State → State × Answer
  backup_cert s =
      and_then (op fates (λ f. record f { cert_previous = none }) s)
        λ s. rename_if s.files.cert (s, good) (and_then (op fates move_cert s) (op fates sync))

  unfoldable pub commit_key : State → State × Answer
  commit_key s =
      rename_if s.files.key_next (s, bad)
        (and_then (op fates (λ f. record f { key = f.key_next; key_next = none }) s)
          (op fates sync))

  unfoldable pub commit_cert : State → State × Answer
  commit_cert s =
      rename_if s.files.cert_next (s, bad)
        (and_then (op fates (λ f. record f { cert = f.cert_next; cert_next = none }) s)
          (op fates sync))

module _ (pair : String → String → Option Certificate) (one_dir : Bool) (fates : ℕ → Fate) where
  abbrev pub check_loaded : State → State × Answer
  check_loaded s = if loads (accepts_of pair) s.files.cert s.files.key then (s, good) else (s, bad)

  -- The closure `commit`.
  unfoldable pub commit : State → State × Answer
  commit s = and_then (backup_key fates s) λ s.
      and_then (backup_cert fates s)
        λ s. and_then (commit_key fates s) λ s. and_then (commit_cert fates s) check_loaded

  -- `.next` of both, and the mark of the transaction, which holds the time.
  unfoldable pub stage : String → String → String → State → State × Answer
  stage cert key mark s = and_then (op fates (λ f. record f { key_next = some key }) s) λ s.
      and_then
        (on_error (op fates (λ f. record f { cert_next = some cert }) s)
          (op fates (λ f. record f { key_next = none })))
        λ s. on_error (op fates (λ f. record f { transaction = some mark }) s) λ s.
          and_also (op fates (λ f. record f { key_next = none }) s)
            (op fates (λ f. record f { cert_next = none }))

  -- `now` is the time of the clock.
  unfoldable pub persist_pair : String → String → String → ℕ → String → State → State × Answer
  persist_pair cert key agent now mark s =
      let staged =
        and_then (recover_pair (accepts_of pair) one_dir fates s) (stage cert key mark) in
      let committed =
        and_then staged λ s. on_error (commit s) (recover_pair (accepts_of pair) one_dir fates) in
      elim (validate_issued_pair pair cert key agent now now) [
        | some e ↦ (s, bad)
        | none ↦ and_then committed (cleanup_pair_artifacts fates one_dir)
      ]
