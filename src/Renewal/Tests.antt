-- ===== src/Renewal/Tests.antt =====
-- Runs of the renewal at concrete inputs.
use seagull_agent.Prelude.{
  ℕ, zero, suc, ◌+◌, pos, is_blank, trim_space, String, str_eq, ◌≡◌, refl, ◌⊎◌, Bool, true, false,
  ◌&&◌, Option, none, some, [], ◌∷◌, if◌then◌else◌,
}
use seagull_agent.Renewal.Atomic.{
  RefusesEmpty, restarts, persist_pair-IsAtomic, persist_pair-installs,
}
use seagull_agent.Renewal.Crash.{Holding}
use seagull_agent.Renewal.Ends.{AllWork}
use seagull_agent.Renewal.First.{no_files, first_crash-sticks}
use seagull_agent.Renewal.Issued.{
  client_auth, Certificate, validate_issued_pair, needs_renewal, allows_client_auth,
}
use seagull_agent.Renewal.Persist.{
  accepts_of, persist_pair, stage, commit, backup_key, backup_cert, commit_key, commit_cert,
}
use seagull_agent.Renewal.Recover.{recover_pair, cleanup_pair_artifacts}
use seagull_agent.Renewal.Steps.{
  Fate, works, crashes, State, good, bad, op, and_then, and_also, on_error,
}
use seagull_agent.Renewal.Validity.{needs_renewal-stays_valid}

abbrev certificate : Certificate
certificate = record {
  common_name = "a1";
  is_ca = false;
  not_before = 5;
  not_after = 9000000000000000;
  usages = client_auth ∷ [];
}

-- The certificate c1 belongs to the key k1, and c2 to k2.
unfoldable pair : String → String → Option Certificate
pair c k =
    if (str_eq c "c1" && str_eq k "k1")
    then some certificate
    else if (str_eq c "c2" && str_eq k "k2")
    then some certificate
    else none

never :
    (a b : Bool)
    → (if a && false then some certificate else if b && false then some certificate else none)
      ≡ none
never true true = refl
never true false = refl
never false true = refl
never false false = refl

pair-RefusesEmpty : RefusesEmpty pair
unfolding pair
pair-RefusesEmpty text = (refl, never (str_eq text "c1") (str_eq text "c2"))

abbrev installed : State
installed = record { files = record no_files { cert = some "c1"; key = some "k1" }; clock = 0 }

-- The step with that number is cut.
unfoldable cut_at : ℕ → ℕ → Fate
cut_at zero zero = crashes
cut_at zero (suc n) = works
cut_at (suc m) zero = works
cut_at (suc m) (suc n) = cut_at m n

persist_pair-IsAtomic_example :
    let crashed = (persist_pair pair true (cut_at 15) "c2" "k2" "a1" 10 "t" installed).0 in
    let r =
      recover_pair
        (accepts_of pair)
        true
        (λ n. works)
        (restarts pair true (cut_at 18 ∷ []) crashed) in
    (r.1 ≡ good) × ((Holding "c1" "k1" r.0.files) ⊎ (Holding "c2" "k2" r.0.files))
unfolding pair
persist_pair-IsAtomic_example =
    persist_pair-IsAtomic pair true (cut_at 15) (cut_at 18 ∷ []) "c1" "k1" "c2" "k2" "a1" 10 "t"
      installed pair-RefusesEmpty refl (refl, refl)

persist_pair-installs_example :
    let r = persist_pair pair true (λ n. works) "c2" "k2" "a1" 10 "t" installed in
    (r.1 ≡ good → Holding "c2" "k2" r.0.files) × (AllWork (λ n. works) → r.1 ≡ good)
unfolding pair validate_issued_pair allows_client_auth is_blank trim_space
persist_pair-installs_example =
    persist_pair-installs pair true (λ n. works) "c1" "k1" "c2" "k2" "a1" 10 "t" installed
      pair-RefusesEmpty refl (refl, refl) refl

-- A run without a crash leaves the new pair and no companions.
installs :
    (persist_pair pair true (λ n. works) "c2" "k2" "a1" 10 "t" installed).0.files
    ≡ record no_files { cert = some "c2"; key = some "k2" }
unfolding persist_pair recover_pair cleanup_pair_artifacts stage commit backup_key backup_cert
    commit_key commit_cert pair validate_issued_pair allows_client_auth is_blank trim_space op
    and_then and_also on_error
installs = refl

first_crash-sticks_example :
    let s =
      (persist_pair pair true
        (cut_at 1)
        "c2"
        "k2"
        "a1"
        10
        "t"
        (record { files = no_files; clock = 0 })).0 in
    (recover_pair (accepts_of pair) true (λ n. works) s ≡ (s, bad))
    × (persist_pair pair true (λ n. works) "c1" "k1" "a1" 20 "u" s ≡ (s, bad))
unfolding pair validate_issued_pair allows_client_auth is_blank trim_space cut_at
first_crash-sticks_example =
    first_crash-sticks pair true (cut_at 1) (λ n. works) "c2" "k2" "a1" 10 "t" "c1" "k1" "a1" 20 "u"
      refl refl refl refl

needs_renewal-stays_valid_example : validate_issued_pair pair "c1" "k1" "a1" (10 + 1000) 30 ≡ none
unfolding pair validate_issued_pair allows_client_auth is_blank trim_space needs_renewal
needs_renewal-stays_valid_example =
    needs_renewal-stays_valid pair "c1" "k1" "a1" 10 20 1000 30 (pos 0) certificate refl refl refl
      refl refl
