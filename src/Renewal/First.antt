-- ===== src/Renewal/First.antt =====
-- certrenew.go: a crash in the first `PersistPair`, when no pair is there yet.
use seagull_agent.Prelude.{
  ℕ, zero, suc, String, str_eq, ◌≡◌, refl, Bool, false, Option, none, some, inl, inr, Option-cases,
}
use seagull_agent.Renewal.Issued.{Certificate, validate_issued_pair}
use seagull_agent.Renewal.Steps.{
  Files, Fate, works, crashes, State, Answer, good, bad, stopped, op, and_then, on_error,
}
use seagull_agent.Renewal.Recover.{recover_pair, choose, nothing_there}
use seagull_agent.Renewal.Persist.{accepts_of, persist_pair, stage}

abbrev pub no_files : Files
no_files = record {
  cert = none;
  key = none;
  cert_next = none;
  key_next = none;
  cert_previous = none;
  key_previous = none;
  transaction = none;
}

abbrev pub key_staged : String → State
key_staged key = record { files = record no_files { key_next = some key }; clock = suc (suc zero) }

recover_pair-stuck :
    (accepts : String → String → Bool) (one_dir : Bool) (fates : ℕ → Fate) (key : String)
    → str_eq key "" ≡ false
    → recover_pair accepts one_dir fates (key_staged key) ≡ (key_staged key, bad)
unfolding recover_pair choose nothing_there
recover_pair-stuck accepts one_dir fates key h = rw (recover_pair, choose, nothing_there, h) refl

nothing_to_recover :
    (accepts : String → String → Bool) (one_dir : Bool) (fates : ℕ → Fate)
    → recover_pair accepts one_dir fates (record { files = no_files; clock = 0 })
      ≡ (record { files = no_files; clock = 0 }, good)
unfolding recover_pair choose nothing_there
nothing_to_recover accepts one_dir fates = refl

op-works :
    (fates : ℕ → Fate) (f : Files → Files) (s : State)
    → fates s.clock ≡ works
    → op fates f s ≡ (record { files = f s.files; clock = suc s.clock }, good)
unfolding op
op-works fates f s h = rw h refl

crash_kept :
    (fates : ℕ → Fate) (f : Files → Files) (k : State → State × Answer) (s : State)
    → fates s.clock ≡ crashes
    → on_error (op fates f s) k ≡ (record s { clock = suc s.clock }, stopped)
unfolding op on_error
crash_kept fates f k s h = rw h refl

then_bad :
    (r : State × Answer) (k : State → State × Answer) (s : State)
    → r ≡ (s, bad)
    → and_then r k ≡ (s, bad)
unfolding and_then
then_bad r k s h = rw h refl

then_stopped :
    (r : State × Answer) (k : State → State × Answer) (s : State)
    → r ≡ (s, stopped)
    → and_then r k ≡ (s, stopped)
unfolding and_then
then_stopped r k s h = rw h refl

then_good :
    (r q : State × Answer) (k : State → State × Answer) (s : State)
    → r ≡ (s, good)
    → k s ≡ q
    → and_then r k ≡ q
unfolding and_then
then_good r q k s h next = rw h next

persist_pair-stuck :
    (pair : String → String → Option Certificate) (one_dir : Bool) (fates : ℕ → Fate)
    (left cert key agent : String) (now : ℕ) (mark : String)
    → str_eq left "" ≡ false
    → persist_pair pair one_dir fates cert key agent now mark (key_staged left)
      ≡ (key_staged left, bad)
unfolding persist_pair
persist_pair-stuck pair one_dir fates left cert key agent now mark h =
    elim (Option-cases (validate_issued_pair pair cert key agent now now)) [
      | inl valid ↦
          rw (valid, persist_pair)
            (then_bad _ _ _ (
              then_bad _ _ _
                (then_bad _ _ _ (recover_pair-stuck (accepts_of pair) one_dir fates left h))))
      | inr (e, refused) ↦ rw (refused, persist_pair) refl
    ]

crash_while_staging :
    (pair : String → String → Option Certificate) (one_dir : Bool) (fates : ℕ → Fate)
    (cert key agent : String) (now : ℕ) (mark : String)
    → validate_issued_pair pair cert key agent now now ≡ none
    → fates 0 ≡ works
    → fates 1 ≡ crashes
    → persist_pair pair one_dir fates cert key agent now mark
        (record { files = no_files; clock = 0 })
      ≡ (key_staged key, stopped)
unfolding persist_pair stage
crash_while_staging pair one_dir fates cert key agent now mark valid first second =
    rw (valid, persist_pair)
      (then_stopped _ _ _ (
        then_stopped _ _ _ (
          then_good _ _ _ (record { files = no_files; clock = 0 }) nothing_recovered
            (then_good _ _ _ (record { files = record no_files { key_next = some key }; clock = 1 })
              key_written (then_stopped _ _ _ cert_cut)))))
  where
    nothing_recovered :
        recover_pair (accepts_of pair) one_dir fates (record { files = no_files; clock = 0 })
        ≡ (record { files = no_files; clock = 0 }, good)
    nothing_recovered = nothing_to_recover (accepts_of pair) one_dir fates

    key_written :
        op fates (λ f. record f { key_next = some key }) (record { files = no_files; clock = 0 })
        ≡ (record { files = record no_files { key_next = some key }; clock = 1 }, good)
    key_written = op-works fates _ _ first

    cert_cut :
        on_error
          (op fates
            (λ f. record f { cert_next = some cert })
            (record { files = record no_files { key_next = some key }; clock = 1 }))
          (op fates (λ f. record f { key_next = none }))
        ≡ (key_staged key, stopped)
    cert_cut = crash_kept fates _ _ _ second

-- Where there is no pair yet and PersistPair, with a pair that ValidateIssuedPair takes and a key
-- that is not empty, is stopped between the staging of the key and that of the certificate,
-- RecoverPair and every later PersistPair fail and change nothing, whatever their steps would come
-- to.
pub first_crash-sticks :
    (pair : String → String → Option Certificate) (one_dir : Bool) (fates later : ℕ → Fate)
    (cert key agent : String) (now : ℕ) (mark : String) (cert' key' agent' : String) (now' : ℕ)
    (mark' : String)
    → validate_issued_pair pair cert key agent now now ≡ none
    → str_eq key "" ≡ false
    → fates 0 ≡ works
    → fates 1 ≡ crashes
    → let s =
        (persist_pair pair one_dir fates cert key agent now mark
          (record { files = no_files; clock = 0 })).0 in
      (recover_pair (accepts_of pair) one_dir later s ≡ (s, bad))
      × (persist_pair pair one_dir later cert' key' agent' now' mark' s ≡ (s, bad))
first_crash-sticks pair one_dir fates later cert key agent now mark cert' key' agent' now' mark'
      valid some_key first second =
    rw (crash_while_staging pair one_dir fates cert key agent now mark valid first second) (
      recover_pair-stuck (accepts_of pair) one_dir later key some_key,
      persist_pair-stuck pair one_dir later key cert' key' agent' now' mark' some_key,
    )
