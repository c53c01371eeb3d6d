-- ===== src/Renewal/Ends.antt =====
-- certrenew.go: what the files hold when a chain of steps has ended, whatever each step came to.
use seagull_agent.Prelude.{ℕ, ◌≡◌, ◌≢◌, refl}
use seagull_agent.Renewal.Steps.{
  Files, Fate, works, fails, unsynced, crashes, State, Answer, good, bad, stopped, after, op,
  and_then, with_error, on_error, and_also,
}

abbrev pub AllWork : (ℕ → Fate) → Type 0
AllWork fates = (n : ℕ) → fates n ≡ works

-- P however the chain ends, also stopped, and Q where it ends well, as it does if all steps work.
pub record Ends (fates : ℕ → Fate) (P Q : Files → Type 0) (r : State × Answer) : Type 0 where
  pub always : P r.0.files
  pub when_good : r.1 ≡ good → Q r.0.files
  pub surely : AllWork fates → r.1 ≡ good

-- The same, without a promise that it ends well.
record Halts (P Q : Files → Type 0) (r : State × Answer) : Type 0 where
  halted : P r.0.files
  fine : r.1 ≡ good → Q r.0.files

not_good : {P Q : Files → Type 0} {a : Answer} (s : State) → P s.files → a ≢ good → Halts P Q (s, a)
not_good s p n = record { halted = p; fine = λ e. absurd (n e) }

module _ {fates : ℕ → Fate} where
  pub ends_good :
      {P Q : Files → Type 0} (s : State) → P s.files → Q s.files → Ends fates P Q (s, good)
  ends_good s p q = record { always = p; when_good = λ e. q; surely = λ all. refl }

  broken :
      {P Q : Files → Type 0} {a : Answer} (s : State)
      → P s.files
      → a ≢ good
      → (AllWork fates → a ≡ good)
      → Ends fates P Q (s, a)
  broken s p n sure = record { always = p; when_good = λ g. absurd (n g); surely = sure }

  pub ends_weaken :
      {P Q R S : Files → Type 0} {r : State × Answer}
      → ((f : Files) → P f → R f)
      → ((f : Files) → Q f → S f)
      → Ends fates P Q r
      → Ends fates R S r
  ends_weaken {r = r} p q e = record {
    always = p r.0.files e.always;
    when_good = λ g. q r.0.files (e.when_good g);
    surely = e.surely;
  }

  pub ends_op :
      {P Q : Files → Type 0} (f : Files → Files) (s : State)
      → P s.files
      → P (f s.files)
      → Q (f s.files)
      → Ends fates P Q (op fates f s)
  unfolding op
  ends_op {P} {Q} f s p p' q =
      let halts = each (fates s.clock) in
      record {
        always = halts.halted;
        when_good = halts.fine;
        surely = λ all. rw (all s.clock) refl;
      }
    where
      each : (fate : Fate) → Halts P Q (after fate f s)
      each works = record { halted = p'; fine = λ e. q }
      each fails = not_good _ p (λ e. cc e)
      each unsynced = not_good _ p' (λ e. cc e)
      each crashes = not_good _ p (λ e. cc e)

  pub ends_then :
      {P Q R : Files → Type 0} (r : State × Answer) (k : State → State × Answer)
      → Ends fates P Q r
      → ((s : State) → Q s.files → Ends fates P R (k s))
      → Ends fates P R (and_then r k)
  unfolding and_then
  ends_then (s, good) k e next = next s (e.when_good refl)
  ends_then (s, bad) k e next = broken s e.always (λ g. cc g) e.surely
  ends_then (s, stopped) k e next = broken s e.always (λ g. cc g) e.surely

  failed :
      {P Q R : Files → Type 0} {a : Answer} (r : State × Answer)
      → (AllWork fates → a ≡ good)
      → a ≢ good
      → Ends fates P Q r
      → Ends fates P R (with_error r)
  failed (t, good) sure n e = broken t e.always (λ g. cc g) (λ all. absurd (n (sure all)))
  failed (t, bad) sure n e = broken t e.always (λ g. cc g) (λ all. absurd (n (sure all)))
  failed (t, stopped) sure n e = broken t e.always (λ g. cc g) (λ all. absurd (n (sure all)))

  pub ends_on_error :
      {P Q R : Files → Type 0} (r : State × Answer) (k : State → State × Answer)
      → Ends fates P Q r
      → ((s : State) → P s.files → Ends fates P R (k s))
      → Ends fates P Q (on_error r k)
  unfolding on_error
  ends_on_error (s, good) k e next = e
  ends_on_error (s, bad) k e next = failed (k s) e.surely (λ g. cc g) (next s e.always)
  ends_on_error (s, stopped) k e next = broken s e.always (λ g. cc g) e.surely

  pub ends_also :
      {P R : Files → Type 0} (r : State × Answer) (k : State → State × Answer)
      → Ends fates P P r
      → ((s : State) → P s.files → Ends fates P R (k s))
      → Ends fates P R (and_also r k)
  unfolding and_also
  ends_also (s, good) k e next = next s e.always
  ends_also (s, bad) k e next = failed (k s) e.surely (λ g. cc g) (next s e.always)
  ends_also (s, stopped) k e next = broken s e.always (λ g. cc g) e.surely
