-- ===== src/Renewal/Atomic.antt =====
-- certrenew.go: `PersistPair` and the recoveries after it, as a whole.
use seagull_agent.Prelude.{
  ℕ, String, str_eq, str_eq_iff, ◌≡◌, ◌≢◌, refl, sym, ◌⊎◌, inl, inr, Bool, true, false, Option,
  none, List, [], ◌∷◌, Bool-cases, Option-cases, is_blank,
}
use seagull_agent.Renewal.Issued.{Certificate, validate_issued_pair}
use seagull_agent.Renewal.Steps.{Files, Fate, works, State, good}
use seagull_agent.Renewal.Recover.{recover_pair}
use seagull_agent.Renewal.Persist.{accepts_of, persist_pair}
use seagull_agent.Renewal.Ends.{AllWork, Ends, ends_weaken, ends_then, ends_on_error}
use seagull_agent.Renewal.Crash.{
  IsUsable, Holding, IsSafe, whole, Whole, cleanup_pair_artifacts-Holding, recover_pair-Whole,
}
use seagull_agent.Renewal.Commit.{Staged, stage-Staged, commit-Holding}

-- crypto/tls refuses a pair with an empty text.
abbrev pub RefusesEmpty : (String → String → Option Certificate) → Type 0
RefusesEmpty pair = (text : String) → (pair "" text ≡ none) × (pair text "" ≡ none)

-- A recovery at every start of the agent, each of which may be interrupted.
unfoldable pub restarts :
    (String → String → Option Certificate) → Bool → List (ℕ → Fate) → State → State
restarts pair one_dir [] s = s
restarts pair one_dir (fates ∷ l) s =
    restarts pair one_dir l (recover_pair (accepts_of pair) one_dir fates s).0

not_empty : (text : String) → text ≢ "" → str_eq text "" ≡ false
not_empty text n = elim (Bool-cases (str_eq text "")) [
  | inl same ↦ absurd (n ((str_eq_iff text "").0 same))
  | inr other ↦ other
]

accepts_of-IsUsable :
    (pair : String → String → Option Certificate) (c k : String)
    → RefusesEmpty pair
    → accepts_of pair c k ≡ true
    → IsUsable (accepts_of pair) c k
accepts_of-IsUsable pair c k refuses h = record {
  some_cert = not_empty c (λ e. absurd (cc (rw (e, (refuses k).0) at h)));
  some_key = not_empty k (λ e. absurd (cc (rw (e, (refuses c).1) at h)));
  accepted = h;
}

issued_pair :
    (pair : String → String → Option Certificate) (cert key agent : String) (now : ℕ)
    → validate_issued_pair pair cert key agent now now ≡ none
    → accepts_of pair cert key ≡ true
unfolding validate_issued_pair
issued_pair pair cert key agent now h = elim (Bool-cases (is_blank agent)) [
  | inl blank ↦ absurd (cc (rw (validate_issued_pair, blank) at h))
  | inr named ↦ elim (Option-cases (pair cert key)) [
    | inl nothing ↦ absurd (cc (rw (validate_issued_pair, named, nothing) at h))
    | inr (c, read) ↦ rw read refl
  ]
]

module _ (pair : String → String → Option Certificate) (refuses : RefusesEmpty pair)
    (c k cert key : String) (old : accepts_of pair c k ≡ true) where
  -- The old pair, or the new one.
  abbrev Fine : String → String → Type 0
  Fine a b = (IsUsable (accepts_of pair) a b) × (((a ≡ c) × (b ≡ k)) ⊎ ((a ≡ cert) × (b ≡ key)))

  old_pair : Fine c k
  old_pair = (accepts_of-IsUsable pair c k refuses old, inl (refl, refl))

  persist_issued :
      (one_dir : Bool) (fates : ℕ → Fate) (agent : String) (now : ℕ) (mark : String) (s : State)
      → validate_issued_pair pair cert key agent now now ≡ none
      → Holding c k s.files
      → Ends fates
          (IsSafe Fine)
          (Holding cert key)
          (persist_pair pair one_dir fates cert key agent now mark s)
  unfolding persist_pair
  persist_issued one_dir fates agent now mark s valid h =
      let fine : Fine cert key = (
        accepts_of-IsUsable pair cert key refuses (issued_pair pair cert key agent now valid),
        inr (refl, refl),
      ) in
      rw (valid, persist_pair)
        (ends_then {Q = Holding cert key} _ _
          (ends_then
            {Q = λ f.
              (a : String) × (b : String) × (Fine a b) × ((Holding a b f) × (Staged cert key f))}
            _ _
            (ends_then {Q = Whole Fine} _ _
              (recover_pair-Whole (accepts_of pair) one_dir fates Fine (λ a b f. f.0) s
                (whole c k old_pair h))
              (λ s (a, b, f, p).
                ends_weaken (λ g q. whole a b f q) (λ g q. (a, b, f, q))
                  (stage-Staged pair fates Fine (λ a b f. f.0) one_dir a b cert key mark s p)))
            (λ s (a, b, f, p).
              ends_on_error {R = Whole Fine} _ _
                (commit-Holding pair fates Fine (λ a b f. f.0) one_dir a b cert key s f fine p)
                (recover_pair-Whole (accepts_of pair) one_dir fates Fine (λ a b f. f.0))))
          (λ s p.
            ends_weaken (λ g q. whole cert key fine q) (λ g q. q)
              (cleanup_pair_artifacts-Holding (accepts_of pair) one_dir fates cert key s p)))

  restarts-IsSafe :
      (one_dir : Bool) (l : List (ℕ → Fate)) (s : State)
      → IsSafe Fine s.files
      → IsSafe Fine (restarts pair one_dir l s).files
  unfolding restarts
  restarts-IsSafe one_dir [] s safe = safe
  restarts-IsSafe one_dir (fates ∷ l) s safe =
      restarts-IsSafe one_dir l _
        (recover_pair-Whole (accepts_of pair) one_dir fates Fine (λ a b f. f.0) s safe).always

  persist_pair-IsSafe :
      (one_dir : Bool) (fates : ℕ → Fate) (agent : String) (now : ℕ) (mark : String) (s : State)
      → Holding c k s.files
      → IsSafe Fine (persist_pair pair one_dir fates cert key agent now mark s).0.files
  unfolding persist_pair
  persist_pair-IsSafe one_dir fates agent now mark s h =
      elim (Option-cases (validate_issued_pair pair cert key agent now now)) [
        | inl valid ↦ (persist_issued one_dir fates agent now mark s valid h).always
        | inr (e, refused) ↦ rw (refused, persist_pair) (whole c k old_pair h)
      ]

  old_or_new :
      (one_dir : Bool) (s : State)
      → IsSafe Fine s.files
      → let r = recover_pair (accepts_of pair) one_dir (λ n. works) s in
        (r.1 ≡ good) × ((Holding c k r.0.files) ⊎ (Holding cert key r.0.files))
  old_or_new one_dir s safe =
      let ends =
        recover_pair-Whole (accepts_of pair) one_dir (λ n. works) Fine (λ a b f. f.0) s safe in
      let well = ends.surely (λ n. refl) in
      (
        well,
        one_of (recover_pair (accepts_of pair) one_dir (λ n. works) s).0.files
            (ends.when_good well),
      )
    where
      one_of : (f : Files) → Whole Fine f → (Holding c k f) ⊎ (Holding cert key f)
      one_of f (a, b, (u, inl (x, y)), (there, there_too)) =
          inl (rw (sym x) there, rw (sym y) there_too)
      one_of f (a, b, (u, inr (x, y)), (there, there_too)) =
          inr (rw (sym x) there, rw (sym y) there_too)

-- Where the files hold a pair that loads, crypto/tls refuses empty texts and the five companion
-- files are different: whatever each step of PersistPair comes to, a crash included, and whatever
-- each step of any number of recoveries after it comes to, a recovery whose steps all work then
-- succeeds and leaves the old pair or the new pair whole.
pub persist_pair-IsAtomic :
    (pair : String → String → Option Certificate) (one_dir : Bool) (fates : ℕ → Fate)
    (cuts : List (ℕ → Fate)) (c k cert key agent : String) (now : ℕ) (mark : String) (s : State)
    → RefusesEmpty pair
    → accepts_of pair c k ≡ true
    → Holding c k s.files
    → let crashed = (persist_pair pair one_dir fates cert key agent now mark s).0 in
      let r =
        recover_pair (accepts_of pair) one_dir (λ n. works) (restarts pair one_dir cuts crashed) in
      (r.1 ≡ good) × ((Holding c k r.0.files) ⊎ (Holding cert key r.0.files))
persist_pair-IsAtomic pair one_dir fates cuts c k cert key agent now mark s refuses old h =
    old_or_new pair refuses c k cert key old one_dir _ (
      restarts-IsSafe pair refuses c k cert key old one_dir cuts _
        (persist_pair-IsSafe pair refuses c k cert key old one_dir fates agent now mark s h))

-- Where the files hold a pair that loads, crypto/tls refuses empty texts and ValidateIssuedPair
-- takes the new pair, PersistPair that succeeds leaves the new pair in its place, and it succeeds
-- if every step works.
pub persist_pair-installs :
    (pair : String → String → Option Certificate) (one_dir : Bool) (fates : ℕ → Fate)
    (c k cert key agent : String) (now : ℕ) (mark : String) (s : State)
    → RefusesEmpty pair
    → accepts_of pair c k ≡ true
    → Holding c k s.files
    → validate_issued_pair pair cert key agent now now ≡ none
    → let r = persist_pair pair one_dir fates cert key agent now mark s in
      (r.1 ≡ good → Holding cert key r.0.files) × (AllWork fates → r.1 ≡ good)
persist_pair-installs pair one_dir fates c k cert key agent now mark s refuses old h valid =
    let ends =
      persist_issued pair refuses c k cert key old one_dir fates agent now mark s valid h in
    (ends.when_good, ends.surely)
