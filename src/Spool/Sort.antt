-- ===== src/Spool/Sort.antt =====
-- Go's sort.Slice and sort.SliceStable by a `less` function, as insertion: equal elements keep
-- their order, and with a total order every sort gives this list.
use seagull_agent.Prelude.{
  suc, ◌≡◌, refl, ap, ◌∙◌, Bool, true, false, inl, inr, List, [], ◌∷◌, arith, if◌then◌else◌, length,
  All, Bool-cases,
}

module _ {ℓ} {A : Type ℓ} where
  unfoldable pub insert : (A → A → Bool) → A → List A → List A
  insert less x [] = x ∷ []
  insert less x (y ∷ ys) = let rest = insert less x ys in if less y x then y ∷ rest else x ∷ y ∷ ys

  unfoldable pub sort : (A → A → Bool) → List A → List A
  unfolding insert
  sort less [] = []
  sort less (x ∷ xs) = insert less x (sort less xs)

  length-insert :
      (less : A → A → Bool) (x : A) (l : List A) → length (insert less x l) ≡ suc (length l)
  unfolding insert
  length-insert less x [] = refl
  length-insert less x (y ∷ l) = ground (arith, length-insert less x l)

  pub length-sort : (less : A → A → Bool) (l : List A) → length (sort less l) ≡ length l
  unfolding sort
  length-sort less [] = refl
  length-sort less (x ∷ l) = length-insert less x (sort less l) ∙ ap suc (length-sort less l)

module _ {ℓ κ} {A : Type ℓ} (P : A → Type κ) (less : A → A → Bool) where
  All-insert : (x : A) (l : List A) → P x → All P l → All P (insert less x l)
  unfolding insert
  All-insert x [] p h = (p, h)
  All-insert x (y ∷ l) p h = elim (Bool-cases (less y x)) [
    | inl after ↦ rw after (h.0, All-insert x l p h.1)
    | inr before ↦ rw before (p, h)
  ]

  pub All-sort : (l : List A) → All P l → All P (sort less l)
  unfolding sort
  All-sort [] h = h
  All-sort (x ∷ l) h = All-insert x (sort less l) h.0 (All-sort l h.1)

-- Every element is related to all that follow it.
abbrev pub IsSortedBy {ℓ κ} : {A : Type ℓ} → (A → A → Type κ) → List A → Type κ
IsSortedBy R [] = Unit
IsSortedBy R (x ∷ l) = All (R x) l × IsSortedBy R l

module _ {ℓ κ} {A : Type ℓ} (R : A → A → Type κ) (less : A → A → Bool)
    (trans : (x y z : A) → R x y → R y z → R x z) (of_less : (x y : A) → less x y ≡ true → R x y)
    (of_not_less : (x y : A) → less x y ≡ false → R y x) where
  All-trans : (x y : A) (l : List A) → R x y → All (R y) l → All (R x) l
  All-trans x y [] h k = tt
  All-trans x y (z ∷ l) h k = (trans x y z h k.0, All-trans x y l h k.1)

  insert-IsSortedBy : (x : A) (l : List A) → IsSortedBy R l → IsSortedBy R (insert less x l)
  unfolding insert
  insert-IsSortedBy x [] h = (tt, tt)
  insert-IsSortedBy x (y ∷ l) h = elim (Bool-cases (less y x)) [
    | inl after ↦
        rw after (All-insert (R y) less x l (of_less y x after) h.0, insert-IsSortedBy x l h.1)
    | inr before ↦
        let r : R x y = of_not_less y x before in rw before ((r, All-trans x y l r h.0), h)
  ]

  -- The result is ordered by every preorder that `less` respects.
  pub sort-IsSortedBy : (l : List A) → IsSortedBy R (sort less l)
  unfolding sort
  sort-IsSortedBy [] = tt
  sort-IsSortedBy (x ∷ l) = insert-IsSortedBy x (sort less l) (sort-IsSortedBy l)
