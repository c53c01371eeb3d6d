-- ===== src/Assoc.antt =====
-- Go's `map[int64]T` as an association list with at most one entry for a key, and
-- `map[int64]struct{}` as a list of keys.
use seagull_agent.Prelude.{
  ◌+◌, ℤ, eq_ℤ, eq_ℤ_iff, ◌≡◌, refl, Bool, true, false, ◌||◌, Option, none, some, List, [], ◌∷◌,
  ◌++◌, arith, if◌then◌else◌, length,
}

unfoldable pub member : ℤ → List ℤ → Bool
member k [] = false
member k (j ∷ l) = eq_ℤ j k || member k l

unfoldable pub remove_all : ℤ → List ℤ → List ℤ
remove_all k [] = []
remove_all k (j ∷ l) = let rest = remove_all k l in if eq_ℤ j k then rest else j ∷ rest

module _ {ℓ} {V : Type ℓ} where
  unfoldable pub has : ℤ → List (ℤ × V) → Bool
  has k [] = false
  has k ((j, v) ∷ m) = eq_ℤ j k || has k m

  unfoldable pub find : ℤ → List (ℤ × V) → Option V
  find k [] = none
  find k ((j, v) ∷ m) = if eq_ℤ j k then some v else find k m

  -- delete(m, k)
  unfoldable pub without : ℤ → List (ℤ × V) → List (ℤ × V)
  without k [] = []
  without k ((j, v) ∷ m) = let rest = without k m in if eq_ℤ j k then rest else (j, v) ∷ rest

  -- No key has two entries.
  abbrev pub IsMap : List (ℤ × V) → Type 0
  IsMap [] = Unit
  IsMap ((j, v) ∷ m) = (has j m ≡ false) × IsMap m

pub member-append : (k : ℤ) (l r : List ℤ) → member k (l ++ r) ≡ (member k l || member k r)
unfolding member
member-append k [] r = refl
member-append k (j ∷ l) r = ground (arith, member-append k l r)

pub member-remove_all :
    (j k : ℤ) (l : List ℤ) → member j (remove_all k l) ≡ (if eq_ℤ k j then false else member j l)
unfolding member remove_all
member-remove_all j k [] = ground arith
member-remove_all j k (i ∷ l) =
    ground (arith, member-remove_all j k l, eq_ℤ_iff i k, eq_ℤ_iff i j, eq_ℤ_iff k j)

module _ {ℓ} {V : Type ℓ} where
  pub has-without :
      (j k : ℤ) (m : List (ℤ × V)) → has j (without k m) ≡ (if eq_ℤ k j then false else has j m)
  unfolding has without
  has-without j k [] = ground arith
  has-without j k ((i, v) ∷ m) =
      ground (arith, has-without j k m, eq_ℤ_iff i k, eq_ℤ_iff i j, eq_ℤ_iff k j)

  pub without-IsMap : (k : ℤ) (m : List (ℤ × V)) → IsMap m → IsMap (without k m)
  unfolding without
  without-IsMap k [] h = tt
  without-IsMap k ((i, v) ∷ m) h = ground (arith, without-IsMap k m h.1, has-without i k m)

  pub without_absent : (k : ℤ) (m : List (ℤ × V)) → has k m ≡ false → without k m ≡ m
  unfolding has without
  without_absent k [] h = refl
  without_absent k ((i, v) ∷ m) h = ground (arith, without_absent k m)

  pub length-without :
      (k : ℤ) (m : List (ℤ × V))
      → IsMap m
      → length (without k m) + (if has k m then 1 else 0) ≡ length m
  unfolding has without
  length-without k [] h = omega arith
  length-without k ((i, v) ∷ m) h =
      ground (arith, length-without k m h.1, without_absent k m, eq_ℤ_iff i k)

  pub find-eq-none : (k : ℤ) (m : List (ℤ × V)) → find k m ≡ none → has k m ≡ false
  unfolding has find
  find-eq-none k [] h = refl
  find-eq-none k ((i, v) ∷ m) h = ground (arith, find-eq-none k m)

  pub find-eq-some : (k : ℤ) (m : List (ℤ × V)) (v : V) → find k m ≡ some v → has k m ≡ true
  unfolding has find
  find-eq-some k [] w h = cc
  find-eq-some k ((i, v) ∷ m) w h = ground (arith, find-eq-some k m w)

  pub find-without :
      (j k : ℤ) (m : List (ℤ × V)) → find j (without k m) ≡ (if eq_ℤ k j then none else find j m)
  unfolding find without
  find-without j k [] = ground arith
  find-without j k ((i, v) ∷ m) =
      ground (arith, find-without j k m, eq_ℤ_iff i k, eq_ℤ_iff i j, eq_ℤ_iff k j)
