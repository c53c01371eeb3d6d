-- ===== src/Stage/Handled.antt =====
-- The record of handled actions in stage.go: the slice and the set.
use seagull_agent.Assoc.{member, remove_all, member-append, member-remove_all}
use seagull_agent.Stage.{trim_handled}
use seagull_agent.Prelude.{
  ℕ, suc, ◌≤◌, ◌<◌, ℤ, eq_ℤ_iff, ◌≡◌, refl, true, false, inl, inr, List, [], ◌∷◌, ◌++◌, arith,
  length, ltb, Bool-cases,
}

abbrev pub Distinct : List ℤ → Type 0
Distinct [] = Unit
Distinct (id ∷ l) = (member id l ≡ false) × Distinct l

abbrev pub SameMembers : List ℤ → List ℤ → Type 0
SameMembers l set = (id : ℤ) → member id set ≡ member id l

pub Distinct-append :
    (id : ℤ) (l : List ℤ) → Distinct l → member id l ≡ false → Distinct (l ++ id ∷ [])
unfolding member
Distinct-append id [] h p = (refl, tt)
Distinct-append id (j ∷ l) h p = (
  ground (arith, member-append j l (id ∷ []), eq_ℤ_iff j id, eq_ℤ_iff id j),
  Distinct-append id l h.1 (ground arith),
)

SameMembers-tail :
    (oldest : ℤ) (order set : List ℤ)
    → member oldest order ≡ false
    → SameMembers (oldest ∷ order) set
    → SameMembers order (remove_all oldest set)
unfolding member
SameMembers-tail oldest order set p h id =
    ground (arith, h id, member-remove_all id oldest set, eq_ℤ_iff oldest id)

module _ (max : ℕ) where
  pub trim_handled-le : (order set : List ℤ) → length (trim_handled max order set).0 ≤ max
  unfolding trim_handled
  trim_handled-le [] set = omega arith
  trim_handled-le (oldest ∷ order) set =
      ground (arith, trim_handled-le order (remove_all oldest set))

  pub trim_handled-Distinct :
      (order set : List ℤ) → Distinct order → Distinct (trim_handled max order set).0
  unfolding trim_handled
  trim_handled-Distinct [] set h = tt
  trim_handled-Distinct (oldest ∷ order) set h = elim (Bool-cases (ltb max (suc (length order)))) [
    | inl over ↦ rw over (trim_handled-Distinct order (remove_all oldest set) h.1)
    | inr fits ↦ rw fits h
  ]

  pub trim_handled-SameMembers :
      (order set : List ℤ)
      → Distinct order
      → SameMembers order set
      → SameMembers (trim_handled max order set).0 (trim_handled max order set).1
  unfolding trim_handled
  trim_handled-SameMembers [] set d h = h
  trim_handled-SameMembers (oldest ∷ order) set d h =
      elim (Bool-cases (ltb max (suc (length order)))) [
        | inl over ↦ rw over (
            trim_handled-SameMembers order (remove_all oldest set) d.1
              (SameMembers-tail oldest order set d.0 h))
        | inr fits ↦ rw fits h
      ]

  pub member-trim_handled :
      (id : ℤ) (order set : List ℤ)
      → member id (trim_handled max order set).1 ≡ true
      → member id set ≡ true
  unfolding trim_handled
  member-trim_handled id [] set h = h
  member-trim_handled id (oldest ∷ order) set h =
      ground (
        arith,
        member-trim_handled id order (remove_all oldest set),
        member-remove_all id oldest set,
      )

  -- The id that was recorded last stays.
  pub member-trim_handled_last :
      (id : ℤ) (order set : List ℤ)
      → 0 < max
      → member id order ≡ false
      → member id set ≡ true
      → member id (trim_handled max (order ++ id ∷ []) set).1 ≡ true
  unfolding trim_handled member
  member-trim_handled_last id [] set p q h = ground arith
  member-trim_handled_last id (oldest ∷ order) set p q h =
      elim (Bool-cases (ltb max (suc (length (order ++ id ∷ []))))) [
        | inl over ↦ rw over (
            member-trim_handled_last id order (remove_all oldest set) p (ground arith)
              (ground (arith, member-remove_all id oldest set)))
        | inr fits ↦ rw fits h
      ]
