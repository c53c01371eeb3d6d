-- ===== src/Stage/Evict.antt =====
-- What the eviction loop of `Stage` leaves.
use seagull_agent.Assoc.{has, without, member, IsMap, has-without, without-IsMap, length-without}
use seagull_agent.Stage.{StagedAction, evict}
use seagull_agent.Prelude.{
  ℕ, suc, ◌+◌, ◌<◌, ℤ, eq_ℤ_iff, ◌≡◌, refl, true, inl, inr, List, [], ◌∷◌, arith, if◌then◌else◌,
  length, leb, Bool-cases,
}

-- Every key of the items waits in the order.
abbrev pub IsOrdered : List ℤ → List (ℤ × StagedAction) → Type 0
IsOrdered order items = (id : ℤ) → has id items ≡ true → member id order ≡ true

pub IsOrdered-tail :
    (oldest : ℤ) (order : List ℤ) (items : List (ℤ × StagedAction))
    → IsOrdered (oldest ∷ order) items
    → IsOrdered order (without oldest items)
unfolding member
IsOrdered-tail oldest order items h id = λ p. ground (arith, h id, has-without id oldest items, p)

pub no_items_of_no_order : (items : List (ℤ × StagedAction)) → IsOrdered [] items → items ≡ []
unfolding member has
no_items_of_no_order [] h = refl
no_items_of_no_order ((id, v) ∷ items) h = ground (arith, h id, eq_ℤ_iff id id)

module _ (max : ℕ) where
  pub evict-IsMap :
      (order : List ℤ) (items : List (ℤ × StagedAction)) (d : ℕ)
      → IsMap items
      → IsMap (evict max order items d).1
  unfolding evict
  evict-IsMap [] items d h = h
  evict-IsMap (oldest ∷ order) items d h = elim (Bool-cases (leb max (length items))) [
    | inl full ↦ rw full (
        evict-IsMap order (without oldest items) (if has oldest items then suc d else d)
          (without-IsMap oldest items h))
    | inr room ↦ rw room h
  ]

  pub evict-IsOrdered :
      (order : List ℤ) (items : List (ℤ × StagedAction)) (d : ℕ)
      → IsOrdered order items
      → IsOrdered (evict max order items d).0 (evict max order items d).1
  unfolding evict
  evict-IsOrdered [] items d h = h
  evict-IsOrdered (oldest ∷ order) items d h = elim (Bool-cases (leb max (length items))) [
    | inl full ↦ rw full (
        evict-IsOrdered order (without oldest items) (if has oldest items then suc d else d)
          (IsOrdered-tail oldest order items h))
    | inr room ↦ rw room h
  ]

  -- The loop ends with room for one more.
  pub evict-lt :
      (order : List ℤ) (items : List (ℤ × StagedAction)) (d : ℕ)
      → 0 < max
      → IsOrdered order items
      → length (evict max order items d).1 < max
  unfolding evict
  evict-lt [] items d p h = rw (no_items_of_no_order items h) p
  evict-lt (oldest ∷ order) items d p h = elim (Bool-cases (leb max (length items))) [
    | inl full ↦ rw full (
        evict-lt order (without oldest items) (if has oldest items then suc d else d) p
          (IsOrdered-tail oldest order items h))
    | inr room ↦ rw room (ground arith)
  ]

  -- What leaves the items is counted.
  pub evict-count :
      (order : List ℤ) (items : List (ℤ × StagedAction)) (d : ℕ)
      → IsMap items
      → length (evict max order items d).1 + (evict max order items d).2 ≡ length items + d
  unfolding evict
  evict-count [] items d h = refl
  evict-count (oldest ∷ order) items d h = ground (
    arith,
    evict-count order (without oldest items) (if has oldest items then suc d else d)
        (without-IsMap oldest items h),
    length-without oldest items h,
  )

  -- Nothing enters the items.
  pub has-evict :
      (id : ℤ) (order : List ℤ) (items : List (ℤ × StagedAction)) (d : ℕ)
      → has id (evict max order items d).1 ≡ true
      → has id items ≡ true
  unfolding evict
  has-evict id [] items d h = h
  has-evict id (oldest ∷ order) items d h = ground (
    arith,
    has-evict id order (without oldest items) (if has oldest items then suc d else d),
    has-without id oldest items,
  )
