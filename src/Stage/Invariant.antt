-- ===== src/Stage/Invariant.antt =====
-- The well-formedness of the staging queue of stage.go, operation by operation.
use seagull_agent.Assoc.{
  has, find, without, member, IsMap, has-without, without-IsMap, length-without, member-append,
  find-eq-none,
}
use seagull_agent.Stage.Evict.{
  IsOrdered, IsOrdered-tail, evict-IsMap, evict-IsOrdered, evict-lt, has-evict,
}
use seagull_agent.Stage.Handled.{
  Distinct, SameMembers, Distinct-append, trim_handled-le, trim_handled-Distinct,
  trim_handled-SameMembers, member-trim_handled,
}
use seagull_agent.Stage.{
  Stage, StagedAction, StageResult, new_stage, stage_capacity, handled_capacity, evict, admit,
  is_ignored, stage_one, stage_all, stage, trim_handled, mark_handled_locked, mark_handled,
  next_from, next, foreign, expired, no_result,
}
use seagull_agent.Protocol.Action.{ResponseAction}
use seagull_agent.Prelude.{
  ℕ, ◌≤◌, ◌<◌, ℤ, pos, negsuc, leb_ℤ, eq_ℤ_iff, ◌≡◌, refl, true, false, ◌||◌, none, inl, inr, List,
  [], ◌∷◌, ◌++◌, arith, length, Bool-cases, String, Option-cases,
}

pub record IsValid (s : Stage) : Type 0 where
  pub positive : 0 < s.max
  pub handled_positive : 0 < s.handled_max
  pub bounded : length s.items ≤ s.max
  pub distinct : IsMap s.items
  pub ordered : IsOrdered s.order s.items
  pub handled_bounded : length s.handled_order ≤ s.handled_max
  pub handled_distinct : Distinct s.handled_order
  pub handled_same : SameMembers s.handled_order s.handled_set
  pub separate : (id : ℤ) → member id s.handled_set ≡ true → has id s.items ≡ false

stage_capacity_pos : (n : ℤ) → 0 < stage_capacity n
unfolding stage_capacity
stage_capacity_pos (pos n) = ground arith
stage_capacity_pos (negsuc n) = omega arith

handled_capacity_pos : (n : ℕ) → 0 < handled_capacity n
unfolding handled_capacity
handled_capacity_pos n = ground arith

-- A new queue is well formed, whatever size is asked for.
pub new_stage-IsValid : (n : ℤ) → IsValid (new_stage n)
unfolding new_stage member has
new_stage-IsValid n = record {
  positive = stage_capacity_pos n;
  handled_positive = handled_capacity_pos (stage_capacity n);
  bounded = ground arith;
  distinct = tt;
  ordered = λ id h. h;
  handled_bounded = ground arith;
  handled_distinct = tt;
  handled_same = λ id. refl;
  separate = λ id h. refl;
}

admit-IsValid :
    (now : ℕ) (s : Stage) (a : ResponseAction)
    → IsValid s
    → has a.id s.items ≡ false
    → member a.id s.handled_set ≡ false
    → IsValid (admit now s a).0
unfolding admit has member
admit-IsValid now s a v fresh unhandled = record {
  positive = v.positive;
  handled_positive = v.handled_positive;
  bounded = omega (arith, evict-lt s.max s.order s.items 0 v.positive v.ordered);
  distinct = (
    ground (arith, has-evict s.max a.id s.order s.items 0),
    evict-IsMap s.max s.order s.items 0 v.distinct,
  );
  ordered = λ id h. ground (
    arith,
    evict-IsOrdered s.max s.order s.items 0 v.ordered id,
    member-append id (evict s.max s.order s.items 0).0 (a.id ∷ []),
    eq_ℤ_iff a.id id,
    h,
  );
  handled_bounded = v.handled_bounded;
  handled_distinct = v.handled_distinct;
  handled_same = v.handled_same;
  separate = λ id h.
      ground (arith, v.separate id h, has-evict s.max id s.order s.items 0, eq_ℤ_iff a.id id);
}

-- The branch of `markHandledLocked` that records the id.
abbrev record_handled : ℤ → Stage → Stage
record_handled id s =
    let (order, set) =
      trim_handled s.handled_max (s.handled_order ++ id ∷ []) (id ∷ s.handled_set) in
    record s { handled_order = order; handled_set = set }

SameMembers-push :
    (id : ℤ) (l set : List ℤ) → SameMembers l set → SameMembers (l ++ id ∷ []) (id ∷ set)
unfolding member
SameMembers-push id l set h k = ground (arith, h k, member-append k l (id ∷ []))

record_handled-IsValid :
    (id : ℤ) (s : Stage)
    → IsValid s
    → has id s.items ≡ false
    → member id s.handled_set ≡ false
    → IsValid (record_handled id s)
unfolding member
record_handled-IsValid id s v p q =
    let fresh : Distinct (s.handled_order ++ id ∷ []) =
      Distinct-append id s.handled_order v.handled_distinct (ground (arith, v.handled_same id)) in
    record {
      positive = v.positive;
      handled_positive = v.handled_positive;
      bounded = v.bounded;
      distinct = v.distinct;
      ordered = v.ordered;
      handled_bounded = trim_handled-le s.handled_max _ _;
      handled_distinct = trim_handled-Distinct s.handled_max _ _ fresh;
      handled_same =
          trim_handled-SameMembers s.handled_max _ _ fresh
            (SameMembers-push id s.handled_order s.handled_set v.handled_same);
      separate = λ k h. ground (
        arith,
        v.separate k,
        eq_ℤ_iff id k,
        member-trim_handled s.handled_max k (s.handled_order ++ id ∷ []) (id ∷ s.handled_set) h,
      );
    }

mark_handled_locked-IsValid :
    (id : ℤ) (s : Stage) → IsValid s → has id s.items ≡ false → IsValid (mark_handled_locked id s)
unfolding mark_handled_locked
mark_handled_locked-IsValid id s v p =
    elim (Bool-cases (leb_ℤ id (pos 0) || member id s.handled_set)) [
      | inl known ↦ rw known v
      | inr new ↦ rw new (record_handled-IsValid id s v p (ground arith))
    ]

-- Dropping an item keeps the invariant, as long as the order still covers the rest.
drop_item-IsValid :
    (id : ℤ) (order : List ℤ) (s : Stage)
    → IsValid s
    → IsOrdered order (without id s.items)
    → IsValid (record s { order = order; items = without id s.items })
drop_item-IsValid id order s v h = record {
  positive = v.positive;
  handled_positive = v.handled_positive;
  bounded = omega (arith, length-without id s.items v.distinct, v.bounded);
  distinct = without-IsMap id s.items v.distinct;
  ordered = h;
  handled_bounded = v.handled_bounded;
  handled_distinct = v.handled_distinct;
  handled_same = v.handled_same;
  separate = λ k p. ground (arith, v.separate k p, has-without k id s.items);
}

IsOrdered-without :
    (id : ℤ) (order : List ℤ) (items : List (ℤ × StagedAction))
    → IsOrdered order items
    → IsOrdered order (without id items)
IsOrdered-without id order items h k p = ground (arith, h k, has-without k id items, p)

pub has-without_self :
    (id : ℤ) (items : List (ℤ × StagedAction)) → has id (without id items) ≡ false
has-without_self id items = ground (arith, has-without id id items, eq_ℤ_iff id id)

-- MarkHandled keeps the invariant.
pub mark_handled-IsValid : (id : ℤ) (s : Stage) → IsValid s → IsValid (mark_handled id s)
unfolding mark_handled
mark_handled-IsValid id s v = elim (Bool-cases (leb_ℤ id (pos 0))) [
  | inl bad ↦ rw bad v
  | inr good ↦ rw good (
      mark_handled_locked-IsValid id _
        (drop_item-IsValid id s.order s v (IsOrdered-without id s.order s.items v.ordered))
        (has-without_self id s.items))
]

reorder-IsValid :
    (order : List ℤ) (s : Stage)
    → IsValid s
    → IsOrdered order s.items
    → IsValid (record s { order = order })
reorder-IsValid order s v h = record {
  positive = v.positive;
  handled_positive = v.handled_positive;
  bounded = v.bounded;
  distinct = v.distinct;
  ordered = h;
  handled_bounded = v.handled_bounded;
  handled_distinct = v.handled_distinct;
  handled_same = v.handled_same;
  separate = v.separate;
}

-- A popped id that has no item may be forgotten.
pub IsOrdered-stale :
    (id : ℤ) (order : List ℤ) (items : List (ℤ × StagedAction))
    → find id items ≡ none
    → IsOrdered (id ∷ order) items
    → IsOrdered order items
unfolding member
IsOrdered-stale id order items miss h k p =
    ground (arith, h k, find-eq-none id items miss, eq_ℤ_iff id k)

pub items-mark_handled_locked : (id : ℤ) (s : Stage) → (mark_handled_locked id s).items ≡ s.items
unfolding mark_handled_locked
items-mark_handled_locked id s = ground arith

module _ (now : ℕ) (expected : String) where
  pub stage_one-IsValid :
      (s : Stage) (out : StageResult) (a : ResponseAction)
      → IsValid s
      → IsValid (stage_one now expected s out a).0
  unfolding stage_one is_ignored
  stage_one-IsValid s out a v = elim (Bool-cases (is_ignored now expected s a)) [
    | inl skip ↦ rw skip v
    | inr take ↦ rw take (admit-IsValid now s a v (ground arith) (ground arith))
  ]

  stage_all-IsValid :
      (s : Stage) (out : StageResult) (actions : List ResponseAction)
      → IsValid s
      → IsValid (stage_all now expected s out actions).0
  unfolding stage_all
  stage_all-IsValid s out [] v = v
  stage_all-IsValid s out (a ∷ actions) v =
      stage_all-IsValid (stage_one now expected s out a).0 (stage_one now expected s out a).1
        actions (stage_one-IsValid s out a v)

  -- Stage keeps the invariant, whatever the server sends.
  pub stage-IsValid :
      (s : Stage) (actions : List ResponseAction)
      → IsValid s
      → IsValid (stage now actions expected s).0
  unfolding stage
  stage-IsValid s [] v = v
  stage-IsValid s (a ∷ actions) v = stage_all-IsValid s no_result (a ∷ actions) v

  -- `Next` over a list of ids that covers the items.
  next_from-IsValid :
      (order : List ℤ) (s : Stage)
      → IsValid s
      → IsOrdered order s.items
      → IsValid (next_from now expected order s).0
  unfolding next_from
  next_from-IsValid [] s v h = reorder-IsValid [] s v h
  next_from-IsValid (id ∷ order) s v h = elim (Option-cases (find id s.items)) [
    | inl miss ↦
        rw (miss, next_from) (next_from-IsValid order s v (IsOrdered-stale id order s.items miss h))
    | inr (item, hit) ↦
        let rest = IsOrdered-tail id order s.items h in
        let s' : Stage = record s { order = order; items = without id s.items } in
        let v' : IsValid s' = drop_item-IsValid id order s v rest in
        elim (Bool-cases (foreign expected item.action || expired now item.action)) [
          | inl skip ↦
              rw (hit, skip, next_from)
                (next_from-IsValid order (mark_handled_locked id s')
                  (mark_handled_locked-IsValid id s' v' (has-without_self id s.items))
                  (rw (items-mark_handled_locked id s') rest))
          | inr take ↦ rw (hit, take, next_from) v'
        ]
  ]

  -- Next keeps the invariant.
  pub next-IsValid : (s : Stage) → IsValid s → IsValid (next now expected s).0
  unfolding next
  next-IsValid s v = next_from-IsValid s.order s v v.ordered
