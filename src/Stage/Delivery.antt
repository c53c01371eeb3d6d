-- ===== src/Stage/Delivery.antt =====
-- What `Next` hands out, and what it can no longer hand out once an action is handled.
use mathlib.Core.Path.{subst}
use seagull_agent.Assoc.{has, find, without, member, find-without, find-eq-some}
use seagull_agent.Stage.Evict.{IsOrdered, IsOrdered-tail, no_items_of_no_order}
use seagull_agent.Stage.Handled.{member-trim_handled_last}
use seagull_agent.Stage.Invariant.{
  IsValid, stage-IsValid, mark_handled-IsValid, items-mark_handled_locked, IsOrdered-stale,
}
use seagull_agent.Stage.{
  Stage, StagedAction, StageResult, admit, stage_one, stage_all, stage, no_result,
  mark_handled_locked, mark_handled, next_from, next, foreign, expired,
}
use seagull_agent.Protocol.Action.{ResponseAction}
use seagull_agent.Prelude.{
  ℕ, ℤ, pos, leb_ℤ, eq_ℤ_iff, ◌≡◌, refl, ◌∙◌, true, false, ◌||◌, none, some, inl, inr, List, [],
  ◌∷◌, arith, Bool-cases, String, Option-cases,
}

module _ (now : ℕ) (expected : String) where
  -- An item that `Next` may hand out of `items`.
  abbrev pub Deliverable : List (ℤ × StagedAction) → StagedAction → Type 0
  Deliverable items item =
      (id : ℤ) × (find id items ≡ some item)
      × (foreign expected item.action ≡ false)
      × (expired now item.action ≡ false)

  Deliverable-without :
      (id : ℤ) (items : List (ℤ × StagedAction)) (item : StagedAction)
      → Deliverable (without id items) item
      → Deliverable items item
  Deliverable-without id items item (j, found, ours, live) =
      (j, ground (arith, find-without j id items), ours, live)

  next_from-Deliverable :
      (order : List ℤ) (s : Stage) (item : StagedAction)
      → (next_from now expected order s).1 ≡ some item
      → Deliverable s.items item
  unfolding next_from
  next_from-Deliverable [] s item h = cc
  next_from-Deliverable (id ∷ order) s item h = elim (Option-cases (find id s.items)) [
    | inl miss ↦ next_from-Deliverable order s item (rw (miss, next_from) at h)
    | inr (first, hit) ↦
        let s' : Stage = record s { order = order; items = without id s.items } in
        elim (Bool-cases (foreign expected first.action || expired now first.action)) [
          | inl skip ↦ Deliverable-without id s.items item (
              rw (items-mark_handled_locked id s') at (
                next_from-Deliverable order (mark_handled_locked id s') item
                  (rw (hit, skip, next_from) at h)))
          | inr take ↦
              let out : some first ≡ some item = rw (hit, take, next_from) at h in
              let e : first ≡ item = cc in
              subst (λ x. Deliverable s.items x) e (id, hit, ground arith, ground arith)
        ]
  ]

  next_from-eq-none :
      (order : List ℤ) (s : Stage)
      → IsOrdered order s.items
      → (next_from now expected order s).1 ≡ none
      → (next_from now expected order s).0.items ≡ []
  unfolding next_from
  next_from-eq-none [] s o h = no_items_of_no_order s.items o
  next_from-eq-none (id ∷ order) s o h = elim (Option-cases (find id s.items)) [
    | inl miss ↦
        rw (miss, next_from)
          (next_from-eq-none order s (IsOrdered-stale id order s.items miss o)
            (rw (miss, next_from) at h))
    | inr (first, hit) ↦
        let s' : Stage = record s { order = order; items = without id s.items } in
        elim (Bool-cases (foreign expected first.action || expired now first.action)) [
          | inl skip ↦
              rw (hit, skip, next_from)
                (next_from-eq-none order (mark_handled_locked id s')
                  (rw (items-mark_handled_locked id s') (IsOrdered-tail id order s.items o))
                  (rw (hit, skip, next_from) at h))
          | inr take ↦ cc (rw (hit, take, next_from) at h)
        ]
  ]

  -- What Next hands out of a well-formed queue was staged, is for this agent, has not expired and was not handled before.
  pub next-eq-some :
      (s : Stage) (item : StagedAction)
      → IsValid s
      → (next now expected s).1 ≡ some item
      → (id : ℤ) × (find id s.items ≡ some item)
        × (foreign expected item.action ≡ false)
        × (expired now item.action ≡ false)
        × (member id s.handled_set ≡ false)
  unfolding next
  next-eq-some s item v h =
      let (id, found, ours, live) = next_from-Deliverable s.order s item h in
      (id, found, ours, live, ground (arith, v.separate id, find-eq-some id s.items item found))

  -- Next answers with nothing only when nothing is left in a well-formed queue.
  pub next-eq-none :
      (s : Stage) → IsValid s → (next now expected s).1 ≡ none → (next now expected s).0.items ≡ []
  unfolding next
  next-eq-none s v h = next_from-eq-none s.order s v.ordered h

  handled_set-stage_one :
      (s : Stage) (out : StageResult) (a : ResponseAction)
      → (stage_one now expected s out a).0.handled_set ≡ s.handled_set
  unfolding stage_one admit
  handled_set-stage_one s out a = ground arith

  handled_set-stage_all :
      (s : Stage) (out : StageResult) (actions : List ResponseAction)
      → (stage_all now expected s out actions).0.handled_set ≡ s.handled_set
  unfolding stage_all
  handled_set-stage_all s out [] = refl
  handled_set-stage_all s out (a ∷ actions) =
      handled_set-stage_all (stage_one now expected s out a).0 (stage_one now expected s out a).1
        actions
      ∙ handled_set-stage_one s out a

  handled_set-stage :
      (s : Stage) (actions : List ResponseAction)
      → (stage now actions expected s).0.handled_set ≡ s.handled_set
  unfolding stage
  handled_set-stage s [] = refl
  handled_set-stage s (a ∷ actions) = handled_set-stage_all s no_result (a ∷ actions)

  member-mark_handled :
      (id : ℤ) (s : Stage)
      → IsValid s
      → leb_ℤ id (pos 0) ≡ false
      → member id (mark_handled id s).handled_set ≡ true
  unfolding mark_handled mark_handled_locked member
  member-mark_handled id s v p = elim (Bool-cases (member id s.handled_set)) [
    | inl known ↦ rw (p, known) known
    | inr new ↦
        rw (p, new)
          (member-trim_handled_last s.handled_max id s.handled_order (id ∷ s.handled_set)
            v.handled_positive (ground (arith, v.handled_same id)) (ground (arith, eq_ℤ_iff id id)))
  ]

  -- An action that was marked as handled is not staged again, whatever the server sends in the
  -- next batch, on a well-formed queue.
  pub stage-mark_handled :
      (id : ℤ) (s : Stage) (actions : List ResponseAction)
      → IsValid s
      → leb_ℤ id (pos 0) ≡ false
      → has id (stage now actions expected (mark_handled id s)).0.items ≡ false
  stage-mark_handled id s actions v p =
      let s' = mark_handled id s in
      (stage-IsValid now expected s' actions (mark_handled-IsValid id s v)).separate id
        (rw (handled_set-stage s' actions) (member-mark_handled id s v p))
