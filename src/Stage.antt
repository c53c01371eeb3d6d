-- ===== src/Stage.antt =====
-- The staging queue of internal/responseactions/stage.go. The Go maps are association lists and
-- lists of keys; `order` and `handled_order` are the slices. The nil receiver is not modelled.
pub mod Evict
pub mod Handled
pub mod Invariant
pub mod Accounting
pub mod Delivery
mod Tests
use seagull_agent.Assoc.{has, find, without, member, remove_all}
use Prim.Native.Nat.{◌*◌, ◌%◌, ◌^◌}
use seagull_agent.Prelude.{
  ℕ, suc, ◌+◌, ℤ, pos, negsuc, Bool, true, false, not, ◌&&◌, ◌||◌, Option, none, some, List, [],
  ◌∷◌, ◌++◌, String, str_eq, ltb, leb, ◌==◌, if◌then◌else◌, length, leb_ℤ,
}
use seagull_agent.Protocol.Action.{ResponseAction}

pub record StagedAction : Type 0 where
  pub action : ResponseAction
  pub staged_at : ℕ

pub record StageResult : Type 0 where
  pub added : ℕ
  pub ignored : ℕ
  pub dropped : ℕ
  pub pending : ℕ

pub record Stage : Type 0 where
  pub max : ℕ
  pub handled_max : ℕ
  pub order : List ℤ
  pub items : List (ℤ × StagedAction)
  pub handled_order : List ℤ
  pub handled_set : List ℤ

-- `max * 8` wraps around in 64 bits, and a negative product is below 512.
unfoldable pub handled_capacity : ℕ → ℕ
handled_capacity max =
    let product = max * 8 % 2 ^ 64 in
    if ltb product 512 || leb (2 ^ 63) product then 512 else product

unfoldable pub stage_capacity : ℤ → ℕ
stage_capacity (pos n) = if n == 0 then 256 else n
stage_capacity (negsuc n) = 256

unfoldable pub new_stage : ℤ → Stage
unfolding handled_capacity stage_capacity
new_stage n = record {
  max = stage_capacity n;
  handled_max = handled_capacity (stage_capacity n);
  order = [];
  items = [];
  handled_order = [];
  handled_set = [];
}

-- `expires_at != nil && !expires_at.After(now)`
unfoldable pub expired : ℕ → ResponseAction → Bool
expired now a = elim a.expires_at [ none ↦ false | some t ↦ leb t now ]

-- `expected != "" && agent_id != expected`
unfoldable pub foreign : String → ResponseAction → Bool
foreign expected a = not (str_eq expected "") && not (str_eq a.agent_id expected)

-- The five tests at the head of the loop of `Stage`.
unfoldable pub is_ignored : ℕ → String → Stage → ResponseAction → Bool
is_ignored now expected s a =
    leb_ℤ a.id (pos 0)
    || str_eq a.action_type ""
    || foreign expected a
    || expired now a
    || has a.id s.items
    || member a.id s.handled_set

-- The eviction loop: the items, the order and the count of dropped actions.
unfoldable pub evict :
    ℕ → List ℤ → List (ℤ × StagedAction) → ℕ → List ℤ × List (ℤ × StagedAction) × ℕ
evict max [] items dropped = ([], items, dropped)
evict max (oldest ∷ order) items dropped =
    let rest =
      evict max order (without oldest items) (if has oldest items then suc dropped else dropped) in
    if leb max (length items) then rest else (oldest ∷ order, items, dropped)

-- Once an action has passed the tests: make room, and append it.
unfoldable pub admit : ℕ → Stage → ResponseAction → Stage × ℕ
admit now s a =
    let (order, items, dropped) = evict s.max s.order s.items 0 in
    (
      record s {
        order = order ++ a.id ∷ [];
        items = (a.id, record { action = a; staged_at = now }) ∷ items;
      },
      dropped,
    )

-- One round of the loop of `Stage`.
unfoldable pub stage_one : ℕ → String → Stage → StageResult → ResponseAction → Stage × StageResult
stage_one now expected s out a =
    if is_ignored now expected s a
    then (s, record out { ignored = suc out.ignored })
    else let (s', dropped) = admit now s a in
      (s', record out { added = suc out.added; dropped = out.dropped + dropped })

unfoldable pub stage_all :
    ℕ → String → Stage → StageResult → List ResponseAction → Stage × StageResult
stage_all now expected s out [] = (s, record out { pending = length s.items })
stage_all now expected s out (a ∷ actions) =
    let (s', out') = stage_one now expected s out a in stage_all now expected s' out' actions

abbrev pub no_result : StageResult
no_result = record { added = 0; ignored = 0; dropped = 0; pending = 0 }

-- With no action at all the result is empty, the count of pending actions included.
unfoldable pub stage : ℕ → List ResponseAction → String → Stage → Stage × StageResult
stage now [] expected s = (s, no_result)
stage now (a ∷ actions) expected s = stage_all now expected s no_result (a ∷ actions)

unfoldable pub pending_count : Stage → ℕ
pending_count s = length s.items

-- The trimming loop of `markHandledLocked`.
unfoldable pub trim_handled : ℕ → List ℤ → List ℤ → List ℤ × List ℤ
trim_handled max [] set = ([], set)
trim_handled max (oldest ∷ order) set =
    let rest = trim_handled max order (remove_all oldest set) in
    if ltb max (suc (length order)) then rest else (oldest ∷ order, set)

unfoldable pub mark_handled_locked : ℤ → Stage → Stage
mark_handled_locked id s =
    if leb_ℤ id (pos 0) || member id s.handled_set
    then s
    else let (order, set) =
        trim_handled s.handled_max (s.handled_order ++ id ∷ []) (id ∷ s.handled_set) in
      record s { handled_order = order; handled_set = set }

unfoldable pub mark_handled : ℤ → Stage → Stage
mark_handled id s =
    if leb_ℤ id (pos 0) then s else mark_handled_locked id (record s { items = without id s.items })

-- The loop of `Next` over the ids of `order`.
unfoldable pub next_from : ℕ → String → List ℤ → Stage → Stage × Option StagedAction
next_from now expected [] s = (record s { order = [] }, none)
next_from now expected (id ∷ order) s = elim (find id s.items) [
  | none ↦ next_from now expected order s
  | some item ↦
      let s' : Stage = record s { order = order; items = without id s.items } in
      elim (foreign expected item.action || expired now item.action) [
        | true ↦ next_from now expected order (mark_handled_locked id s')
        | false ↦ (s', some item)
      ]
]

unfoldable pub next : ℕ → String → Stage → Stage × Option StagedAction
next now expected s = next_from now expected s.order s
