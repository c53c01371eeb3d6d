-- ===== src/TopK.antt =====
-- The table of the most frequent keys, `TopKInt` of internal/collectors/ddos/topk.go. A map is an
-- association list, in the order in which `range` gives it; counts are natural numbers, since only
-- positive increments are added, without their overflow.
pub mod Counts
mod Tests
use seagull_agent.Assoc.{find, without}
use seagull_agent.Prelude.{
  ℕ, zero, suc, ◌+◌, ℤ, pos, negsuc, pos_part, ltb_ℤ, leb_ℤ, Bool, ◌||◌, Option, none, some, List,
  [], ◌∷◌, ltb, ◌==◌, if◌then◌else◌, length,
}
use seagull_agent.Sender.Deliver.{take}
use seagull_agent.Spool.Sort.{sort}

pub record TopK : Type 0 where
  pub k : ℕ
  pub items : List (ℤ × ℕ)

abbrev pub size_or_default : ℤ → ℕ
size_or_default (pos zero) = 10
size_or_default (pos (suc n)) = suc n
size_or_default (negsuc n) = 10

unfoldable pub new_top_k : ℤ → TopK
new_top_k k = record { k = size_or_default k; items = [] }

-- The loop for the smallest count, from the best entry so far.
unfoldable pub smallest : ℤ × ℕ → List (ℤ × ℕ) → ℤ × ℕ
smallest (key, count) [] = (key, count)
smallest (key, count) ((k, v) ∷ l) =
    if ltb v count then smallest (k, v) l else smallest (key, count) l

-- The end of `Add`: the entry with the smallest count makes room for the key, which takes over
-- its count.
unfoldable pub replace : ℤ → ℕ → List (ℤ × ℕ) → List (ℤ × ℕ)
replace key n [] = (key, n) ∷ []
replace key n ((k, v) ∷ l) =
    let (least, count) = smallest (k, v) l in (key, count + n) ∷ without least ((k, v) ∷ l)

-- `Add` after its guard.
unfoldable pub add_count : ℤ → ℕ → TopK → TopK
add_count key n t = elim (find key t.items) [
  | some v ↦ record t { items = (key, v + n) ∷ without key t.items }
  | none ↦
      if ltb (length t.items) t.k
      then (record t { items = (key, n) ∷ t.items })
      else (record t { items = replace key n t.items })
]

unfoldable pub add : ℤ → ℤ → TopK → TopK
add key inc t = if ltb_ℤ key (pos 0) || leb_ℤ inc (pos 0) then t else add_count key (pos_part inc) t

-- The order of `ItemsSorted`.
unfoldable pub ranks_before : ℤ × ℕ → ℤ × ℕ → Bool
ranks_before (a, m) (b, n) = if m == n then ltb_ℤ a b else ltb n m

unfoldable pub items_sorted : TopK → List (ℤ × ℕ)
items_sorted t = take t.k (sort ranks_before t.items)
