-- ===== src/TopK/Tests.antt =====
-- Runs of the table at concrete inputs.
use seagull_agent.Prelude.{◌+◌, pos, ◌≡◌, refl, [], ◌∷◌, arith}
use seagull_agent.Assoc.{has}
use seagull_agent.TopK.{TopK, add}
use seagull_agent.TopK.Counts.{IsValid, sum_counts, add-IsValid}

abbrev full : TopK
full = record { k = 2; items = (pos 80, 5) ∷ (pos 443, 3) ∷ [] }

full-IsValid : IsValid full
unfolding has
full-IsValid = record {
  positive = omega arith;
  bounded = omega arith;
  one_each = (refl, (refl, tt));
}

-- A third key takes the place of the second.
add-IsValid_example :
    IsValid (add (pos 22) (pos 4) full)
    × (sum_counts (add (pos 22) (pos 4) full).items ≡ 4 + sum_counts full.items)
add-IsValid_example = add-IsValid (pos 22) (pos 4) full full-IsValid
