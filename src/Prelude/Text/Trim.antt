-- ===== src/Prelude/Text/Trim.antt =====
-- What strings.TrimSpace leaves it leaves again.
use Prim.Native.Char.{Char, code}
use Prim.Native.String.{String, [], ◌∷◌}
use mathlib.Core.Bool.{false}
use mathlib.Core.Logic.{inl, inr}
use mathlib.Core.Path.{◌≡◌, refl, ap, ◌∙◌}
use seagull_agent.Prelude.Tests.{Bool-cases}
use seagull_agent.Prelude.Text.{is_space, trim_left, keep_before, trim_right, trim_space}

trim_right-keep_before :
    (c : Char) (s : String) → trim_right s ≡ s → trim_right (keep_before c s) ≡ keep_before c s
unfolding trim_right keep_before
trim_right-keep_before c [] h = elim (Bool-cases (is_space (code c))) [
  | inl space ↦ rw (space, keep_before) refl
  | inr other ↦ rw (other, keep_before, trim_right, keep_before, other) refl
]
trim_right-keep_before c (◌∷◌ d s) h = ap (keep_before c) h

trim_right_idem : (s : String) → trim_right (trim_right s) ≡ trim_right s
unfolding trim_right
trim_right_idem [] = refl
trim_right_idem (◌∷◌ c s) = trim_right-keep_before c (trim_right s) (trim_right_idem s)

trim_left-keep_before :
    (c : Char) (s : String)
    → is_space (code c) ≡ false
    → trim_left (keep_before c s) ≡ keep_before c s
unfolding trim_left keep_before
trim_left-keep_before c [] h = rw (h, keep_before, trim_left, h) refl
trim_left-keep_before c (◌∷◌ d s) h = rw (h, trim_left) refl

trim_left_right : (s : String) → trim_left (trim_right (trim_left s)) ≡ trim_right (trim_left s)
unfolding trim_left trim_right
trim_left_right [] = refl
trim_left_right (◌∷◌ c s) = elim (Bool-cases (is_space (code c))) [
  | inl space ↦ rw (space, trim_left) (trim_left_right s)
  | inr other ↦ rw (other, trim_left, trim_right) (trim_left-keep_before c (trim_right s) other)
]

pub trim_space_idem : (s : String) → trim_space (trim_space s) ≡ trim_space s
unfolding trim_space
trim_space_idem s = ap trim_right (trim_left_right s) ∙ trim_right_idem (trim_left s)
