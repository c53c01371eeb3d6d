-- ===== src/Control/Lifecycle.antt =====
-- The life of one action, as a transition system: the phase of its entry in the journal and how
-- often it was executed.
use seagull_agent.Prelude.{ℕ, suc, ℤ, eq_ℤ, Option, none, some, List, [], ◌∷◌, if◌then◌else◌}
use seagull_agent.Control.{Service}
use seagull_agent.Journal.Phases.{phase_at}
use seagull_agent.Journal.State.{Phase, accepted, executing, terminal}

abbrev pub count : ℤ → List ℤ → ℕ
count k [] = 0
count k (i ∷ l) = if eq_ℤ i k then suc (count k l) else count k l

-- An entry is begun, marked, completed, and deleted; between the mark and the completion the action
-- is executed once, or not at all where the mark failed half-way.
infix 40 ◌⟶◌ ◌⟶*◌
pub data ◌⟶◌ : Option Phase × ℕ → Option Phase × ℕ → Type 0 where
  begins : (n : ℕ) → (none, n) ⟶ (some accepted, n)
  marks : (n : ℕ) → (some accepted, n) ⟶ (some executing, n)
  executes : (n : ℕ) → (some accepted, n) ⟶ (some executing, suc n)
  completes : (n : ℕ) → (some executing, n) ⟶ (some terminal, n)
  delivers : (n : ℕ) → (some terminal, n) ⟶ (none, n)

pub data ◌⟶*◌ : Option Phase × ℕ → Option Phase × ℕ → Type 0 where
  here : (x : Option Phase × ℕ) → x ⟶* x
  further : {x y z : Option Phase × ℕ} → x ⟶ y → y ⟶* z → x ⟶* z

pub ⟶*-trans : {x y z : Option Phase × ℕ} → x ⟶* y → y ⟶* z → x ⟶* z
⟶*-trans (here x) q = q
⟶*-trans (further s p) q = further s (⟶*-trans p q)

-- The life of the action `k` in a service.
abbrev pub life : {W : Type 0} → ℤ → Service W → Option Phase × ℕ
life k s = (phase_at k s.journal, count k s.executed)
