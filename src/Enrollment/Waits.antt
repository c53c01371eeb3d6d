-- ===== src/Enrollment/Waits.antt =====
-- manager.go: how long a failed recovery waits.
use native.Mathlib.Nat.{mul_assoc, mul_comm, pow-suc, one-le-pow, le-mul_of_pos_right, mod-lt}
use seagull_agent.Prelude.{
  ℕ, zero, suc, ◌+◌, ◌-◌, ◌*◌, ◌/◌, ◌^◌, ◌≤◌, ◌<◌, ◌==◌, ◌||◌, pos, ltb_ℤ, pos_part, ltb, leb,
  String, str_append, ◌≡◌, sym, ap, ◌∙◌, inl, inr, true, false, Bool-cases, arith, if◌then◌else◌,
}
use seagull_agent.Enrollment.Backoff.{
  second, doubled, stable_jitter, next_recovery_backoff, record_recovery_failure, is_backed_off,
  fnv, utf8,
}

abbrev pub min : ℕ → ℕ → ℕ
min a b = if leb a b then a else b

min_above : (x : ℕ) → 300 * second ≤ x → 300 * second ≡ min x (300 * second)
min_above x h = ground arith

min_within : (x : ℕ) → x ≤ 300 * second → x ≡ min (x * 1) (300 * second)
min_within x h = ground arith

twice : (wait rounds : ℕ) → wait * 2 * 2 ^ rounds ≡ wait * 2 ^ suc rounds
twice wait rounds =
    mul_assoc wait 2 (2 ^ rounds)
    ∙ ap (λ x. wait * x) (mul_comm 2 (2 ^ rounds) ∙ sym (pow-suc 2 rounds))

doubled-min :
    (rounds wait : ℕ)
    → wait ≤ 300 * second
    → doubled rounds wait ≡ min (wait * 2 ^ rounds) (300 * second)
unfolding doubled
doubled-min zero wait high = min_within wait high
doubled-min (suc rounds) wait high = elim (Bool-cases (leb (300 * second) (wait * 2))) [
  | inl reached ↦
      let grown : wait * 2 ≤ wait * 2 * 2 ^ rounds =
        le-mul_of_pos_right (wait * 2) (one-le-pow rounds 2 (ground arith)) in
      rw (reached, doubled)
        (min_above (wait * 2 ^ suc rounds)
          (rw (sym (twice wait rounds)) (at_least _ _ reached grown)))
  | inr below ↦
      rw (below, doubled)
        (doubled-min rounds (wait * 2) (under _ below)
          ∙ ap (λ x. min x (300 * second)) (twice wait rounds))
]
  where
    at_least : (x y : ℕ) → leb (300 * second) x ≡ true → x ≤ y → 300 * second ≤ y
    at_least x y h g = ground arith

    under : (x : ℕ) → leb (300 * second) x ≡ false → x ≤ 300 * second
    under x h = ground arith

stable_jitter-bound : (agent scope : String) (max : ℕ) → stable_jitter agent scope max ≤ max
unfolding stable_jitter
stable_jitter-bound agent scope zero = ground arith
stable_jitter-bound agent scope (suc m) = below (
    mod-lt (fnv 1469598103934665603 (utf8 (str_append agent (str_append "|" scope))))
      (ground arith))
  where
    below : {x : ℕ} → x < suc m → x ≤ suc m
    below h = ground arith

abbrev jitter_max : ℕ → ℕ
jitter_max wait = if ltb (30 * second) (wait / 3) then 30 * second else wait / 3

with_jitter :
    (agent scope : String) (wait : ℕ)
    → (wait ≤ wait + stable_jitter agent scope (jitter_max wait))
      × (wait + stable_jitter agent scope (jitter_max wait) ≤ wait + 30 * second)
      × (3 * (wait + stable_jitter agent scope (jitter_max wait)) ≤ 4 * wait)
with_jitter agent scope wait =
    bounded (stable_jitter agent scope (jitter_max wait))
      (stable_jitter-bound agent scope (jitter_max wait))
  where
    bounded :
        (j : ℕ)
        → j ≤ jitter_max wait
        → (wait ≤ wait + j) × (wait + j ≤ wait + 30 * second) × (3 * (wait + j) ≤ 4 * wait)
    bounded j h = ground arith

same_rounds :
    (failures : ℕ)
    → doubled
        (pos_part (if ltb_ℤ (pos failures) (pos 1) then pos 1 else pos failures) - 1)
        (5 * second)
      ≡ doubled (failures - 1) (5 * second)
same_rounds failures = ap (λ r. doubled r (5 * second)) (rounds failures)
  where
    rounds : (n : ℕ) → pos_part (if ltb_ℤ (pos n) (pos 1) then pos 1 else pos n) - 1 ≡ n - 1
    rounds n = ground arith

-- The wait after a number of failures is at least five seconds doubled for each failure after the
-- first, up to five minutes, and the jitter adds at most 30 seconds and at most a third.
pub next_recovery_backoff-bounds :
    (agent : String) (failures : ℕ)
    → let wait = min (5 * second * 2 ^ (failures - 1)) (300 * second) in
      (wait ≤ next_recovery_backoff agent (pos failures))
      × (next_recovery_backoff agent (pos failures) ≤ wait + 30 * second)
      × (3 * next_recovery_backoff agent (pos failures) ≤ 4 * wait)
unfolding next_recovery_backoff
next_recovery_backoff-bounds agent failures =
    let waited = same_rounds failures ∙ doubled-min (failures - 1) (5 * second) (ground arith) in
    rw (next_recovery_backoff, waited) (with_jitter agent _ _)

-- After a recorded failure a recovery that is not forced is refused for the next five seconds, and
-- is not refused from 330 seconds on.
pub record_recovery_failure-backs_off :
    (agent : String) (now failures later : ℕ)
    → let r = record_recovery_failure agent now failures in
      (later < now + 5 * second → is_backed_off false later r ≡ true)
      × (now + 330 * second ≤ later → is_backed_off false later r ≡ false)
unfolding record_recovery_failure is_backed_off
record_recovery_failure-backs_off agent now failures later =
    let (low, high, third) = next_recovery_backoff-bounds agent (suc failures) in
    let grown : 1 ≤ 2 ^ (suc failures - 1) = one-le-pow (suc failures - 1) 2 (ground arith) in
    let floor =
      at_least (5 * second * 2 ^ (suc failures - 1)) (le-mul_of_pos_right (5 * second) grown) in
    until (next_recovery_backoff agent (pos (suc failures)))
      (min (5 * second * 2 ^ (suc failures - 1)) (300 * second)) low high floor
      (at_most (5 * second * 2 ^ (suc failures - 1)))
  where
    at_least : (x : ℕ) → 5 * second ≤ x → 5 * second ≤ min x (300 * second)
    at_least x h = ground arith

    at_most : (x : ℕ) → min x (300 * second) ≤ 300 * second
    at_most x = ground arith

    until :
        (b w : ℕ)
        → w ≤ b
        → b ≤ w + 30 * second
        → 5 * second ≤ w
        → w ≤ 300 * second
        → (later < now + 5 * second
            → (if (false || now + b == 0) then false else ltb later (now + b)) ≡ true)
          × (now + 330 * second ≤ later
              → (if (false || now + b == 0) then false else ltb later (now + b)) ≡ false)
    until b w low high floor ceiling = (λ h. ground arith, λ h. ground arith)
