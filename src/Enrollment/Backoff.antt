-- ===== src/Enrollment/Backoff.antt =====
-- manager.go: `shouldAttemptIdentityRecovery`, `nextRecoveryBackoff`, `recordRecoveryFailure` and
-- `stableJitter`. A duration is a number of nanoseconds.
use Prim.Native.Nat.{bit_xor}
use Prim.Native.Char.{Char, code}
use Prim.Native.String.{[] as empty, ◌∷◌ as cons}
use seagull_agent.Prelude.{
  ℕ, zero, suc, ◌+◌, ◌-◌, ◌*◌, ◌/◌, ◌%◌, ◌^◌, ℤ, pos, ltb_ℤ, pos_part, eq_ℤ, ltb, leb, ◌==◌, String,
  str_append, itoa, contains, to_lower, trim_space, Bool, true, false, not, ◌||◌, List, [], ◌∷◌,
  ◌++◌, if◌then◌else◌,
}

unfoldable pub should_attempt_identity_recovery : Bool → String → ℤ → Bool
should_attempt_identity_recovery force_enroll_on_start err_text status =
    let et = to_lower (trim_space err_text) in
    if not force_enroll_on_start
    then false
    else if eq_ℤ status (pos 401)
    then true
    else if contains "status=401" et
    then true
    else if contains "remote error: tls:" et
    then contains "certificate required" et
      || contains "bad certificate" et
      || contains "expired certificate" et
      || contains "unknown certificate authority" et
    else contains "unknown or revoked agent" et
      || contains "invalid agent credential" et
      || contains "credential expired" et
      || contains "credential exhausted" et

abbrev pub second : ℕ
second = 1000000000

-- The loop; what is left of its rounds.
unfoldable pub doubled : ℕ → ℕ → ℕ
doubled zero wait = wait
doubled (suc rounds) wait =
    let rest = doubled rounds (wait * 2) in
    if leb (300 * second) (wait * 2) then 300 * second else rest

-- The bytes of a character, and of a text, in UTF-8.
unfoldable pub utf8_char : Char → List ℕ
utf8_char c =
    let n = code c in
    if ltb n 0x80
    then n ∷ []
    else if ltb n 0x800
    then (0xC0 + n / 64) ∷ (0x80 + n % 64) ∷ []
    else if ltb n 0x10000
    then (0xE0 + n / 4096) ∷ (0x80 + n / 64 % 64) ∷ (0x80 + n % 64) ∷ []
    else (0xF0 + n / 262144) ∷ (0x80 + n / 4096 % 64) ∷ (0x80 + n / 64 % 64) ∷ (0x80 + n % 64) ∷ []

unfoldable pub utf8 : String → List ℕ
utf8 empty = []
utf8 (cons c s) = utf8_char c ++ utf8 s

-- The hash of FNV-1a in 64 bits.
unfoldable pub fnv : ℕ → List ℕ → ℕ
fnv n [] = n
fnv n (b ∷ l) = fnv (bit_xor n b * 1099511628211 % 2 ^ 64) l

unfoldable pub stable_jitter : String → String → ℕ → ℕ
stable_jitter agent scope zero = 0
stable_jitter agent scope (suc m) =
    fnv 1469598103934665603 (utf8 (str_append agent (str_append "|" scope))) % suc m

unfoldable pub next_recovery_backoff : String → ℤ → ℕ
next_recovery_backoff agent failures =
    let at_least_one = if ltb_ℤ failures (pos 1) then pos 1 else failures in
    let wait = doubled (pos_part at_least_one - 1) (5 * second) in
    let jitter_max = if ltb (30 * second) (wait / 3) then 30 * second else wait / 3 in
    wait
    + stable_jitter agent (str_append "auth.recovery." (itoa (pos_part at_least_one))) jitter_max

-- The failures so far and the time of the next try, 0 being the zero time.
pub record Retry : Type 0 where
  pub recovery_failures : ℕ
  pub next_enroll_retry_at : ℕ

unfoldable pub record_recovery_failure : String → ℕ → ℕ → Retry
record_recovery_failure agent now failures = record {
  recovery_failures = suc failures;
  next_enroll_retry_at = now + next_recovery_backoff agent (pos (suc failures));
}

-- The test of RecoverIdentity.
unfoldable pub is_backed_off : Bool → ℕ → Retry → Bool
is_backed_off force now r =
    if force || r.next_enroll_retry_at == 0 then false else ltb now r.next_enroll_retry_at
