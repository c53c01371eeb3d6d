-- ===== src/Executor/Shell/Parsed.antt =====
-- executor.go: what `parseShellCommandPayload` accepts.
use Prim.Native.String.{[] as no_text, ◌∷◌ as cons_char}
use text.Mathlib.TextLemmas.{cons-append}
use seagull_agent.Prelude.{
  ℕ, ◌+◌, ◌≤◌, ◌<◌, ℤ, pos, leb_ℤ, String, str_eq, trim_space, is_abs, is_blank, clean,
  if◌then◌else◌, join, elements, byte_length, contains_code, ◌≡◌, refl, ◌⊎◌, inl, inr, Bool, true,
  false, Option, none, some, List, [], ◌∷◌, length, arith, All, Bool-cases, str_append,
}
use seagull_agent.Executor.Outcome.{
  Outcome, Holds, Holds-ok, Holds-fail, Holds->>=, Holds-refuse, clamp-bounds,
}
use seagull_agent.Executor.Shell.{
  ShellRequest, ShellCommandPayload, check_arguments, checked_dir, timeout_or_default,
  parse_shell_command_payload, max_shell_arguments, max_shell_argument_bytes,
  max_shell_command_bytes,
}

-- An argument that a command may have.
pub record IsArgument (a : String) : Type 0 where
  pub not_empty : str_eq a "" ≡ false
  pub no_null : contains_code 0 a ≡ false
  pub short : byte_length a ≤ max_shell_argument_bytes

unfoldable pub total_bytes : List String → ℕ
total_bytes [] = 0
total_bytes (a ∷ l) = byte_length a + total_bytes l

pub record IsBounded (p : ShellCommandPayload) : Type 0 where
  pub some_argument : 0 < length p.arguments
  pub few : length p.arguments ≤ max_shell_arguments
  pub arguments : All IsArgument p.arguments
  pub total : total_bytes p.arguments ≤ max_shell_command_bytes
  pub at_least : leb_ℤ (pos 1) p.timeout_seconds ≡ true
  pub at_most : leb_ℤ p.timeout_seconds (pos 300) ≡ true
  pub dir : (p.working_dir ≡ "") ⊎ (is_abs p.working_dir ≡ true)

abbrev Checked : List String → ℕ → ℕ → Type 0
Checked l total n = All IsArgument l × (n ≡ total + total_bytes l)

check_arguments-Checked :
    (l : List String) (total : ℕ) → Holds (Checked l total) (check_arguments l total)
unfolding check_arguments total_bytes
check_arguments-Checked [] total = Holds-ok (tt, omega arith)
check_arguments-Checked (a ∷ l) total = Holds-refuse _ _ _ λ some_text.
    Holds-refuse _ _ _ λ no_null. Holds-refuse _ _ _ λ short. record {
      of_ok = λ n e.
          let (rest, sum) = (check_arguments-Checked l (total + byte_length a)).of_ok n e in
          (
            (record { not_empty = some_text; no_null = no_null; short = ground arith }, rest),
            omega (arith, sum),
          );
    }

timeout-bounds :
    (o : Option ℤ)
    → (leb_ℤ (pos 1) (timeout_or_default o) ≡ true)
      × (leb_ℤ (timeout_or_default o) (pos 300) ≡ true)
unfolding timeout_or_default
timeout-bounds none = (refl, refl)
timeout-bounds (some n) = clamp-bounds n (pos 1) (pos 300) refl

is_abs-append : (s t : String) → is_abs s ≡ true → is_abs (str_append s t) ≡ true
unfolding is_abs
is_abs-append no_text t h = cc h
is_abs-append (cons_char c s) t h = rw (cons-append c s t) h

rooted_path : (l : List String) → is_abs (str_append "/" (join "/" l)) ≡ true
unfolding is_abs
rooted_path l = is_abs-append "/" (join "/" l) refl

if_abs : (b : Bool) (x y : String) → b ≡ true → is_abs x ≡ true → is_abs (if b then x else y) ≡ true
if_abs b x y h k = rw h k

clean-is_abs : (s : String) → is_abs s ≡ true → is_abs (clean s) ≡ true
unfolding clean
clean-is_abs s h = if_abs (is_abs s) _ _ h (rooted_path (elements s))

checked_dir-abs :
    (o : Option String) → Holds (λ dir. (dir ≡ "") ⊎ (is_abs dir ≡ true)) (checked_dir o)
unfolding checked_dir
checked_dir-abs none = Holds-ok (inl refl)
checked_dir-abs (some dir) = elim (Bool-cases (is_blank dir)) [
  | inl blank ↦ rw blank (Holds-ok (inl refl))
  | inr given ↦ elim (Bool-cases (is_abs (trim_space dir))) [
    | inl rooted ↦ rw (given, rooted) (Holds-ok (inr (clean-is_abs (trim_space dir) rooted)))
    | inr relative ↦ rw (given, relative) Holds-fail
  ]
]

-- What `parseShellCommandPayload` accepts, whatever the decoder reads: between 1 and 128 arguments,
-- each without a zero byte and of 1 to 4096 bytes, of at most 65536 bytes together, a timeout
-- between 1 and 300 seconds, and no directory or an absolute one.
pub parse_shell_command_payload-IsBounded :
    (decode : String → Outcome ShellRequest) (encode : List String → Outcome String) (raw : String)
    → Holds IsBounded (parse_shell_command_payload decode encode raw)
unfolding parse_shell_command_payload
parse_shell_command_payload-IsBounded decode encode raw = Holds-refuse _ _ _ λ given.
    Holds->>= _ _ λ q decoded. Holds->>= _ _ λ l requested. Holds-refuse _ _ _ λ some_argument.
      Holds-refuse _ _ _ λ few. Holds->>= _ _ λ n checked. Holds-refuse _ _ _ λ total.
        Holds->>= _ _ λ c encoded. Holds->>= _ _ λ dir placed.
          let (each, sum) = (check_arguments-Checked l 0).of_ok n checked in
          let (low, high) = timeout-bounds q.timeout_seconds in
          Holds-ok (record {
            some_argument = ground arith;
            few = ground arith;
            arguments = each;
            total = ground (arith, sum);
            at_least = low;
            at_most = high;
            dir = (checked_dir-abs q.working_dir).of_ok dir placed;
          })
