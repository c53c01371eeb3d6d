-- ===== src/Executor/Kill.antt =====
-- executor.go: the payload of kill_process, `parseSignal`, `resolveKillTargets` and
-- `runKillProcess`. `Host` is what the process reads of itself and of /proc, and what each signal
-- answers.
pub mod Targets
pub mod Safety
use seagull_agent.Prelude.{
  ℕ, ℤ, pos, eq_ℤ, leb_ℤ, ltb_ℤ, String, [] as empty, ◌∷◌ as cons_char, str_eq, str_append,
  trim_space, is_blank, to_upper, has_prefix, atoi, base, split_on, Bool, true, false, not, ◌||◌,
  ◌&&◌, Option, none, some, List, [], ◌∷◌, map, length, if◌then◌else◌,
}
use seagull_agent.Executor.Outcome.{
  Outcome, ok, fail, ◌>>=◌, ◌>>◌, refuse, require, or_else, no_payload,
}
use seagull_agent.Spool.Sort.{sort}

pub record KillProcessPayload : Type 0 where
  pub pid : ℤ
  pub name : String
  pub by_name : Bool
  pub signal : ℕ
  pub signal_name : String
  pub dry_run : Bool

-- The struct that the payload is decoded into.
pub record KillRequest : Type 0 where
  pub pid : Option ℤ
  pub name : Option String
  pub signal : Option String
  pub dry_run : Option Bool

pub record KillTarget : Type 0 where
  pub pid : ℤ
  pub name : String

pub record DirEntry : Type 0 where
  pub is_dir : Bool
  pub name : String

pub record Host : Type 0 where
  pub self : ℤ
  pub parent_pid : ℤ
  pub proc : Outcome (List DirEntry)
  pub comm : ℤ → Option String
  pub cmdline : ℤ → Option String
  pub kill : ℤ → ℕ → Option String

abbrev pub known_signals : List (String × ℕ)
known_signals =
    ("SIGTERM", 15)
    ∷ ("SIGKILL", 9)
    ∷ ("SIGINT", 2)
    ∷ ("SIGHUP", 1)
    ∷ ("SIGQUIT", 3)
    ∷ ("SIGSTOP", 19)
    ∷ ("SIGCONT", 18)
    ∷ ("SIGUSR1", 10)
    ∷ ("SIGUSR2", 12)
    ∷ []

unfoldable pub signal_named : String → List (String × ℕ) → Option ℕ
signal_named s [] = none
signal_named s ((name, n) ∷ l) = if str_eq name s then some n else signal_named s l

abbrev pub with_sig : String → String
with_sig s = if has_prefix "SIG" s then s else str_append "SIG" s

unfoldable pub parse_signal : Option String → Outcome (ℕ × String)
parse_signal none = ok (15, "SIGTERM")
parse_signal (some raw) =
    if is_blank raw
    then ok (15, "SIGTERM")
    else (let s = with_sig (to_upper (trim_space raw)) in
        elim (signal_named s known_signals) [
          | none ↦ fail (str_append "unsupported signal: " (trim_space raw))
          | some n ↦ ok (n, s)
        ])

-- `payload.Target.Name != nil && strings.TrimSpace(*payload.Target.Name) != ""`
abbrev pub is_given : Option String → Bool
is_given none = false
is_given (some s) = not (is_blank s)

abbrev pub is_some : Option ℤ → Bool
is_some none = false
is_some (some n) = true

abbrev pub same : Bool → Bool → Bool
same true b = b
same false b = not b

-- The target of a decoded payload: its pid, or 0 and its name.
unfoldable pub kill_target : Option ℤ → Option String → Outcome (ℤ × String × Bool)
kill_target (some n) name =
    if leb_ℤ n (pos 1) then fail "payload.target.pid must be greater than 1" else ok (n, "", false)
kill_target none name = ok (pos 0, trim_space (or_else "" name), true)

unfoldable pub parse_kill_process_payload :
    (String → Outcome KillRequest) → String → Outcome KillProcessPayload
parse_kill_process_payload decode raw = do
  refuse (no_payload raw) "payload.target is required"
  let request = (← decode raw)
  refuse (same (is_some request.pid) (is_given request.name))
      "payload.target requires exactly one of pid or name"
  let (pid, name, by_name) = (← kill_target request.pid request.name)
  let (signal, signal_name) = (← parse_signal request.signal)
  ok (record {
    pid = pid;
    name = name;
    by_name = by_name;
    signal = signal;
    signal_name = signal_name;
    dry_run = or_else false request.dry_run;
  })
