-- ===== src/Executor/Shell/Allowed.antt =====
-- executor.go: when `runShellCommand` starts a command.
use seagull_agent.Prelude.{
  pos, leb_ℤ, String, str_eq_iff, trim_space, is_abs, clean, ◌≡◌, ◌≢◌, refl, ◌⊎◌, inl, inr, true,
  false, none, some, List, [], ◌∷◌, length, Bool-cases,
}
use seagull_agent.Executor.Outcome.{Outcome, ok, Holds, Holds->>=, Outcome-cases}
use seagull_agent.Executor.Shell.{ShellRequest, ShellCommandPayload, parse_shell_command_payload}
use seagull_agent.Executor.Shell.Parsed.{IsBounded, parse_shell_command_payload-IsBounded}
use seagull_agent.Executor.Shell.Run.{
  Command, ShellHost, ShellPolicy, ShellRun, FileMode, entry_allows, shell_command_allowed,
  no_execute_bit, resolve_shell_executable, checked_mode, blocked, allowed_run, parsed_run,
  started_run, shell_command, run_shell_command, first_of,
}

-- Some entry of the allowlist passes.
abbrev pub Allows : ShellHost → String → List String → Type 0
Allows host executable [] = ⊥
Allows host executable (entry ∷ l) =
    ((is_abs (trim_space entry) ≡ true)
      × (host.eval_symlinks (clean (trim_space entry)) ≡ ok executable))
    ⊎ Allows host executable l

entry_allows-eq :
    (host : ShellHost) (executable entry : String)
    → entry_allows host.eval_symlinks executable entry ≡ true
    → (is_abs (trim_space entry) ≡ true)
      × (host.eval_symlinks (clean (trim_space entry)) ≡ ok executable)
unfolding entry_allows
entry_allows-eq host executable entry h =
    let path = clean (trim_space entry) in
    elim (Bool-cases (is_abs (trim_space entry))) [
      | inr relative ↦ cc (rw (entry_allows, relative) at h)
      | inl rooted ↦ elim (Outcome-cases (host.eval_symlinks path)) [
        | inl (e, bad) ↦ cc (rw (entry_allows, rooted, bad) at h)
        | inr (resolved, good) ↦
            let same_path : resolved ≡ executable =
              (str_eq_iff resolved executable).0 (rw (entry_allows, rooted, good) at h) in
            (rooted, rw (← same_path) good)
      ]
    ]

shell_command_allowed-Allows :
    (host : ShellHost) (executable : String) (l : List String)
    → shell_command_allowed host.eval_symlinks executable l ≡ true
    → Allows host executable l
unfolding shell_command_allowed
shell_command_allowed-Allows host executable [] h = cc h
shell_command_allowed-Allows host executable (entry ∷ l) h =
    elim (Bool-cases (entry_allows host.eval_symlinks executable entry)) [
      | inl passes ↦ inl (entry_allows-eq host executable entry passes)
      | inr not_this ↦ inr (
          shell_command_allowed-Allows host executable l
            (rw (shell_command_allowed, not_this) at h))
    ]

-- An executable file, by the answer of `stat`.
pub record IsExecutable (host : ShellHost) (path : String) : Type 0 where
  pub mode : FileMode
  pub found : host.stat path ≡ ok mode
  pub regular : mode.is_regular ≡ true
  pub executable : no_execute_bit mode.permissions ≡ false

checked_mode-eq-ok :
    (host : ShellHost) (path value : String)
    → checked_mode path (host.stat path) ≡ ok value
    → (path ≡ value) × IsExecutable host path
checked_mode-eq-ok host path value h = elim (Outcome-cases (host.stat path)) [
  | inl (e, bad) ↦ cc (rw bad at h)
  | inr (m, good) ↦ elim (Bool-cases m.is_regular) [
    | inr other ↦ cc (rw (good, other) at h)
    | inl regular ↦ elim (Bool-cases (no_execute_bit m.permissions)) [
      | inl plain ↦ cc (rw (good, regular, plain) at h)
      | inr executable ↦ (
        cc (rw (good, regular, executable) at h),
        record { mode = m; found = good; regular = regular; executable = executable },
      )
    ]
  ]
]

resolve_shell_executable-IsExecutable :
    (host : ShellHost) (value : String)
    → Holds (IsExecutable host) (resolve_shell_executable host value)
unfolding resolve_shell_executable
resolve_shell_executable-IsExecutable host value = Holds->>= _ _ λ found looked.
    Holds->>= _ _ λ path made. Holds->>= _ _ λ resolved followed. record {
      of_ok = λ v e. let (same_path, x) = checked_mode-eq-ok host resolved v e in rw same_path at x;
    }

-- What holds of a command that is started.
pub record IsPermitted (host : ShellHost) (policy : ShellPolicy) (c : Command) : Type 0 where
  pub enabled : policy.allow_shell_exec ≡ true
  pub allowed : Allows host c.executable policy.shell_exec_allowlist
  pub executable : IsExecutable host c.executable
  pub at_least : leb_ℤ (pos 1) c.timeout_seconds ≡ true
  pub at_most : leb_ℤ c.timeout_seconds (pos 300) ≡ true

-- A run: what it starts is permitted, it has a result exactly if it starts a command, and it writes
-- one audit line, or none with an error of the payload.
pub record IsGuarded (host : ShellHost) (policy : ShellPolicy) (r : ShellRun) : Type 0 where
  pub permitted : (c : Command) → r.started ≡ some c → IsPermitted host policy c
  pub refused : r.started ≡ none → (r.result ≡ none) × (r.error ≢ none)
  pub audited : r.error ≡ none → length r.audits ≡ 1

blocked-IsGuarded :
    (host : ShellHost) (policy : ShellPolicy) (command reason message : String)
    → IsGuarded host policy (blocked command reason message)
blocked-IsGuarded host policy command reason message = record {
  permitted = λ c e. absurd (cc e);
  refused = λ e. (refl, λ h. cc h);
  audited = λ e. absurd (cc e);
}

started_run-IsGuarded :
    (host : ShellHost) (policy : ShellPolicy) (p : ShellCommandPayload) (executable : String)
    → IsPermitted host policy (shell_command p executable)
    → IsGuarded host policy (started_run host p executable)
unfolding started_run
started_run-IsGuarded host policy p executable h = record {
  permitted =
      λ c e. let same_command : shell_command p executable ≡ c = cc e in rw same_command at h;
  refused = λ e. absurd (cc e);
  audited = λ e. refl;
}

parsed_run-IsGuarded :
    (host : ShellHost) (policy : ShellPolicy) (p : ShellCommandPayload)
    → IsBounded p
    → IsGuarded host policy (parsed_run host policy p)
unfolding parsed_run allowed_run shell_command
parsed_run-IsGuarded host policy p v = elim (Bool-cases policy.allow_shell_exec) [
  | inr disabled ↦ simp (disabled, parsed_run) (blocked-IsGuarded host policy _ _ _)
  | inl enabled ↦ elim (Outcome-cases (resolve_shell_executable host (first_of p.arguments))) [
    | inl (e, bad) ↦ simp (enabled, bad, parsed_run) (blocked-IsGuarded host policy _ _ _)
    | inr (executable, found) ↦
        let listed =
          shell_command_allowed host.eval_symlinks executable policy.shell_exec_allowlist in
        elim (Bool-cases listed) [
          | inr other ↦
              simp (enabled, found, other, parsed_run, allowed_run)
                (blocked-IsGuarded host policy _ _ _)
          | inl passes ↦
              simp (enabled, found, passes, parsed_run, allowed_run)
                (started_run-IsGuarded host policy p executable (record {
                  enabled = enabled;
                  allowed =
                      shell_command_allowed-Allows host executable policy.shell_exec_allowlist
                        passes;
                  executable =
                      (resolve_shell_executable-IsExecutable host (first_of p.arguments)).of_ok
                        executable found;
                  at_least = v.at_least;
                  at_most = v.at_most;
                }))
        ]
  ]
]

-- Whatever the payload and the answers of the system: run_shell_command starts a command only if
-- the agent allows shell commands, the executable is a regular file with an execute bit, some
-- absolute entry of the allowlist resolves to it, and the timeout is between 1 and 300 seconds;
-- where it starts none it gives an error and no result; and a run without an error is audited once.
pub run_shell_command-IsGuarded :
    (decode : String → Outcome ShellRequest) (encode : List String → Outcome String)
    (host : ShellHost) (policy : ShellPolicy) (raw : String)
    → IsGuarded host policy (run_shell_command decode encode host policy raw)
unfolding run_shell_command
run_shell_command-IsGuarded decode encode host policy raw =
    elim (Outcome-cases (parse_shell_command_payload decode encode raw)) [
      | inl (e, bad) ↦
          rw (bad, run_shell_command)
            (record {
              permitted = λ c h. absurd (cc h);
              refused = λ h. (refl, λ k. cc k);
              audited = λ h. absurd (cc h);
            })
      | inr (p, parsed) ↦
          rw (parsed, run_shell_command)
            (parsed_run-IsGuarded host policy p
              ((parse_shell_command_payload-IsBounded decode encode raw).of_ok p parsed))
    ]
