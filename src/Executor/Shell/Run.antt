-- ===== src/Executor/Shell/Run.antt =====
-- executor.go: `shellCommandAllowed`, `resolveShellExecutable`, `auditShellExec` and
-- `runShellCommand`. `ShellHost` is what the file system answers and how a command that is started
-- ends.
use seagull_agent.Prelude.{
  ℕ, suc, ◌/◌, ◌%◌, ℤ, pos, negsuc, String, str_eq, str_append, trim_space, is_abs, clean, itoa,
  Bool, true, false, not, ◌||◌, ◌&&◌, Option, none, some, List, [], ◌∷◌, ◌==◌, if◌then◌else◌,
}
use seagull_agent.Executor.Outcome.{Outcome, ok, fail, ◌>>=◌}
use seagull_agent.Executor.Shell.{
  ShellRequest, ShellCommandPayload, parse_shell_command_payload, output_text,
}
use seagull_agent.Executor.Shell.Bounded.{write_all, empty_output}

-- What exec.Cmd is given: the executable, its arguments, the directory and the seconds it has.
pub record Command : Type 0 where
  pub executable : String
  pub arguments : List String
  pub dir : String
  pub timeout_seconds : ℤ

-- The error of cmd.Run: none, an exit status, or another error.
pub data Ending : Type 0 where
  finished not_started : Ending
  exited : ℤ → Ending

pub record Execution : Type 0 where
  pub stdout : List (List ℕ)
  pub stderr : List (List ℕ)
  pub ending : Ending
  pub timed_out : Bool
  pub duration_ms : ℕ

-- Whether a file is regular, and its permission bits.
pub record FileMode : Type 0 where
  pub is_regular : Bool
  pub permissions : ℕ

pub record ShellHost : Type 0 where
  pub look_path : String → Outcome String
  pub absolute : String → Outcome String
  pub eval_symlinks : String → Outcome String
  pub stat : String → Outcome FileMode
  pub quote : String → String
  pub run : Command → Execution

pub record ShellPolicy : Type 0 where
  pub allow_shell_exec : Bool
  pub shell_exec_allowlist : List String

pub record ShellReport : Type 0 where
  pub command : String
  pub executable : String
  pub exit_code : ℤ
  pub stdout : List ℕ
  pub stderr : List ℕ
  pub timed_out : Bool
  pub duration_ms : ℕ
  pub working_dir : String

-- One line of the audit log: the reason is there where the command is blocked.
pub record Audit : Type 0 where
  pub command : String
  pub exit_code : ℤ
  pub timed_out : Bool
  pub blocked_reason : String

-- What `runShellCommand` does and returns.
pub record ShellRun : Type 0 where
  pub audits : List Audit
  pub started : Option Command
  pub result : Option ShellReport
  pub error : Option String

-- One entry of the allowlist.
unfoldable pub entry_allows : (String → Outcome String) → String → String → Bool
entry_allows eval_symlinks executable entry =
    is_abs (trim_space entry) && elim (eval_symlinks (clean (trim_space entry))) [
      | fail e ↦ false
      | ok resolved ↦ str_eq resolved executable
    ]

unfoldable pub shell_command_allowed : (String → Outcome String) → String → List String → Bool
shell_command_allowed eval_symlinks executable [] = false
shell_command_allowed eval_symlinks executable (entry ∷ l) =
    entry_allows eval_symlinks executable entry || shell_command_allowed eval_symlinks executable l

-- `mode & 0o111 == 0`
unfoldable pub no_execute_bit : ℕ → Bool
no_execute_bit mode = mode % 2 == 0 && mode / 8 % 2 == 0 && mode / 64 % 2 == 0

-- fmt.Errorf with %w after a text.
abbrev pub wrap : String → Outcome String → Outcome String
wrap message (ok a) = ok a
wrap message (fail e) = fail (str_append message e)

abbrev pub checked_mode : String → Outcome FileMode → Outcome String
checked_mode path (fail e) = fail (str_append "stat command executable: " e)
checked_mode path (ok m) =
    if not m.is_regular || no_execute_bit m.permissions
    then fail "command executable is not an executable regular file"
    else ok path

unfoldable pub resolve_shell_executable : ShellHost → String → Outcome String
resolve_shell_executable host value = do
  let found = (← wrap "resolve command executable: " (host.look_path value))
  let path = (← wrap "resolve command executable path: " (host.absolute found))
  let resolved = (← wrap "resolve command executable symlink: " (host.eval_symlinks path))
  checked_mode resolved (host.stat resolved)

abbrev pub exit_code_of : Ending → ℤ
exit_code_of finished = pos 0
exit_code_of not_started = negsuc 0
exit_code_of (exited code) = code

abbrev pub decimal_ℤ : ℤ → String
decimal_ℤ (pos n) = itoa n
decimal_ℤ (negsuc n) = str_append "-" (itoa (suc n))

unfoldable pub shell_error : Bool → Ending → Option String
shell_error true ending = some "command timed out"
shell_error false finished = none
shell_error false ending =
    some (str_append "command exited with status " (decimal_ℤ (exit_code_of ending)))

abbrev pub blocked : String → String → String → ShellRun
blocked command reason message = record {
  audits =
      record {
        command = command;
        exit_code = negsuc 0;
        timed_out = false;
        blocked_reason = trim_space reason;
      }
      ∷ [];
  started = none;
  result = none;
  error = some message;
}

-- `p.arguments[0]` and `p.arguments[1:]`, of arguments that are not empty.
abbrev pub first_of : List String → String
first_of [] = ""
first_of (a ∷ l) = a

abbrev pub rest_of : List String → List String
rest_of [] = []
rest_of (a ∷ l) = l

unfoldable pub shell_command : ShellCommandPayload → String → Command
shell_command p executable = record {
  executable = executable;
  arguments = rest_of p.arguments;
  dir = p.working_dir;
  timeout_seconds = p.timeout_seconds;
}

-- From the start of the command on.
unfoldable pub started_run : ShellHost → ShellCommandPayload → String → ShellRun
started_run host p executable =
    let done = host.run (shell_command p executable) in
    record {
      audits =
          record {
            command = p.command;
            exit_code = exit_code_of done.ending;
            timed_out = done.timed_out;
            blocked_reason = "";
          }
          ∷ [];
      started = some (shell_command p executable);
      result = some (record {
        command = p.command;
        executable = executable;
        exit_code = exit_code_of done.ending;
        stdout = output_text (write_all done.stdout empty_output);
        stderr = output_text (write_all done.stderr empty_output);
        timed_out = done.timed_out;
        duration_ms = done.duration_ms;
        working_dir = p.working_dir;
      });
      error = shell_error done.timed_out done.ending;
    }

-- Once the executable is known.
unfoldable pub allowed_run : ShellHost → ShellPolicy → ShellCommandPayload → String → ShellRun
allowed_run host policy p executable =
    if not (shell_command_allowed host.eval_symlinks executable policy.shell_exec_allowlist)
    then blocked p.command "command not permitted by allowlist" (
        str_append "executable "
          (str_append (host.quote executable) " is not permitted by the shell exec allowlist"))
    else started_run host p executable

-- Once the payload is parsed.
unfoldable pub parsed_run : ShellHost → ShellPolicy → ShellCommandPayload → ShellRun
parsed_run host policy p =
    if not policy.allow_shell_exec
    then blocked p.command "shell exec disabled by agent config"
        "shell exec is disabled on this agent"
    else elim (resolve_shell_executable host (first_of p.arguments)) [
      | fail e ↦ blocked p.command e e
      | ok executable ↦ allowed_run host policy p executable
    ]

unfoldable pub run_shell_command :
    (String → Outcome ShellRequest)
    → (List String → Outcome String)
    → ShellHost
    → ShellPolicy
    → String
    → ShellRun
run_shell_command decode encode host policy raw =
    elim (parse_shell_command_payload decode encode raw) [
      | fail e ↦ record { audits = []; started = none; result = none; error = some e }
      | ok p ↦ parsed_run host policy p
    ]
