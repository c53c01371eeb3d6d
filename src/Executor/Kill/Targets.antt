-- ===== src/Executor/Kill/Targets.antt =====
-- executor.go: `resolveKillTargets`, `processNameByPID`, `processMatchesName` and `runKillProcess`.
use Prim.Native.String.{}
use seagull_agent.Prelude.{
  ℕ, ℤ, pos, eq_ℤ, leb_ℤ, ltb_ℤ, String, str_eq, trim_space, atoi, base, split_on, Bool, false, not,
  ◌||◌, ◌&&◌, Option, none, some, List, [], ◌∷◌, length, if◌then◌else◌,
}
use seagull_agent.Executor.Kill.{
  KillProcessPayload, KillRequest, KillTarget, DirEntry, Host, parse_kill_process_payload,
}
use seagull_agent.Executor.Outcome.{Outcome, ok, fail, ◌>>=◌}
use seagull_agent.Spool.Sort.{sort}

unfoldable pub process_name_by_pid : Host → ℤ → String
process_name_by_pid host pid = elim (host.comm pid) [ none ↦ "" | some text ↦ trim_space text ]

-- The first argument of a command line that is read: up to the first zero byte.
abbrev pub first_argument : List String → String
first_argument [] = ""
first_argument (w ∷ l) = trim_space w

abbrev pub names_command : String → Option String → Bool
names_command want none = false
names_command want (some line) =
    let first = first_argument (split_on 0 line) in
    not (str_eq line "") && not (str_eq first "") && str_eq (base first) want

unfoldable pub process_matches_name : Host → ℤ → String → String → Bool
process_matches_name host pid comm want =
    (not (str_eq comm "") && str_eq comm want) || names_command want (host.cmdline pid)

-- The pid of a directory of /proc, unless it is that of init or of the agent.
unfoldable pub candidate_pid : Host → DirEntry → Option ℤ
candidate_pid host entry = if not entry.is_dir then none else elim (atoi entry.name) [
  | none ↦ none
  | some pid ↦ if leb_ℤ pid (pos 1) || eq_ℤ pid host.self then none else some pid
]

abbrev pub protected_process : String
protected_process = "refusing to target a protected system process"

-- The loop over the entries of /proc.
unfoldable pub matching_targets : Host → String → List DirEntry → Outcome (List KillTarget)
matching_targets host want [] = ok []
matching_targets host want (entry ∷ l) =
    let rest = matching_targets host want l in
    elim (candidate_pid host entry) [
      | none ↦ rest
      | some pid ↦
          let name = process_name_by_pid host pid in
          if process_matches_name host pid name want
          then (if eq_ℤ pid host.parent_pid
              then fail protected_process
              else (rest >>= λ targets. ok (record { pid = pid; name = name } ∷ targets)))
          else rest
    ]

abbrev pub pid_is_less : KillTarget → KillTarget → Bool
pid_is_less a b = ltb_ℤ a.pid b.pid

unfoldable pub targets_by_pid : Host → ℤ → Outcome (List KillTarget)
targets_by_pid host pid =
    if eq_ℤ pid host.self
    then fail "refusing to target the agent process"
    else if eq_ℤ pid host.parent_pid
    then fail protected_process
    else ok (record { pid = pid; name = process_name_by_pid host pid } ∷ [])

unfoldable pub targets_by_name : Host → String → Outcome (List KillTarget)
targets_by_name host want = host.proc >>= λ entries.
    matching_targets host want entries >>= λ targets. ok (sort pid_is_less targets)

unfoldable pub resolve_kill_targets : Host → KillProcessPayload → Outcome (List KillTarget)
resolve_kill_targets host p =
    if p.by_name then targets_by_name host p.name else targets_by_pid host p.pid

-- One entry of `killed`, and the signal that is sent for it, if one is.
pub record Attempt : Type 0 where
  pub target : KillTarget
  pub signalled : Option ℕ
  pub error : Option String

pub record KillReport : Type 0 where
  pub signal : String
  pub matched : ℕ
  pub killed : List Attempt
  pub errors : List (ℤ × String)
  pub dry_run : Bool

unfoldable pub attempt : Host → KillProcessPayload → KillTarget → Attempt
attempt host p t =
    if p.dry_run
    then record { target = t; signalled = none; error = none }
    else record { target = t; signalled = some p.signal; error = host.kill t.pid p.signal }

-- The loop over the targets: `killed` and `failures`.
unfoldable pub attempts :
    Host → KillProcessPayload → List KillTarget → List Attempt × List (ℤ × String)
attempts host p [] = ([], [])
attempts host p (t ∷ l) =
    let (killed, failures) = attempts host p l in
    let a = attempt host p t in
    (a ∷ killed, elim a.error [ none ↦ failures | some e ↦ (t.pid, e) ∷ failures ])

unfoldable pub run_kill_process :
    (String → Outcome KillRequest) → Host → String → Outcome KillReport
run_kill_process decode host raw = do
  let p = (← parse_kill_process_payload decode raw)
  let targets = (← resolve_kill_targets host p)
  let (killed, failures) = attempts host p targets
  ok (record {
    signal = p.signal_name;
    matched = length targets;
    killed = killed;
    errors = failures;
    dry_run = p.dry_run;
  })
