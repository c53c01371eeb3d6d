-- ===== src/Executor/Quarantine.antt =====
-- executor.go: the payload of quarantine_file, and its checks of the path.
pub mod Move
pub mod Kept
pub mod Protected
use seagull_agent.Prelude.{
  ℕ, String, str_eq, str_append, trim_space, is_abs, is_blank, clean, has_prefix, Bool, true, false,
  not, ◌||◌, Option, none, some, List, [], ◌∷◌, if◌then◌else◌,
}
use seagull_agent.Executor.Outcome.{Outcome, ok, fail, ◌>>=◌, ◌>>◌, refuse, or_else, no_payload}

pub record QuarantineFilePayload : Type 0 where
  pub path : String
  pub compute_hash : Bool
  pub dry_run : Bool

-- The struct that the payload is decoded into.
pub record QuarantineRequest : Type 0 where
  pub path : Option String
  pub compute_hash : Option Bool
  pub dry_run : Option Bool

abbrev pub quarantine_forbidden_prefixes : List String
quarantine_forbidden_prefixes =
    "/proc" ∷ "/sys" ∷ "/dev" ∷ "/run" ∷ "/etc" ∷ "/boot" ∷ "/usr" ∷ "/bin" ∷ "/sbin" ∷ "/lib"
    ∷ "/lib64" ∷ "/var/lib/seagull" ∷ []

abbrev pub is_missing : Option String → Bool
is_missing none = true
is_missing (some s) = is_blank s

unfoldable pub parse_quarantine_file_payload :
    (String → Outcome QuarantineRequest) → String → Outcome QuarantineFilePayload
parse_quarantine_file_payload decode raw = do
  refuse (no_payload raw) "payload.path is required"
  let request = (← decode raw)
  refuse (is_missing request.path) "payload.path is required"
  ok (record {
    path = clean (trim_space (or_else "" request.path));
    compute_hash = or_else true request.compute_hash;
    dry_run = or_else false request.dry_run;
  })

-- `path == prefix || strings.HasPrefix(path, prefix+"/")`
unfoldable pub lies_below : String → String → Bool
lies_below path prefix = str_eq path prefix || has_prefix (str_append prefix "/") path

-- The loop over the forbidden prefixes: the first that the path lies below.
unfoldable pub forbidden_prefix : String → List String → Option String
forbidden_prefix path [] = none
forbidden_prefix path (prefix ∷ l) =
    if lies_below path prefix then some prefix else forbidden_prefix path l

unfoldable pub validate_quarantine_path : String → Outcome (Unit {0})
validate_quarantine_path path =
    if not (is_abs path)
    then fail "payload.path must be absolute"
    else elim (forbidden_prefix path quarantine_forbidden_prefixes) [
      | none ↦ ok tt
      | some prefix ↦ fail (str_append "payload.path is in a protected location: " prefix)
    ]

abbrev pub default_quarantine_dir : String
default_quarantine_dir = "/var/lib/seagull/quarantine"

-- `strings.TrimSpace(opts.QuarantineDir)`, or the default.
unfoldable pub quarantine_dir : String → Outcome String
quarantine_dir configured =
    let dir = if is_blank configured then default_quarantine_dir else trim_space configured in
    if not (is_abs dir) then fail "local quarantine directory must be absolute" else ok (clean dir)
