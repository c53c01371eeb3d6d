-- ===== src/Executor/Shell.antt =====
-- executor.go: the payload of run_shell_command and `boundedOutput`. An output is its bytes.
pub mod Bounded
pub mod Run
pub mod Parsed
pub mod Allowed
use seagull_agent.Prelude.{
  ℕ, zero, suc, ◌+◌, ℤ, pos, sub_ℕ, pos_part, ltb_ℤ, String, str_eq, trim_space, is_blank, is_abs,
  clean, fields, byte_length, contains_code, Bool, true, false, not, ◌||◌, ◌&&◌, Option, none, some,
  List, [], ◌∷◌, ◌++◌, length, ltb, ◌==◌, if◌then◌else◌,
}
use seagull_agent.Executor.Outcome.{
  Outcome, ok, fail, ◌>>=◌, ◌>>◌, refuse, or_else, no_payload, clamp,
}

abbrev pub max_shell_output_bytes : ℕ
max_shell_output_bytes = 1048576

abbrev pub max_shell_arguments : ℕ
max_shell_arguments = 128

abbrev pub max_shell_argument_bytes : ℕ
max_shell_argument_bytes = 4096

abbrev pub max_shell_command_bytes : ℕ
max_shell_command_bytes = 65536

pub record BoundedOutput : Type 0 where
  pub buffer : List ℕ
  pub truncated : Bool

unfoldable pub take : ℕ → List ℕ → List ℕ
take zero l = []
take (suc n) [] = []
take (suc n) (b ∷ l) = b ∷ take n l

-- How many of `size` bytes are written where `available` are left.
unfoldable pub writable : ℤ → ℕ → ℤ
writable available size =
    if ltb_ℤ (pos 0) available && ltb_ℤ (pos size) available then pos size else available

-- `Write`, for a buffer of at most `max` bytes.
unfoldable pub write_up_to : ℕ → List ℕ → BoundedOutput → BoundedOutput
unfolding take writable
write_up_to max bytes b =
    let available = writable (sub_ℕ max (length b.buffer)) (length bytes) in
    record {
      buffer =
          if ltb_ℤ (pos 0) available then b.buffer ++ take (pos_part available) bytes else b.buffer;
      truncated = b.truncated || ltb_ℤ available (pos (length bytes));
    }

unfoldable pub write : List ℕ → BoundedOutput → BoundedOutput
write bytes b = write_up_to max_shell_output_bytes bytes b

-- "\n[truncated]"
abbrev pub truncated_mark : List ℕ
truncated_mark = 10 ∷ 91 ∷ 116 ∷ 114 ∷ 117 ∷ 110 ∷ 99 ∷ 97 ∷ 116 ∷ 101 ∷ 100 ∷ 93 ∷ []

-- `String`
unfoldable pub output_text : BoundedOutput → List ℕ
output_text b = if b.truncated then b.buffer ++ truncated_mark else b.buffer

pub record ShellCommandPayload : Type 0 where
  pub command : String
  pub arguments : List String
  pub timeout_seconds : ℤ
  pub working_dir : String

-- The struct that the payload is decoded into.
pub record ShellRequest : Type 0 where
  pub command : Option String
  pub arguments : Option (List String)
  pub timeout_seconds : Option ℤ
  pub working_dir : Option String

-- The two tests on `payload.Command` and `payload.Arguments`.
unfoldable pub requested_arguments : Option String → Option (List String) → Outcome (List String)
requested_arguments (some c) (some l) =
    fail "payload.command and payload.arguments are mutually exclusive"
requested_arguments none (some l) = ok l
requested_arguments (some c) none = ok (fields (trim_space c))
requested_arguments none none = fail "payload.command or payload.arguments is required"

-- The loop over the arguments, with the bytes so far.
unfoldable pub check_arguments : List String → ℕ → Outcome ℕ
check_arguments [] total = ok total
check_arguments (a ∷ l) total = do
  refuse (str_eq a "") "payload command contains an empty argument"
  refuse (contains_code 0 a) "payload command contains a null byte"
  refuse (ltb max_shell_argument_bytes (byte_length a))
      "payload command argument exceeds 4096 bytes"
  check_arguments l (total + byte_length a)

unfoldable pub checked_dir : Option String → Outcome String
checked_dir none = ok ""
checked_dir (some dir) =
    if is_blank dir
    then ok ""
    else if not (is_abs (trim_space dir))
    then fail "payload.working_dir must be absolute"
    else ok (clean (trim_space dir))

unfoldable pub timeout_or_default : Option ℤ → ℤ
timeout_or_default none = pos 30
timeout_or_default (some n) = clamp n (pos 1) (pos 300)

-- `encode` is json.Marshal on the arguments.
unfoldable pub parse_shell_command_payload :
    (String → Outcome ShellRequest)
    → (List String → Outcome String)
    → String
    → Outcome ShellCommandPayload
parse_shell_command_payload decode encode raw = do
  refuse (no_payload raw) "payload.command is required"
  let request = (← decode raw)
  let arguments = (← requested_arguments request.command request.arguments)
  refuse (length arguments == 0) "payload command is empty"
  refuse (ltb max_shell_arguments (length arguments)) "payload command exceeds 128 arguments"
  let total = (← check_arguments arguments 0)
  refuse (ltb max_shell_command_bytes total) "payload command exceeds 65536 bytes"
  let command = (← encode arguments)
  let dir = (← checked_dir request.working_dir)
  ok (record {
    command = command;
    arguments = arguments;
    timeout_seconds = timeout_or_default request.timeout_seconds;
    working_dir = dir;
  })
