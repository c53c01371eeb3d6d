-- ===== src/Journal/State.antt =====
-- The types of journal.go, and the checks of a record. A directory entry whose name is the
-- `path` of an action (one name for each id) is kept under that id; `stray` says whether the
-- directory has an entry of another name or kind that `loadLocked` refuses. A file stands for its
-- size and for what the decoder reads from it, if it reads exactly one record.
use seagull_agent.Prelude.{
  ℕ, ℤ, pos, eq_ℤ, Bool, true, false, not, ◌||◌, Option, none, some, List, String, str_eq,
  trim_space, to_lower, is_blank, ltb, ◌==◌, inl, inr, if◌then◌else◌,
}
use Prim.Native.String.{◌++◌ as str_append}
use seagull_agent.Protocol.Action.{ResponseAction, InvalidAction, normalize}

abbrev pub journal_version : ℤ
journal_version = pos 1

-- 8 << 20, 2 << 20 and 3 << 20.
abbrev pub max_journal_record_size : ℕ
max_journal_record_size = 8388608

abbrev pub max_result_payload_size : ℕ
max_result_payload_size = 2097152

abbrev pub terminal_growth_reserve : ℕ
terminal_growth_reserve = 3145728

-- A decoded record may have any phase.
pub data Phase : Type 0 where
  accepted executing terminal : Phase
  other_phase : String → Phase

-- `ResultPayload` is a map, named here by a text; `Disk` says how it is encoded.
pub record ExecutionResult : Type 0 where
  pub response_action_id : ℤ
  pub agent_id : String
  pub status : String
  pub result_payload : Option String
  pub error : String
  pub started_at : Option ℕ
  pub finished_at : Option ℕ

pub record JournalRecord : Type 0 where
  pub version : ℤ
  pub action : ResponseAction
  pub phase : Phase
  pub result : Option ExecutionResult
  pub started_at : ℕ
  pub updated_at : ℕ

pub record Stored : Type 0 where
  pub size : ℕ
  pub content : Option JournalRecord

pub record Journal : Type 0 where
  pub max_records : ℕ
  pub max_bytes : ℕ
  pub stray : Bool
  pub files : List (ℤ × Stored)

-- How a file is written: not at all, up to the rename without the sync of the directory, or fully.
pub data Writing : Type 0 where
  written failed unsynced : Writing

-- What the file system and the encoder answer during one operation.
pub record Disk : Type 0 where
  pub can_list : Bool
  pub can_clear_temps : Bool
  pub can_inspect : Bool
  pub can_remove : Bool
  pub can_sync : Bool
  pub write : ℤ → Writing
  pub marshal : JournalRecord → Option ℕ
  pub encode : String → Option ℕ

pub data JournalError : Type 0 where
  entry_exists capacity_exceeded unreadable_directory temps_remain not_inspected not_removed :
      JournalError
  unexpected_entry not_encoded too_large not_written not_synced missing : JournalError
  bad_size undecodable misnamed : JournalError
  unsupported_version no_timestamps unexpected_result no_result foreign_result : JournalError
  invalid_action : InvalidAction → JournalError
  invalid_status : String → JournalError
  invalid_phase : Phase → JournalError
  wrong_phase : Phase → JournalError

abbrev pub is_accepted : Phase → Bool
is_accepted accepted = true
is_accepted executing = false
is_accepted terminal = false
is_accepted (other_phase p) = false

abbrev pub is_executing : Phase → Bool
is_executing accepted = false
is_executing executing = true
is_executing terminal = false
is_executing (other_phase p) = false

abbrev pub is_terminal : Phase → Bool
is_terminal accepted = false
is_terminal executing = false
is_terminal terminal = true
is_terminal (other_phase p) = false

abbrev pub is_final_status : String → Bool
is_final_status status = str_eq status "success" || str_eq status "failed"

abbrev pub validate_open : Option ExecutionResult → Option JournalError
validate_open none = none
validate_open (some r) = some unexpected_result

abbrev pub validate_result : ℤ → Option ExecutionResult → Option JournalError
validate_result id none = some no_result
validate_result id (some r) =
    if not (eq_ℤ r.response_action_id id)
    then some foreign_result
    else if is_final_status (to_lower (trim_space r.status))
    then none
    else some (invalid_status r.status)

abbrev pub validate_phase : Phase → ℤ → Option ExecutionResult → Option JournalError
validate_phase accepted id result = validate_open result
validate_phase executing id result = validate_open result
validate_phase terminal id result = validate_result id result
validate_phase (other_phase p) id result = some (invalid_phase (other_phase p))

unfoldable pub validate_journal_record : JournalRecord → Option JournalError
validate_journal_record r =
    if not (eq_ℤ r.version journal_version)
    then some unsupported_version
    else elim (normalize r.action) [
      | inl e ↦ some (invalid_action e)
      | inr a ↦
          if r.started_at == 0 || r.updated_at == 0
          then some no_timestamps
          else validate_phase r.phase r.action.id r.result
    ]

abbrev pub omit_payload : String → ExecutionResult → ExecutionResult
omit_payload message r = record r {
  result_payload = none;
  error =
      if is_blank r.error
      then message
      else str_append (trim_space r.error) (str_append "; " message);
}

-- `boundedResult`: the payload goes if it cannot be encoded or is too long.
unfoldable pub bounded_result : Disk → ExecutionResult → ExecutionResult
bounded_result d r = elim r.result_payload [
  | none ↦ r
  | some m ↦ elim (d.encode m) [
    | none ↦ omit_payload "result payload omitted because it could not be encoded" r
    | some n ↦
        if ltb max_result_payload_size n
        then omit_payload "result payload omitted because it exceeded the durable result limit" r
        else r
  ]
]
