-- ===== src/Journal/Tests.antt =====
-- Runs of the journal at concrete inputs.
use seagull_agent.Prelude.{
  to_lower, trim_space, is_blank, ◌+◌, ◌≤◌, pos, ◌≡◌, ◌≢◌, refl, inr, true, false, none, some, [],
  ◌∷◌,
}
use seagull_agent.Assoc.{find, without, has, IsMap}
use seagull_agent.Journal.Capacity.{begin_locked-within_limits}
use seagull_agent.Journal.Entries.{
  read_file, read, load_file, load_files, load, reserved, ensure_capacity, write,
}
use seagull_agent.Journal.Limits.{is_loaded, write_largest}
use seagull_agent.Journal.Once.{done, step, restarted, mark_executing_once}
use seagull_agent.Journal.Operations.{
  begin_locked, begin, opening, mark_executing, addressed, complete, interrupted, recover_records,
  recover,
}
use seagull_agent.Journal.Phases.{phase_at, IsFiled}
use seagull_agent.Journal.Recovery.{after_restart, recover-phases}
use seagull_agent.Journal.State.{
  JournalRecord, ExecutionResult, Journal, Disk, accepted, executing, terminal, written,
  max_journal_record_size, validate_journal_record, bounded_result,
}
use seagull_agent.Journal.Transitions.{}
use seagull_agent.Protocol.Action.{ResponseAction, normalize, validate_action, cleaned}
use seagull_agent.Spool.Sort.{insert, sort}

abbrev action : ResponseAction
action = record {
  id = pos 7;
  action_type = "kill_process";
  agent_id = "agent";
  status = "pending";
  payload = "{}";
  requested_at = 5;
  expires_at = none;
}

abbrev disk : Disk
disk = record {
  can_list = true;
  can_clear_temps = true;
  can_inspect = true;
  can_remove = true;
  can_sync = true;
  write = λ id. written;
  marshal = λ r. some 100;
  encode = λ m. some 10;
}

abbrev large_disk : Disk
large_disk = record disk { marshal = λ r. some max_journal_record_size }

abbrev waiting : JournalRecord
waiting = record {
  version = pos 1;
  action = action;
  phase = accepted;
  result = none;
  started_at = 9;
  updated_at = 9;
}

abbrev running : JournalRecord
running = record waiting { phase = executing; updated_at = 10 }

abbrev result : ExecutionResult
result = record {
  response_action_id = pos 7;
  agent_id = "agent";
  status = "success";
  result_payload = none;
  error = "";
  started_at = none;
  finished_at = none;
}

abbrev ended : JournalRecord
ended = record waiting { phase = terminal; result = some result; updated_at = 11 }

abbrev empty : Journal
empty = record { max_records = 4; max_bytes = 4000000; stray = false; files = [] }

abbrev holding : JournalRecord → Journal
holding r = record empty { files = (pos 7, record { size = 101; content = some r }) ∷ [] }

holding-IsFiled : (r : JournalRecord) → r.action.id ≡ pos 7 → IsFiled (holding r)
unfolding has
holding-IsFiled r e = record { one_each = (refl, tt); named = (λ s h. cc, tt) }

begins : begin_locked disk waiting empty ≡ (holding waiting, inr waiting)
unfolding begin_locked ensure_capacity load load_files reserved sort write validate_journal_record
    normalize validate_action cleaned to_lower trim_space is_blank has without
begins = refl

begin_ok : begin disk 9 action 9 empty ≡ (holding waiting, inr waiting)
unfolding begin begin_locked ensure_capacity load load_files reserved sort write
    validate_journal_record normalize validate_action cleaned to_lower trim_space is_blank has
    without opening
begin_ok = refl

normal : normalize action ≡ inr action
unfolding normalize validate_action cleaned to_lower trim_space is_blank
normal = refl

marks : mark_executing disk 10 (pos 7) (holding waiting) ≡ (holding running, inr running)
unfolding mark_executing read read_file write validate_journal_record normalize validate_action
    cleaned to_lower trim_space is_blank find without
marks = refl

completes : complete disk 11 (pos 7) result (holding running) ≡ (holding ended, inr ended)
unfolding complete addressed read read_file write validate_journal_record normalize validate_action
    cleaned to_lower trim_space is_blank find without bounded_result
completes = refl

abbrev restarted_journal : Journal
restarted_journal = (recover disk 12 (holding running)).0

mark_executing_once_example :
    mark_executing disk 13 (pos 7) restarted_journal ≢ (holding running, inr running)
mark_executing_once_example =
    mark_executing_once disk disk 10 13 (pos 7) (holding waiting) (holding running)
      restarted_journal (holding running) running running (holding-IsFiled waiting refl) marks
      (step (holding running) restarted_journal restarted_journal
        (restarted disk 12 (holding running)) (done restarted_journal))

recovers : recover disk 12 (holding running) ≡ (holding (interrupted 12 running), none)
unfolding recover recover_records interrupted load load_files load_file read_file sort insert write
    validate_journal_record normalize validate_action cleaned to_lower trim_space is_blank find
    without
recovers = refl

one_each : IsMap (holding running).files
unfolding has
one_each = (refl, tt)

recover-phases_example :
    phase_at (pos 7) (holding (interrupted 12 running))
    ≡ after_restart (phase_at (pos 7) (holding running))
recover-phases_example =
    recover-phases disk 12 (holding running) (holding (interrupted 12 running)) (pos 7) one_each
      recovers

loads : load disk (holding waiting) ≡ inr (waiting ∷ [], 101)
unfolding load load_files load_file read_file sort insert validate_journal_record normalize
    validate_action cleaned to_lower trim_space is_blank
loads = refl

begin_locked-within_limits_example : (1 ≤ 4) × (101 + reserved (waiting ∷ []) ≤ 4000001)
begin_locked-within_limits_example =
    begin_locked-within_limits disk disk waiting waiting empty (holding waiting) (waiting ∷ []) 101
      begins loads

write_largest_example :
    let w = write large_disk waiting empty in (w.1 ≡ none) × (is_loaded (load disk w.0) ≡ false)
unfolding validate_journal_record normalize validate_action cleaned to_lower trim_space is_blank
write_largest_example = write_largest large_disk disk waiting empty refl refl refl
