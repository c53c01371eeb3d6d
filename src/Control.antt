-- ===== src/Control.antt =====
-- internal/runtime/controlplane.go, lines 20 to 243: how the agent stages, executes and reports
-- response actions. `Env` is what the control plane, the disk, the clock and the handlers answer at
-- each tick, and a tick passes with each call of the control plane and each round. `executed` is not
-- in the source: it lists the ids of the actions that `Execute` was called for, the last first. The
-- recovery of the identity after a failed report is not modelled.
pub mod Lifecycle
pub mod Moves
pub mod Reporting
pub mod Executing
pub mod Refinement
pub mod Delivery
pub mod Completion
pub mod Liveness
mod Tests
use seagull_agent.Prelude.{
  ℕ, zero, suc, ◌+◌, ℤ, pos, String, Bool, true, false, not, Option, none, some, List, [], ◌∷◌, ◌⊎◌,
  inl, inr, length, if◌then◌else◌,
}
use seagull_agent.Executor.Execute.{Handlers, ExecuteOptions, ExecuteResult, execute}
use seagull_agent.Journal.Operations.{
  begin, mark_executing, complete, delete, pending, terminal_records, accepted_records,
}
use seagull_agent.Journal.State.{
  JournalRecord, ExecutionResult, Journal, Disk, JournalError, entry_exists, capacity_exceeded,
}
use seagull_agent.Protocol.Action.{ResponseAction}
use seagull_agent.Stage.{Stage, StageResult, stage, next, mark_handled, pending_count}

pub record Env (W R : Type 0) : Type 0 where
  pub handlers : ℕ → Handlers W R
  pub disk : ℕ → Disk
  pub now : ℕ → ℕ
  pub accepts : ℕ → ExecutionResult → Bool
  pub describe : Option R → Option String

pub record Config : Type 0 where
  pub agent_id : String
  pub profile : String

pub record Service (W : Type 0) : Type 0 where
  pub stage : Stage
  pub journal : Journal
  pub world : W
  pub tick : ℕ
  pub executed : List ℤ
  pub staged_total : ℕ
  pub executed_total : ℕ
  pub delivered_total : ℕ
  pub report_errors_total : ℕ

pub data ControlError : Type 0 where
  journal_error : JournalError → ControlError
  result_missing : ℤ → ControlError

-- What a loop of `processResponseActions` does next: go on, or return.
pub data Flow : Type 0 where
  go_on : Flow
  return : Option ControlError → Flow

-- `ErrJournalEntryExists` and `ErrJournalCapacity`
abbrev pub is_entry_exists : JournalError → Bool
is_entry_exists entry_exists = true
is_entry_exists e = false

abbrev pub is_capacity : JournalError → Bool
is_capacity capacity_exceeded = true
is_capacity e = false

module _ {W R : Type 0} (c : Config) (env : Env W R) where
  unfoldable pub stage_response_actions : List ResponseAction → Service W → Service W × StageResult
  stage_response_actions actions s =
      let (st, out) = stage (env.now s.tick) actions c.agent_id s.stage in
      (record s { stage = st; tick = suc s.tick; staged_total = s.staged_total + out.added }, out)

  unfoldable pub pending_response_actions : Service W → ℕ
  pending_response_actions s = elim (pending (env.disk s.tick) s.journal) [
    | inl e ↦ pending_count s.stage
    | inr n ↦ pending_count s.stage + n
  ]

  abbrev pub report_error : Service W → Service W
  report_error s = record s { tick = suc s.tick; report_errors_total = suc s.report_errors_total }

  -- Once the control plane has taken the result.
  unfoldable pub delete_delivered : ℤ → Service W → Service W × (ControlError ⊎ Bool)
  delete_delivered id s =
      let (j, error) = delete (env.disk s.tick) id s.journal in
      elim error [
        | some e ↦ (record s { journal = j; tick = suc s.tick }, inl (journal_error e))
        | none ↦ (
          record s { journal = j; tick = suc s.tick; delivered_total = suc s.delivered_total },
          inr true,
        )
      ]

  unfoldable pub report_terminal : JournalRecord → Service W → Service W × (ControlError ⊎ Bool)
  report_terminal r s = elim r.result [
    | none ↦ (s, inl (result_missing r.action.id))
    | some result ↦
        if env.accepts s.tick result
        then delete_delivered r.action.id s
        else (report_error s, inr false)
  ]

  abbrev pub running_result : JournalRecord → ExecutionResult
  running_result r = record {
    response_action_id = r.action.id;
    agent_id = c.agent_id;
    status = "running";
    result_payload = none;
    error = "";
    started_at = some r.started_at;
    finished_at = none;
  }

  abbrev pub execution_result : JournalRecord → ℕ → ExecuteResult R → ExecutionResult
  execution_result r finished x = record {
    response_action_id = r.action.id;
    agent_id = c.agent_id;
    status = x.status;
    result_payload = env.describe x.result;
    error = x.error;
    started_at = some x.started_at;
    finished_at = some finished;
  }

  abbrev pub options_of : JournalRecord → ExecuteOptions
  options_of r = record { expected_agent_id = c.agent_id; profile = c.profile; now = r.started_at }

  abbrev pub error_of : ControlError ⊎ Bool → Option ControlError
  error_of (inl e) = some e
  error_of (inr delivered) = none

  -- The execution of an action whose entry is marked.
  unfoldable pub run_marked : JournalRecord → Service W → Service W × Option ControlError
  run_marked r s =
      let (w, x) = execute (env.handlers s.tick) (options_of r) r.action s.world in
      let (j, done) =
        complete (env.disk s.tick) (env.now s.tick) r.action.id
          (execution_result r (env.now s.tick) x) s.journal in
      let s' : Service W = record s {
        journal = j;
        world = w;
        tick = suc s.tick;
        executed = r.action.id ∷ s.executed;
      } in
      elim done [
        | inl e ↦ (s', some (journal_error e))
        | inr terminal ↦
            let counted : Service W = record s' { executed_total = suc s.executed_total } in
            let (s'', reported) = report_terminal terminal counted in (s'', error_of reported)
      ]

  -- Once the control plane knows that the action runs.
  unfoldable pub mark_and_run : JournalRecord → Service W → Service W × Option ControlError
  mark_and_run r s =
      let (j, marked) = mark_executing (env.disk s.tick) (env.now s.tick) r.action.id s.journal in
      let s' : Service W = record s { journal = j; tick = suc s.tick } in
      elim marked [ inl e ↦ (s', some (journal_error e)) | inr entry ↦ run_marked r s' ]

  unfoldable pub execute_accepted : JournalRecord → Service W → Service W × Option ControlError
  execute_accepted r s =
      if env.accepts s.tick (running_result r) then mark_and_run r s else (report_error s, none)

  -- The loop over the terminal records: it returns at the first that is not delivered.
  unfoldable pub report_all : List JournalRecord → Service W → Service W × Flow
  report_all [] s = (s, go_on)
  report_all (r ∷ l) s =
      let (s', reported) = report_terminal r s in
      let rest = report_all l s' in
      elim reported [
        | inl e ↦ (s', return (some e))
        | inr delivered ↦ if delivered then rest else (s', return none)
      ]

  -- The loop over the accepted records.
  unfoldable pub execute_all : List JournalRecord → Service W → Service W × Flow
  execute_all [] s = (s, go_on)
  execute_all (r ∷ l) s =
      let (s', error) = execute_accepted r s in
      let rest = execute_all l s' in elim error [ some e ↦ (s', return (some e)) | none ↦ rest ]

  -- `MarkHandled` on the stage.
  abbrev pub handled : ℤ → Service W → Service W
  handled id s = record s { stage = mark_handled id s.stage }

  -- What a round does with an action that the stage gave, up to the rounds after it.
  unfoldable pub begin_staged : ResponseAction → Service W → Service W × Flow
  begin_staged a s =
      let (j, begun) = begin (env.disk s.tick) (env.now s.tick) a (env.now s.tick) s.journal in
      let s' : Service W = record s { journal = j; tick = suc s.tick } in
      elim begun [
        | inl e ↦
            if is_entry_exists e
            then (handled a.id s', go_on)
            else if is_capacity e
            then (s', return none)
            else (s', return (some (journal_error e)))
        | inr r ↦
            let (s'', error) = execute_accepted r (handled a.id s') in
            elim error [ some e ↦ (s'', return (some e)) | none ↦ (s'', go_on) ]
      ]

  -- The rounds that are left of the last loop.
  unfoldable pub staged_rounds : ℕ → Service W → Service W × Option ControlError
  staged_rounds zero s = (s, none)
  staged_rounds (suc n) s =
      let (st, given) = next (env.now s.tick) c.agent_id s.stage in
      let s' : Service W = record s { stage = st; tick = suc s.tick } in
      elim given [
        | none ↦ (s', none)
        | some item ↦
            let (s'', flow) = begin_staged item.action s' in
            let rest = staged_rounds n s'' in elim flow [ go_on ↦ rest | return e ↦ (s'', e) ]
      ]

  -- From the accepted records on.
  unfoldable pub process_accepted : Service W → Service W × Option ControlError
  process_accepted s = elim (accepted_records (env.disk s.tick) (pos 8) s.journal) [
    | inl e ↦ (s, some (journal_error e))
    | inr l ↦
        let (s', flow) = execute_all l s in
        let rest = staged_rounds 8 s' in elim flow [ go_on ↦ rest | return e ↦ (s', e) ]
  ]

  unfoldable pub process_response_actions : Service W → Service W × Option ControlError
  process_response_actions s = elim (terminal_records (env.disk s.tick) (pos 8) s.journal) [
    | inl e ↦ (s, some (journal_error e))
    | inr l ↦
        let (s', flow) = report_all l s in
        let rest = process_accepted s' in elim flow [ go_on ↦ rest | return e ↦ (s', e) ]
  ]
