-- ===== src/Control/Liveness.antt =====
-- controlplane.go: an accepted action is executed, reported and forgotten.
use seagull_agent.Prelude.{ℕ, suc, ℤ, ◌≡◌, ◌==◌, true, false, Option, none, ◌∷◌}
use seagull_agent.Control.{Env, Config, Service, ControlError, execution_result, options_of}
use seagull_agent.Control.Delivery.{IsSound}
use seagull_agent.Control.Completion.{ended}
use seagull_agent.Executor.Execute.{execute}
use seagull_agent.Journal.Phases.{phase_at}
use seagull_agent.Journal.State.{JournalRecord, ExecutionResult, Journal}

-- A control plane that takes every result, a disk that works, and a clock past the zero time.
pub record IsCooperative {W R : Type 0} (env : Env W R) : Type 0 where
  pub accepting : (n : ℕ) (x : ExecutionResult) → env.accepts n x ≡ true
  pub sound : (n : ℕ) → IsSound (env.disk n)
  pub ticking : (n : ℕ) → (env.now n == 0) ≡ false

-- The action was executed once more, and its result delivered: the journal has no entry of it.
pub record IsDone {W : Type 0} (id : ℤ) (s : Service W) (r : Service W × Option ControlError)
    : Type 0 where
  pub no_error : r.1 ≡ none
  pub forgotten : phase_at id r.0.journal ≡ none
  pub once_more : r.0.executed ≡ id ∷ s.executed
  pub delivered : r.0.delivered_total ≡ suc s.delivered_total

-- The terminal record of an action whose entry is e, once its handler has run.
abbrev pub final_record :
    {W R : Type 0} → Config → Env W R → JournalRecord → JournalRecord → Service W → JournalRecord
final_record c env r e s =
    let ran = execute (env.handlers s.tick) (options_of c env r) r.action s.world in
    let now = env.now s.tick in
    ended (env.disk s.tick) now r.action.id (execution_result c env r now ran.1) e
