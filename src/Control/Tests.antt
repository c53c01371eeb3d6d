-- ===== src/Control/Tests.antt =====
-- A round of the service at a concrete input.
use seagull_agent.Prelude.{ℕ, suc, pos, String, refl, true, false, none, some, [], ◌∷◌}
use seagull_agent.Assoc.{has}
use seagull_agent.Control.{Env, Config, Service, process_response_actions}
use seagull_agent.Control.Reporting.{Lives}
use seagull_agent.Control.Refinement.{process_response_actions-Lives}
use seagull_agent.Executor.Execute.{Handlers}
use seagull_agent.Journal.Phases.{IsFiled}
use seagull_agent.Journal.State.{JournalRecord, Journal, Disk, accepted, written}
use seagull_agent.Protocol.Action.{ResponseAction}
use seagull_agent.Stage.{new_stage}

abbrev action : ResponseAction
action = record {
  id = pos 7;
  action_type = "kill_process";
  agent_id = "agent";
  status = "pending";
  payload = "{}";
  requested_at = 5;
  expires_at = none;
}

abbrev waiting : JournalRecord
waiting = record {
  version = pos 1;
  action = action;
  phase = accepted;
  result = none;
  started_at = 9;
  updated_at = 9;
}

abbrev disk : Disk
disk = record {
  can_list = true;
  can_clear_temps = true;
  can_inspect = true;
  can_remove = true;
  can_sync = true;
  write = λ id. written;
  marshal = λ r. some 100;
  encode = λ m. some 10;
}

-- The handlers count the actions.
abbrev counting : Handlers ℕ String
counting = record { handle = λ k a n. (suc n, record { result = none; error = none }) }

abbrev env : Env ℕ String
env = record {
  handlers = λ t. counting;
  disk = λ t. disk;
  now = λ t. 20;
  accepts = λ t x. true;
  describe = λ o. o;
}

abbrev config : Config
config = record { agent_id = "agent"; profile = "managed" }

abbrev journal : Journal
journal = record {
  max_records = 4;
  max_bytes = 4000000;
  stray = false;
  files = (pos 7, record { size = 101; content = some waiting }) ∷ [];
}

abbrev service : Service ℕ
service = record {
  stage = new_stage (pos 8);
  journal = journal;
  world = 0;
  tick = 0;
  executed = [];
  staged_total = 0;
  executed_total = 0;
  delivered_total = 0;
  report_errors_total = 0;
}

journal-IsFiled : IsFiled journal
unfolding has
journal-IsFiled = record { one_each = (refl, tt); named = (λ s h. cc, tt) }

process_response_actions-Lives_example :
    Lives (pos 7) service (process_response_actions config env service).0
process_response_actions-Lives_example =
    process_response_actions-Lives config env (pos 7) service journal-IsFiled
