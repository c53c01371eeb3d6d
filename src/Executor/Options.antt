-- ===== src/Executor/Options.antt =====
-- executor.go: `parseTriageBundleOptions` and `parseInventorySnapshotOptions`.
pub mod Limits
use seagull_agent.Prelude.{ℤ, pos, String, Bool, true, Option, none, some, if◌then◌else◌}
use seagull_agent.Executor.Outcome.{Outcome, ok, ◌>>=◌, or_else, no_payload, clamp}

pub record Collectors : Type 0 where
  pub runtime : Bool
  pub host : Bool
  pub processes : Bool
  pub network : Bool
  pub auth_log : Bool
  pub recent_events : Bool
  pub effective_config : Bool

pub record TriageLimits : Type 0 where
  pub max_auth_log_lines : ℤ
  pub max_processes : ℤ
  pub max_connections : ℤ
  pub max_event_count : ℤ

pub record TriageBundleOptions : Type 0 where
  pub collectors : Collectors
  pub limits : TriageLimits
  pub mask_secrets : Bool

-- The structs that the payloads are decoded into.
pub record TriageRequest : Type 0 where
  pub runtime : Option Bool
  pub host : Option Bool
  pub processes : Option Bool
  pub network : Option Bool
  pub auth_log : Option Bool
  pub recent_events : Option Bool
  pub effective_config : Option Bool
  pub max_auth_log_lines : Option ℤ
  pub max_processes : Option ℤ
  pub max_connections : Option ℤ
  pub max_event_count : Option ℤ
  pub mask_secrets : Option Bool

pub record InventoryLimits : Type 0 where
  pub max_processes : ℤ
  pub max_connections : ℤ

pub record InventoryRequest : Type 0 where
  pub max_processes : Option ℤ
  pub max_connections : Option ℤ

abbrev pub default_triage : TriageBundleOptions
default_triage = record {
  collectors = record {
    runtime = true;
    host = true;
    processes = true;
    network = true;
    auth_log = true;
    recent_events = true;
    effective_config = true;
  };
  limits = record {
    max_auth_log_lines = pos 500;
    max_processes = pos 200;
    max_connections = pos 200;
    max_event_count = pos 300;
  };
  mask_secrets = true;
}

-- A limit of a payload, from 10 to `high`.
unfoldable pub limit : ℤ → ℤ → Option ℤ → ℤ
limit default high none = default
limit default high (some n) = clamp n (pos 10) high

unfoldable pub triage_options : TriageRequest → TriageBundleOptions
triage_options q = record {
  collectors = record {
    runtime = or_else true q.runtime;
    host = or_else true q.host;
    processes = or_else true q.processes;
    network = or_else true q.network;
    auth_log = or_else true q.auth_log;
    recent_events = or_else true q.recent_events;
    effective_config = or_else true q.effective_config;
  };
  limits = record {
    max_auth_log_lines = limit (pos 500) (pos 5000) q.max_auth_log_lines;
    max_processes = limit (pos 200) (pos 2000) q.max_processes;
    max_connections = limit (pos 200) (pos 2000) q.max_connections;
    max_event_count = limit (pos 300) (pos 5000) q.max_event_count;
  };
  mask_secrets = or_else true q.mask_secrets;
}

unfoldable pub parse_triage_bundle_options :
    (String → Outcome TriageRequest) → String → Outcome TriageBundleOptions
parse_triage_bundle_options decode raw =
    if no_payload raw then ok default_triage else decode raw >>= λ q. ok (triage_options q)

unfoldable pub inventory_limits : InventoryRequest → InventoryLimits
inventory_limits q = record {
  max_processes = limit (pos 200) (pos 2000) q.max_processes;
  max_connections = limit (pos 200) (pos 2000) q.max_connections;
}

unfoldable pub parse_inventory_snapshot_options :
    (String → Outcome InventoryRequest) → String → Outcome InventoryLimits
parse_inventory_snapshot_options decode raw =
    if no_payload raw
    then ok (record { max_processes = pos 200; max_connections = pos 200 })
    else decode raw >>= λ q. ok (inventory_limits q)
