-- ===== src/Executor/Execute.antt =====
-- executor.go: `Execute`. The handlers are a record, which `Actions` fills with those of this
-- directory; a handler changes the world `W` and answers with a result, an error, or both.
pub mod Gates
pub mod Actions
use seagull_agent.Prelude.{
  ℕ, ℤ, pos, leb_ℤ, leb, String, str_eq, str_append, trim_space, to_lower, Bool, true, false, not,
  ◌||◌, ◌&&◌, Option, none, some, List, [], ◌∷◌, if◌then◌else◌,
}
use seagull_agent.Protocol.Action.{ResponseAction, profile_allows_response_actions}

pub data Kind : Type 0 where
  collect_triage_bundle refresh_runtime_config trigger_inventory_snapshot : Kind
  trigger_topology_discovery kill_process block_outbound_ip unblock_outbound_ip : Kind
  quarantine_file run_shell_command : Kind

-- The cases of the switch.
abbrev pub kinds : List (String × Kind)
kinds =
    ("collect_triage_bundle", collect_triage_bundle)
    ∷ ("refresh_runtime_config", refresh_runtime_config)
    ∷ ("trigger_inventory_snapshot", trigger_inventory_snapshot)
    ∷ ("trigger_topology_discovery", trigger_topology_discovery)
    ∷ ("kill_process", kill_process)
    ∷ ("block_outbound_ip", block_outbound_ip)
    ∷ ("unblock_outbound_ip", unblock_outbound_ip)
    ∷ ("quarantine_file", quarantine_file)
    ∷ ("run_shell_command", run_shell_command)
    ∷ []

unfoldable pub kind_named : String → List (String × Kind) → Option Kind
kind_named s [] = none
kind_named s ((name, k) ∷ l) = if str_eq name s then some k else kind_named s l

unfoldable pub kind_of : String → Option Kind
kind_of action_type = kind_named (to_lower (trim_space action_type)) kinds

pub record Handled (R : Type 0) : Type 0 where
  pub result : Option R
  pub error : Option String

pub record Handlers (W R : Type 0) : Type 0 where
  pub handle : Kind → ResponseAction → W → W × Handled R

pub record ExecuteOptions : Type 0 where
  pub expected_agent_id : String
  pub profile : String
  pub now : ℕ

pub record ExecuteResult (R : Type 0) : Type 0 where
  pub status : String
  pub result : Option R
  pub error : String
  pub started_at : ℕ

-- `opts.ExpectedAgentID != "" && trimmed ids differ`
unfoldable pub is_misaddressed : String → ResponseAction → Bool
is_misaddressed expected a =
    not (str_eq expected "") && not (str_eq (trim_space a.agent_id) (trim_space expected))

unfoldable pub is_expired : ℕ → ResponseAction → Bool
is_expired now a = elim a.expires_at [ none ↦ false | some t ↦ leb t now ]

-- The tests before the switch: the error of the first that fails.
unfoldable pub gate : ExecuteOptions → ResponseAction → Option String
gate opts a =
    if leb_ℤ a.id (pos 0)
    then some "invalid action id"
    else if not (profile_allows_response_actions opts.profile)
    then some "agent profile does not allow response actions"
    else if is_misaddressed opts.expected_agent_id a
    then some "action agent does not match this agent"
    else if is_expired opts.now a
    then some "action expired"
    else none

-- A shell command keeps its result where it gives an error.
abbrev pub keeps_result : Kind → Bool
keeps_result run_shell_command = true
keeps_result k = false

module _ {R : Type 0} where
  abbrev pub failure : ExecuteOptions → Option R → String → ExecuteResult R
  failure opts result message = record {
    status = "failed";
    result = result;
    error = message;
    started_at = opts.now;
  }

  unfoldable pub conclude : ExecuteOptions → Kind → Handled R → ExecuteResult R
  conclude opts k h = elim h.error [
    | none ↦ record { status = "success"; result = h.result; error = ""; started_at = opts.now }
    | some e ↦ failure opts (if keeps_result k then h.result else none) e
  ]

module _ {W R : Type 0} where
  unfoldable pub dispatch : Handlers W R → ExecuteOptions → ResponseAction → W → W × ExecuteResult R
  dispatch handlers opts a w = elim (kind_of a.action_type) [
    | none ↦
        (w, failure opts none (str_append "unsupported action_type: " (trim_space a.action_type)))
    | some k ↦ let (w', h) = handlers.handle k a w in (w', conclude opts k h)
  ]

  unfoldable pub execute : Handlers W R → ExecuteOptions → ResponseAction → W → W × ExecuteResult R
  execute handlers opts a w = elim (gate opts a) [
    | some e ↦ (w, failure opts none e)
    | none ↦ dispatch handlers opts a w
  ]
