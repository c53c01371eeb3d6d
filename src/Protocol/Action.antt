-- ===== src/Protocol/Action.antt =====
-- protocol/response_action.go and protocol/profile.go. A time is a number of nanoseconds since
-- Go's zero time, so that `IsZero` is the test against 0.
use seagull_agent.Prelude.{
  ℕ, ℤ, pos, leb_ℤ, String, str_eq, trim_space, to_lower, is_blank, Bool, false, ◌||◌, not, ◌&&◌,
  Option, List, [], ◌∷◌, ◌⊎◌, inl, inr, ◌==◌, if◌then◌else◌,
}

pub record ResponseAction : Type 0 where
  pub id : ℤ
  pub action_type : String
  pub agent_id : String
  pub status : String
  pub payload : String
  pub requested_at : ℕ
  pub expires_at : Option ℕ

pub data InvalidAction : Type 0 where
  invalid_id empty_action_type empty_agent_id empty_status empty_requested_at : InvalidAction
  unsupported_status : String → InvalidAction

abbrev pub pending_status : String
pending_status = "pending"

abbrev pub delivered_status : String
delivered_status = "delivered"

-- The assignments of `Normalize` to the text fields.
unfoldable pub cleaned : ResponseAction → ResponseAction
cleaned a = record a {
  action_type = to_lower (trim_space a.action_type);
  agent_id = trim_space a.agent_id;
  status = to_lower (trim_space a.status);
}

-- The tests of `Normalize` on the cleaned action.
unfoldable pub validate_action : ResponseAction → InvalidAction ⊎ ResponseAction
validate_action a =
    if leb_ℤ a.id (pos 0)
    then inl invalid_id
    else if str_eq a.action_type ""
    then inl empty_action_type
    else if str_eq a.agent_id ""
    then inl empty_agent_id
    else if str_eq a.status ""
    then inl empty_status
    else if not (str_eq a.status pending_status) && not (str_eq a.status delivered_status)
    then inl (unsupported_status a.status)
    else if a.requested_at == 0
    then inl empty_requested_at
    else if is_blank a.payload
    then inr (record a { payload = "{}" })
    else inr a

unfoldable pub normalize : ResponseAction → InvalidAction ⊎ ResponseAction
normalize a = validate_action (cleaned a)

abbrev pub orchestration_actions : List String
orchestration_actions =
    "collect_triage_bundle" ∷ "refresh_runtime_config" ∷ "trigger_inventory_snapshot"
    ∷ "trigger_topology_discovery" ∷ []

abbrev pub privileged_actions : List String
privileged_actions =
    "kill_process" ∷ "block_outbound_ip" ∷ "unblock_outbound_ip" ∷ "quarantine_file"
    ∷ "run_shell_command" ∷ []

-- The names of `AllActions`, in the order of sort.Strings.
abbrev pub all_actions : List String
all_actions =
    "block_outbound_ip" ∷ "collect_triage_bundle" ∷ "kill_process" ∷ "quarantine_file"
    ∷ "refresh_runtime_config" ∷ "run_shell_command" ∷ "trigger_inventory_snapshot"
    ∷ "trigger_topology_discovery" ∷ "unblock_outbound_ip" ∷ []

-- The loop of `IsPrivilegedAction` and of `IsKnownAction`.
unfoldable pub names_one_of : String → List String → Bool
names_one_of target [] = false
names_one_of target (name ∷ l) = str_eq name target || names_one_of target l

unfoldable pub is_privileged_action : String → Bool
is_privileged_action action = names_one_of (to_lower (trim_space action)) privileged_actions

unfoldable pub is_known_action : String → Bool
is_known_action action = names_one_of (to_lower (trim_space action)) all_actions

unfoldable pub normalize_profile : String → String
normalize_profile value =
    if str_eq (to_lower (trim_space value)) "managed" then "managed" else "sensor"

unfoldable pub profile_allows_response_actions : String → Bool
profile_allows_response_actions profile = str_eq (normalize_profile profile) "managed"

unfoldable pub supported_actions : String → List String
supported_actions profile = if profile_allows_response_actions profile then all_actions else []
