-- ===== src/Executor/Execute/Gates.antt =====
-- executor.go: which actions `Execute` runs, and what it answers.
use seagull_agent.Prelude.{
  pos, leb_ℤ, String, str_eq, str_eq_iff, trim_space, to_lower, ◌≡◌, ◌≢◌, refl, ap, sym, inl, inr,
  Bool, true, false, ◌||◌, Option, none, some, List, [], ◌∷◌, map, ◌∙◌, Bool-cases, Option-cases,
  arith,
}
use seagull_agent.Executor.Execute.{
  Kind, kinds, kind_named, kind_of, Handled, Handlers, ExecuteOptions, ExecuteResult,
  is_misaddressed, is_expired, gate, failure, conclude, dispatch, execute,
}
use seagull_agent.Journal.State.{is_final_status}
use seagull_agent.Protocol.Action.{
  ResponseAction, profile_allows_response_actions, is_known_action, names_one_of,
}

abbrev pub is_some : {A : Type 0} → Option A → Bool
is_some none = false
is_some (some a) = true

is_some-kind_named :
    (s : String) (l : List (String × Kind))
    → is_some (kind_named s l) ≡ names_one_of s (map (λ p. p.0) l)
unfolding kind_named names_one_of
is_some-kind_named s [] = refl
is_some-kind_named s ((name, k) ∷ l) = elim (Bool-cases (str_eq name s)) [
  | inl same ↦ rw same refl
  | inr other ↦ rw other (is_some-kind_named s l)
]

reorder :
    (a b c d e f g h i : Bool)
    → (a || (b || (c || (d || (e || (f || (g || (h || (i || false)))))))))
      ≡ (f || (a || (e || (h || (b || (i || (c || (d || (g || false)))))))))
reorder a b c d e f g h i = ground arith

-- `Execute` has a handler for exactly the actions that the protocol knows, whatever their case and
-- the white space around them.
pub kind_of-known :
    (action_type : String) → is_some (kind_of action_type) ≡ is_known_action action_type
unfolding kind_of is_known_action names_one_of
kind_of-known action_type =
    let s = to_lower (trim_space action_type) in
    is_some-kind_named s kinds
    ∙ reorder (str_eq "collect_triage_bundle" s) (str_eq "refresh_runtime_config" s)
        (str_eq "trigger_inventory_snapshot" s) (str_eq "trigger_topology_discovery" s)
        (str_eq "kill_process" s) (str_eq "block_outbound_ip" s) (str_eq "unblock_outbound_ip" s)
        (str_eq "quarantine_file" s) (str_eq "run_shell_command" s)

-- An action that passes the tests of `Execute`.
pub record Passes (opts : ExecuteOptions) (a : ResponseAction) : Type 0 where
  pub has_id : leb_ℤ a.id (pos 0) ≡ false
  pub managed : profile_allows_response_actions opts.profile ≡ true
  pub addressed : is_misaddressed opts.expected_agent_id a ≡ false
  pub in_time : is_expired opts.now a ≡ false

gate-Passes : (opts : ExecuteOptions) (a : ResponseAction) → gate opts a ≡ none → Passes opts a
unfolding gate
gate-Passes opts a h = elim (Bool-cases (leb_ℤ a.id (pos 0))) [
  | inl bad ↦ absurd (cc (rw (gate, bad) at h))
  | inr has_id ↦ elim (Bool-cases (profile_allows_response_actions opts.profile)) [
    | inr bad ↦ absurd (cc (rw (gate, has_id, bad) at h))
    | inl managed ↦ elim (Bool-cases (is_misaddressed opts.expected_agent_id a)) [
      | inl bad ↦ absurd (cc (rw (gate, has_id, managed, bad) at h))
      | inr addressed ↦ elim (Bool-cases (is_expired opts.now a)) [
        | inl bad ↦ absurd (cc (rw (gate, has_id, managed, addressed, bad) at h))
        | inr in_time ↦ record {
          has_id = has_id;
          managed = managed;
          addressed = addressed;
          in_time = in_time;
        }
      ]
    ]
  ]
]

-- What holds of a run of `Execute`.
pub record IsExecution {W R : Type 0} (opts : ExecuteOptions) (a : ResponseAction) (w : W)
    (r : W × ExecuteResult R) : Type 0 where
  pub final : is_final_status r.1.status ≡ true
  pub succeeded : r.1.status ≡ "success" → Passes opts a × (is_known_action a.action_type ≡ true)
  pub acted : r.0 ≢ w → Passes opts a × (is_known_action a.action_type ≡ true)

failure-IsExecution :
    {W R : Type 0} (opts : ExecuteOptions) (a : ResponseAction) (w : W) (message : String)
    → IsExecution {W = W} {R = R} opts a w (w, failure opts none message)
failure-IsExecution opts a w message = record {
  final = refl;
  succeeded = λ h. absurd (cc ((str_eq_iff "failed" "success").1 h));
  acted = λ h. absurd (h refl);
}

conclude_final :
    {R : Type 0} (opts : ExecuteOptions) (k : Kind) (h : Handled R)
    → is_final_status (conclude opts k h).status ≡ true
unfolding conclude
conclude_final opts k h = elim (Option-cases h.error) [
  | inl fine ↦ rw (fine, conclude) refl
  | inr (e, bad) ↦ rw (bad, conclude) refl
]

dispatch-IsExecution :
    {W R : Type 0} (handlers : Handlers W R) (opts : ExecuteOptions) (a : ResponseAction) (w : W)
    → Passes opts a
    → IsExecution opts a w (dispatch handlers opts a w)
unfolding dispatch
dispatch-IsExecution handlers opts a w passes = elim (Option-cases (kind_of a.action_type)) [
  | inl unknown ↦ simp (unknown, dispatch) (failure-IsExecution opts a w _)
  | inr (k, found) ↦
      let known : is_known_action a.action_type ≡ true =
        sym (kind_of-known a.action_type) ∙ ap is_some found in
      let done = handlers.handle k a w in
      simp (found, dispatch)
        (record {
          final = conclude_final opts k done.1;
          succeeded = λ h. (passes, known);
          acted = λ h. (passes, known);
        })
]

-- Whatever the handlers do: `Execute` answers with one of the two final statuses, and it succeeds,
-- or changes the world at all, only for an action with a positive id, under the managed profile,
-- addressed to this agent, not expired, and of a type that the protocol knows.
pub execute-IsExecution :
    {W R : Type 0} (handlers : Handlers W R) (opts : ExecuteOptions) (a : ResponseAction) (w : W)
    → IsExecution opts a w (execute handlers opts a w)
unfolding execute
execute-IsExecution handlers opts a w = elim (Option-cases (gate opts a)) [
  | inr (e, closed) ↦ simp (closed, execute) (failure-IsExecution opts a w e)
  | inl through ↦
      simp (through, execute) (dispatch-IsExecution handlers opts a w (gate-Passes opts a through))
]
