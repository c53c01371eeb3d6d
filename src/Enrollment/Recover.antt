-- ===== src/Enrollment/Recover.antt =====
-- manager.go: `attemptPendingEnrollment` and `RecoverIdentity`, one call at a time. The client of
-- the control plane is there.
use seagull_agent.Prelude.{
  ℕ, suc, pos, eq_ℤ, String, str_eq, trim_space, Bool, false, not, Option, none, some, List, [],
  ◌∷◌, if◌then◌else◌,
}
use seagull_agent.Protocol.Negotiate.{agreed, disagreed, negotiate}
use seagull_agent.Enrollment.Backoff.{Retry, record_recovery_failure, is_backed_off}
use seagull_agent.Enrollment.Tokens.{
  Config, Manager, RecoveryMethod, available_recovery_methods, recovery_method_token,
  remove_recovery_method,
}
use seagull_agent.Enrollment.Pending.{
  EnrollResponse, PendingEnrollment, Setup, AttemptError, http, incompatible, other, issued,
  refused, World, State, missing, broken, found, save_pending_enrollment, load_pending_enrollment,
  clear_pending_enrollment, finalize_response, stamped, resume_pending_enrollment,
}

-- What the request is made of, besides the method.
pub record Draft : Type 0 where
  pub key : String
  pub csr : String

pub data Recovered : Type 0 where
  recovered disabled backed_off not_resumed not_loaded not_saved not_cleared no_request failed :
      Recovered

abbrev pub is_unauthorized : AttemptError → Bool
is_unauthorized (http status) = eq_ℤ status (pos 401)
is_unauthorized (incompatible status) = false
is_unauthorized other = false

abbrev pub is_told_incompatible : AttemptError → Bool
is_told_incompatible (http status) = false
is_told_incompatible (incompatible status) = not (eq_ℤ status (pos 0))
is_told_incompatible other = false

module _ (s : Setup) (w : World) where
  -- The request leaves with the file as it stands.
  abbrev pub send : PendingEnrollment → State → State
  send p e = record e { sent = (p.enrollment_id, e.pending) ∷ e.sent; tick = suc e.tick }

  unfoldable pub keep_response :
      PendingEnrollment → EnrollResponse → State → State × Option AttemptError
  keep_response p r e =
      let answered = stamped s (record p { response = some r }) in
      let (e', is_saved) = save_pending_enrollment s w (record p { response = some r }) e in
      if is_saved then finalize_response s w answered r e' else (e', some other)

  unfoldable pub attempt_pending_enrollment :
      PendingEnrollment → String → State → State × Option AttemptError
  attempt_pending_enrollment p token e = elim (w.enroll e.tick p (trim_space token)) [
    | refused error ↦ (send p e, some error)
    | issued r ↦ elim (negotiate r.protocol) [
      | disagreed i ↦ (send p e, some (incompatible (pos i.http_status)))
      | agreed n ↦ keep_response p r (send p e)
    ]
  ]

  -- `recordRecoveryFailure`, with the time and the failures of the start.
  abbrev pub fail_recovery : ℕ → ℕ → State → State × Recovered
  fail_recovery now failures e =
      let r = record_recovery_failure s.agent_id now failures in
      (
        record e {
          manager = record e.manager {
            recovery_failures = r.recovery_failures;
            next_enroll_retry_at = r.next_enroll_retry_at;
          };
        },
        failed,
      )

  -- An error that is not 401: where the server named an incompatibility, the file goes.
  unfoldable pub give_up : ℕ → ℕ → AttemptError → State → State × Recovered
  give_up now failures error e =
      let (e', is_cleared) = clear_pending_enrollment s w e in
      if is_told_incompatible error
      then (if is_cleared then fail_recovery now failures e' else (e', not_cleared))
      else fail_recovery now failures e

  abbrev pub drafted : Draft → String → String → PendingEnrollment
  drafted draft id method = record {
    version = pos 0;
    agent_id = "";
    method = method;
    enrollment_id = id;
    request_agent_id = s.agent_id;
    csr = draft.csr;
    response = none;
    key = draft.key;
  }

module _ (s : Setup) (w : World) (new_id : ℕ → String) (draft : Draft) (now failures : ℕ) where
  -- The loop over the methods.
  unfoldable pub try_methods : List RecoveryMethod → State → State × Recovered
  try_methods [] e = fail_recovery s w now failures e
  try_methods (method ∷ l) e =
      let p = drafted s w draft (new_id e.tick) method.name in
      let (saved, is_saved) = save_pending_enrollment s w p e in
      let (tried, error) = attempt_pending_enrollment s w (stamped s p) method.token saved in
      let (clean, is_cleared) = clear_pending_enrollment s w tried in
      let rest = try_methods l clean in
      if not is_saved then (saved, not_saved) else elim error [
        | none ↦ (tried, recovered)
        | some x ↦
            if is_unauthorized x
            then (if is_cleared then rest else (clean, not_cleared))
            else give_up s w now failures x tried
      ]

module _ (s : Setup) (w : World) (cfg : Config) (read : String → String) (new_id : ℕ → String)
    (make_request : Option Draft) where
  unfoldable pub enroll_anew : ℕ → ℕ → List RecoveryMethod → State → State × Recovered
  enroll_anew now failures [] e = fail_recovery s w now failures e
  enroll_anew now failures (method ∷ l) e = elim make_request [
    | none ↦ (e, no_request)
    | some draft ↦ try_methods s w new_id draft now failures (method ∷ l) e
  ]

  -- The enrollment that was saved and not answered.
  unfoldable pub replay :
      ℕ → ℕ → List RecoveryMethod → PendingEnrollment → State → State × Recovered
  replay now failures methods p e =
      let token = recovery_method_token methods p.method in
      let (tried, error) = attempt_pending_enrollment s w p token e in
      let (clean, is_cleared) = clear_pending_enrollment s w tried in
      if str_eq token "" then fail_recovery s w now failures e else elim error [
        | none ↦ (tried, recovered)
        | some x ↦
            if is_unauthorized x
            then (if is_cleared
                then enroll_anew now failures (remove_recovery_method methods p.method) clean
                else (clean, not_cleared))
            else give_up s w now failures x tried
      ]

  unfoldable pub recover_unresumed : ℕ → ℕ → State → State × Recovered
  recover_unresumed now failures e =
      let methods = available_recovery_methods cfg read now e.manager in
      elim (load_pending_enrollment s w e) [
        | missing ↦ enroll_anew now failures methods e
        | broken ↦ (e, not_loaded)
        | found p ↦ replay now failures methods p e
      ]

  abbrev pub retry_of : Manager → Retry
  retry_of m = record {
    recovery_failures = m.recovery_failures;
    next_enroll_retry_at = m.next_enroll_retry_at;
  }

  unfoldable pub recover_identity : Bool → State → State × Recovered
  recover_identity force e =
      let now = w.now e.tick in
      let failures = e.manager.recovery_failures in
      let started = record e { manager = record e.manager { next_enroll_retry_at = 0 } } in
      let (e', is_resumed, error) = resume_pending_enrollment s w started in
      if not s.force_enroll_on_start
      then (e, disabled)
      else if is_backed_off force now (retry_of e.manager)
      then (e, backed_off)
      else elim error [
        | some x ↦ (e', not_resumed)
        | none ↦ if is_resumed then (e', recovered) else recover_unresumed now failures e'
      ]
