-- ===== src/Enrollment/Tests.antt =====
-- Runs of the enrollment at concrete inputs.
use seagull_agent.Prelude.{
  ℕ, none, some, not, itoa, ◌≢◌, ◌+◌, ◌*◌, ◌^◌, ◌-◌, ◌≤◌, ◌<◌, pos, String, str_eq, trim_space,
  to_lower, contains, has_prefix, is_blank, ◌≡◌, refl, true, false, [], ◌∷◌, if◌then◌else◌,
}
use seagull_agent.Enrollment.Backoff.{
  second, next_recovery_backoff, record_recovery_failure, is_backed_off,
  should_attempt_identity_recovery,
}
use seagull_agent.Enrollment.Pending.{
  Setup, EnrollResponse, PendingEnrollment, World, State, done, http, issued, refused,
  resume_pending_enrollment, load_pending_enrollment, save_pending_enrollment,
  clear_pending_enrollment, finalize_response, has_bad_pair, persist_enrollment_certificate,
  apply_response,
}
use seagull_agent.Enrollment.Recover.{
  Draft, recover_identity, recovered, recover_unresumed, enroll_anew, try_methods,
  attempt_pending_enrollment, keep_response,
}
use seagull_agent.Protocol.Negotiate.{negotiate}
use seagull_agent.Enrollment.Attempts.{AllSaved}
use seagull_agent.Enrollment.Durable.{recover_identity-Saved}
use seagull_agent.Enrollment.Stuck.{for_another, useless_response-sticks}
use seagull_agent.Enrollment.Waits.{
  min, next_recovery_backoff-bounds, record_recovery_failure-backs_off,
}
use seagull_agent.Enrollment.Tokens.{
  method_with, usable_renewal, usable_previous, current_bootstrap_token, next_identity, Config,
  Manager, Credential, Clockwork, apply_credential_update, available_recovery_methods,
  recovery_method_token, format_optional_time,
}
use seagull_agent.Enrollment.Rotation.{
  updates, bootstrap_used_once, apply_credential_update-keeps_previous,
}

abbrev cfg : Config
cfg = record { bootstrap_token = "b1"; bootstrap_token_file = "" }

abbrev no_file : String → String
no_file path = ""

-- One time has a text, "t7".
abbrev clockwork : Clockwork
clockwork = record {
  parse = λ text. if str_eq text "t7" then 7 else 0;
  format = λ t. "t7";
  save = λ s. true;
}

abbrev manager : Manager
manager = record {
  cred = "c1";
  cred_exp = 0;
  renewal_token = "r1";
  renewal_exp = 7;
  previous_renewal_token = "r0";
  previous_renewal_exp = 0;
  last_recovery_method = "startup";
  bootstrap_consumed = false;
  recovery_failures = 2;
  next_enroll_retry_at = 0;
}

abbrev update : Credential
update = record {
  credential = " c2 ";
  expires_at = "";
  renewal_token = "r2\n";
  renewal_token_expires_at = "t7";
}

next_recovery_backoff-bounds_example :
    let wait = min (5 * second * 2 ^ (3 - 1)) (300 * second) in
    (wait ≤ next_recovery_backoff "a1" (pos 3))
    × (next_recovery_backoff "a1" (pos 3) ≤ wait + 30 * second)
    × (3 * next_recovery_backoff "a1" (pos 3) ≤ 4 * wait)
next_recovery_backoff-bounds_example = next_recovery_backoff-bounds "a1" 3

record_recovery_failure-backs_off_example :
    let r = record_recovery_failure "a1" 100 2 in
    (200 < 100 + 5 * second → is_backed_off false 200 r ≡ true)
    × (100 + 330 * second ≤ 200 → is_backed_off false 200 r ≡ false)
record_recovery_failure-backs_off_example = record_recovery_failure-backs_off "a1" 100 2 200

bootstrap_used_once_example :
    recovery_method_token
      (available_recovery_methods cfg no_file 5 (
        updates clockwork
          ((update, "renewal") ∷ [])
          (apply_credential_update clockwork update " bootstrap" manager).0))
      "bootstrap"
    ≡ ""
unfolding apply_credential_update is_blank trim_space
bootstrap_used_once_example =
    bootstrap_used_once cfg no_file clockwork update " bootstrap" ((update, "renewal") ∷ []) 5
      manager refl refl

apply_credential_update-keeps_previous_example :
    let methods =
      available_recovery_methods cfg no_file 5
        (apply_credential_update clockwork update "renewal" manager).0 in
    (recovery_method_token methods "renewal" ≡ trim_space "r2\n")
    × (recovery_method_token methods "renewal_previous" ≡ trim_space "r1")
unfolding apply_credential_update is_blank trim_space format_optional_time
apply_credential_update-keeps_previous_example =
    apply_credential_update-keeps_previous cfg no_file clockwork update "renewal" 5 manager refl
      refl refl refl refl refl refl

bad_certificate_is_recovered :
    should_attempt_identity_recovery true "Remote error: TLS: bad certificate" (pos 0) ≡ true
unfolding should_attempt_identity_recovery to_lower contains has_prefix trim_space
bad_certificate_is_recovered = refl

abbrev setup : Setup
setup = record {
  agent_id = "a1";
  force_enroll_on_start = true;
  has_path = true;
  tls_configured = false;
}

abbrev response : String → EnrollResponse
response agent_id = record {
  agent_id = agent_id;
  credential = update;
  certificate = none;
  protocol = none;
}

-- A disk that works, and a server that refuses the renewal tokens and takes the bootstrap token.
abbrev world : World
world = record {
  readable = λ n. true;
  write = λ n. done;
  remove = λ n. done;
  enroll =
      λ n p token. if str_eq token "b1" then issued (response "a1") else refused (http (pos 401));
  parses_uuid = λ id. not (str_eq id "");
  pair = λ c k. none;
  now = λ n. 5;
  persist_server_ca = λ n. true;
  persist_pair = λ n. true;
  clockwork = clockwork;
}

abbrev fresh : State
fresh = record { manager = manager; pending = none; sent = []; tick = 0 }

abbrev ids : ℕ → String
ids n = itoa n

abbrev draft : Draft
draft = record { key = "k"; csr = "r" }

abbrev saved_for : String → PendingEnrollment
saved_for agent_id = record {
  version = pos 2;
  agent_id = "a1";
  method = "renewal";
  enrollment_id = "9";
  request_agent_id = "a1";
  csr = "r";
  response = some (response agent_id);
  key = "k";
}

abbrev misaddressed : State
misaddressed = record fresh { pending = some (saved_for "a2") }

recover_identity-Saved_example :
    AllSaved (recover_identity setup world cfg no_file ids (some draft) true fresh).0
recover_identity-Saved_example =
    recover_identity-Saved setup world cfg no_file ids (some draft) true fresh tt

useless_response-sticks_example :
    let after = recover_identity setup world cfg no_file ids (some draft) true misaddressed in
    (after.1 ≢ recovered) × (after.0.pending ≡ some (saved_for "a2")) × (after.0.sent ≡ [])
unfolding trim_space
useless_response-sticks_example =
    useless_response-sticks setup world cfg no_file ids (some draft) true misaddressed
      (saved_for "a2") (response "a2") refl refl refl (for_another refl)

-- The third method, the bootstrap token, succeeds; the file is gone afterwards.
recovers :
    let after = recover_identity setup world cfg no_file ids (some draft) true fresh in
    (after.1 ≡ recovered) × (after.0.pending ≡ none) × (after.0.manager.bootstrap_consumed ≡ true)
unfolding recover_identity is_backed_off resume_pending_enrollment load_pending_enrollment
    recover_unresumed enroll_anew available_recovery_methods method_with usable_renewal trim_space
    try_methods save_pending_enrollment itoa attempt_pending_enrollment clear_pending_enrollment
    usable_previous current_bootstrap_token is_blank keep_response negotiate finalize_response
    has_bad_pair persist_enrollment_certificate apply_response apply_credential_update next_identity
recovers = (refl, refl, refl)
