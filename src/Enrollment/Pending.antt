-- ===== src/Enrollment/Pending.antt =====
-- internal/enrollment/pending.go: the enrollment that is saved before it is sent, and its end. The
-- times of its creation and its update, and the request's fields that are copied from the build and
-- the host, are left out.
use seagull_agent.Prelude.{
  ℕ, suc, ℤ, pos, eq_ℤ, String, str_eq, trim_space, is_blank, Bool, true, false, not, ◌&&◌, ◌||◌,
  Option, none, some, List, if◌then◌else◌,
}
use seagull_agent.Enrollment.Tokens.{Manager, Credential, Clockwork, apply_credential_update}
use seagull_agent.Protocol.Negotiate.{Descriptor, agreed, disagreed, negotiate}
use seagull_agent.Renewal.Issued.{Certificate, validate_issued_pair}

pub record EnrollResponse : Type 0 where
  pub agent_id : String
  pub credential : Credential
  pub certificate : Option String
  pub protocol : Option Descriptor

pub record PendingEnrollment : Type 0 where
  pub version : ℤ
  pub agent_id : String
  pub method : String
  pub enrollment_id : String
  pub request_agent_id : String
  pub csr : String
  pub response : Option EnrollResponse
  pub key : String

pub record Setup : Type 0 where
  pub agent_id : String
  pub force_enroll_on_start : Bool
  pub has_path : Bool
  pub tls_configured : Bool

-- A write or a removal of a file: done, left undone with an error, or done with an error.
pub data Disk : Type 0 where
  done undone unsynced : Disk

-- The request was refused with that status of HTTP, with that of an incompatibility (0 where the
-- agent found it), or something else failed.
pub data AttemptError : Type 0 where
  http incompatible : ℤ → AttemptError
  other : AttemptError

pub data Enrolled : Type 0 where
  issued : EnrollResponse → Enrolled
  refused : AttemptError → Enrolled

-- What the system and the server answer, by the number of the step.
pub record World : Type 0 where
  pub readable : ℕ → Bool
  pub write : ℕ → Disk
  pub remove : ℕ → Disk
  pub enroll : ℕ → PendingEnrollment → String → Enrolled
  pub parses_uuid : String → Bool
  pub pair : String → String → Option Certificate
  pub now : ℕ → ℕ
  pub persist_server_ca : ℕ → Bool
  pub persist_pair : ℕ → Bool
  pub clockwork : Clockwork

-- The manager, the file of the pending enrollment, and each request that was sent: its id, and the
-- file at that time.
pub record State : Type 0 where
  pub manager : Manager
  pub pending : Option PendingEnrollment
  pub sent : List (String × Option PendingEnrollment)
  pub tick : ℕ

abbrev pub is_method : String → Bool
is_method method =
    str_eq method "bootstrap" || str_eq method "renewal" || str_eq method "renewal_previous"

-- The fields that a save sets.
abbrev pub stamped : Setup → PendingEnrollment → PendingEnrollment
stamped s p = record p {
  version = pos 2;
  agent_id = trim_space s.agent_id;
  method = trim_space p.method;
  request_agent_id = trim_space s.agent_id;
}

abbrev pub written : Disk → PendingEnrollment → State → State × Bool
written done p e = (record e { pending = some p; tick = suc e.tick }, true)
written undone p e = (record e { tick = suc e.tick }, false)
written unsynced p e = (record e { pending = some p; tick = suc e.tick }, false)

abbrev pub cleared : Disk → State → State × Bool
cleared done e = (record e { pending = none; tick = suc e.tick }, true)
cleared undone e = (record e { tick = suc e.tick }, false)
cleared unsynced e = (record e { pending = none; tick = suc e.tick }, false)

pub data Loaded : Type 0 where
  missing broken : Loaded
  found : PendingEnrollment → Loaded

module _ (s : Setup) (w : World) where
  unfoldable pub save_pending_enrollment : PendingEnrollment → State → State × Bool
  save_pending_enrollment p e =
      if not s.has_path
      then (e, false)
      else if not (is_method (trim_space p.method))
      then (e, false)
      else if not (w.parses_uuid (trim_space p.enrollment_id))
      then (e, false)
      else written (w.write e.tick) (stamped s p) e

  unfoldable pub is_own : PendingEnrollment → Bool
  is_own p =
      eq_ℤ p.version (pos 2)
      && str_eq (trim_space p.agent_id) (trim_space s.agent_id)
      && is_method (trim_space p.method)
      && str_eq (trim_space p.request_agent_id) (trim_space s.agent_id)
      && w.parses_uuid (trim_space p.enrollment_id)

  unfoldable pub load_pending_enrollment : State → Loaded
  load_pending_enrollment e = if not s.has_path then missing else elim e.pending [
    | none ↦ missing
    | some p ↦ if not (w.readable e.tick) then broken else if is_own p then found p else broken
  ]

  unfoldable pub clear_pending_enrollment : State → State × Bool
  clear_pending_enrollment e = if not s.has_path then (e, true) else cleared (w.remove e.tick) e

  -- `response.Certificate != nil && len(pending.KeyPEM) > 0`, and ValidateIssuedPair.
  unfoldable pub has_bad_pair : PendingEnrollment → EnrollResponse → State → Bool
  has_bad_pair p r e = elim r.certificate [
    | none ↦ false
    | some c ↦
        not (str_eq p.key "")
        && (elim (validate_issued_pair w.pair c p.key s.agent_id (w.now e.tick) (w.now e.tick)) [
          | none ↦ false
          | some x ↦ true
        ])
  ]

  -- `persistEnrollmentCertificate`, with the answer of PersistPair.
  unfoldable pub persist_enrollment_certificate : Option String → String → State → Bool
  persist_enrollment_certificate certificate key e =
      if not s.tls_configured then true else elim certificate [
        | none ↦ false
        | some c ↦ if str_eq key "" || is_blank c then false else w.persist_pair e.tick
      ]

  abbrev pub persist_enrollment_server_ca : Option String → State → Bool
  persist_enrollment_server_ca none e = true
  persist_enrollment_server_ca (some c) e = w.persist_server_ca e.tick

  -- The update of the credential and the removal of the file.
  unfoldable pub apply_response :
      PendingEnrollment → EnrollResponse → State → State × Option AttemptError
  apply_response p r e =
      let (m, failed) = apply_credential_update w.clockwork r.credential p.method e.manager in
      let (e', is_cleared) = clear_pending_enrollment (record e { manager = m }) in
      elim failed [
        | some x ↦ (e, some other)
        | none ↦ if is_cleared then (e', none) else (e', some other)
      ]

  -- `finalizePendingEnrollment`, where the response is there.
  unfoldable pub finalize_response :
      PendingEnrollment → EnrollResponse → State → State × Option AttemptError
  finalize_response p r e =
      if not (str_eq (trim_space r.agent_id) (trim_space s.agent_id))
      then (e, some other)
      else elim (negotiate r.protocol) [
        | disagreed i ↦ (e, some (incompatible (pos i.http_status)))
        | agreed n ↦
            if is_blank r.credential.credential || has_bad_pair p r e
            then (e, some other)
            else if not (persist_enrollment_server_ca r.certificate e)
            then (e, some other)
            else if not (persist_enrollment_certificate r.certificate p.key e)
            then (e, some other)
            else apply_response p r e
      ]

  -- Whether it was resumed, and the error.
  unfoldable pub resume_pending_enrollment : State → State × Bool × Option AttemptError
  resume_pending_enrollment e = elim (load_pending_enrollment e) [
    | missing ↦ (e, false, none)
    | broken ↦ (e, false, some other)
    | found p ↦ elim p.response [
      | none ↦ (e, false, none)
      | some r ↦ let (e', error) = finalize_response p r e in (e', true, error)
    ]
  ]
