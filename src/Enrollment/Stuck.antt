-- ===== src/Enrollment/Stuck.antt =====
-- manager.go and pending.go: a response that was saved and cannot be used.
use seagull_agent.Prelude.{
  ℕ, pos, String, str_eq, is_blank, trim_space, ◌≡◌, ◌≢◌, refl, inl, inr, Bool, true, false, not,
  ◌||◌, Option, some, Bool-cases,
}
use seagull_agent.Protocol.Incompatibility.{Incompatibility}
use seagull_agent.Protocol.Negotiate.{disagreed, negotiate, agreed}
use seagull_agent.Enrollment.Tokens.{Config}
use seagull_agent.Enrollment.Backoff.{is_backed_off}
use seagull_agent.Enrollment.Sent.{Negotiated-cases}
use seagull_agent.Enrollment.Pending.{
  EnrollResponse, PendingEnrollment, Setup, AttemptError, World, State, is_own,
  load_pending_enrollment, has_bad_pair, finalize_response, resume_pending_enrollment,
}
use seagull_agent.Enrollment.Durable.{started}
use seagull_agent.Enrollment.Recover.{Draft, recovered, recover_identity, retry_of}

-- A response for another agent, from a server that the agent cannot talk to, without a credential,
-- or with a certificate that is not the agent's or not valid now.
pub data IsUseless (s : Setup) (w : World) (p : PendingEnrollment) (r : EnrollResponse) (e : State)
    : Type 0 where
  for_another :
      not (str_eq (trim_space r.agent_id) (trim_space s.agent_id)) ≡ true → IsUseless s w p r e
  of_another_protocol :
      (i : Incompatibility) → negotiate r.protocol ≡ disagreed i → IsUseless s w p r e
  not_usable :
      (is_blank r.credential.credential || has_bad_pair s w p r e) ≡ true → IsUseless s w p r e

module _ (s : Setup) (w : World) where
  finalize_response-useless :
      (p : PendingEnrollment) (r : EnrollResponse) (e : State)
      → IsUseless s w p r e
      → (x : AttemptError) × (finalize_response s w p r e ≡ (e, some x))
  unfolding finalize_response
  finalize_response-useless p r e useless =
      elim (Bool-cases (not (str_eq (trim_space r.agent_id) (trim_space s.agent_id)))) [
        | inl a ↦ (AttemptError.other, rw (a, finalize_response) refl)
        | inr a ↦ elim (Negotiated-cases (negotiate r.protocol)) [
          | inl (i, b) ↦
              (AttemptError.incompatible (pos i.http_status), rw (a, b, finalize_response) refl)
          | inr (n, b) ↦
              (AttemptError.other, rw (a, b, unusable a n b useless, finalize_response) refl)
        ]
      ]
    where
      unusable :
          not (str_eq (trim_space r.agent_id) (trim_space s.agent_id)) ≡ false
          → (n : _) → negotiate r.protocol ≡ agreed n
          → IsUseless s w p r e
          → (is_blank r.credential.credential || has_bad_pair s w p r e) ≡ true
      unusable a n b (for_another c) = absurd (cc (a, c))
      unusable a n b (of_another_protocol i c) = absurd (cc (b, c))
      unusable a n b (not_usable c) = c

  resume-useless :
      (p : PendingEnrollment) (r : EnrollResponse) (e : State)
      → s.has_path ≡ true
      → e.pending ≡ some p
      → p.response ≡ some r
      → IsUseless s w p r e
      → (resumed : Bool) × (x : AttemptError) × (resume_pending_enrollment s w e
          ≡ (e, resumed, some x))
  unfolding resume_pending_enrollment load_pending_enrollment
  resume-useless p r e path there answered useless =
      let (x, ended) = finalize_response-useless p r e useless in
      elim (Bool-cases (not (w.readable e.tick))) [
        | inl a ↦ (
          false,
          AttemptError.other,
          simp (path, there, a, resume_pending_enrollment, load_pending_enrollment) refl,
        )
        | inr a ↦ elim (Bool-cases (is_own s w p)) [
          | inr b ↦ (
            false,
            AttemptError.other,
            simp (path, there, a, b, resume_pending_enrollment, load_pending_enrollment) refl,
          )
          | inl b ↦ (
            true,
            x,
            simp
                (
                  path, there, a, b, answered, ended, resume_pending_enrollment,
                  load_pending_enrollment,
                )
                refl,
          )
        ]
      ]

same_time :
    (s : Setup) (w : World) (p : PendingEnrollment) (r : EnrollResponse) (e : State)
    → IsUseless s w p r e
    → IsUseless s w p r (started e)
unfolding has_bad_pair
same_time s w p r e (for_another a) = for_another a
same_time s w p r e (of_another_protocol i a) = of_another_protocol i a
same_time s w p r e (not_usable a) = not_usable a

-- Where the file of the pending enrollment holds a response for another agent, from an
-- incompatible server, without a credential, or with a certificate that ValidateIssuedPair does
-- not take now, RecoverIdentity does not succeed, sends nothing and leaves the file as it is.
pub useless_response-sticks :
    (s : Setup) (w : World) (cfg : Config) (read : String → String) (new_id : ℕ → String)
    (make_request : Option Draft) (force : Bool) (e : State) (p : PendingEnrollment)
    (r : EnrollResponse)
    → s.has_path ≡ true
    → e.pending ≡ some p
    → p.response ≡ some r
    → IsUseless s w p r e
    → let after = recover_identity s w cfg read new_id make_request force e in
      (after.1 ≢ recovered) × (after.0.pending ≡ e.pending) × (after.0.sent ≡ e.sent)
unfolding recover_identity
useless_response-sticks s w cfg read new_id make_request force e p r path there answered useless =
    let (resumed, x, ended) =
      resume-useless s w p r (started e) path there answered (same_time s w p r e useless) in
    elim (Bool-cases (not s.force_enroll_on_start)) [
      | inl a ↦ rw (a, recover_identity) (λ h. cc h, refl, refl)
      | inr a ↦
          elim (Bool-cases (
            is_backed_off force (w.now e.tick)
              (retry_of s w cfg read new_id make_request e.manager))) [
                | inl b ↦ rw (a, b, recover_identity) (λ h. cc h, refl, refl)
                | inr b ↦
                    rw (a, b, recover_identity, ended) (λ h. cc h, rw ended refl, rw ended refl)
              ]
    ]
