-- ===== src/Enrollment/Sent.antt =====
-- pending.go: the saves and the end of an enrollment send no request.
use seagull_agent.Prelude.{
  str_eq, is_blank, trim_space, ◌≡◌, refl, ◌⊎◌, inl, inr, true, not, ◌||◌, some, Bool-cases,
  Option-cases,
}
use seagull_agent.Protocol.Negotiate.{Negotiated, agreed, disagreed, negotiate}
use seagull_agent.Enrollment.Tokens.{apply_credential_update}
use seagull_agent.Enrollment.Backoff.{}
use seagull_agent.Enrollment.Pending.{
  EnrollResponse, PendingEnrollment, Setup, Disk, done, undone, unsynced, World, State, is_method,
  stamped, written, cleared, save_pending_enrollment, clear_pending_enrollment, has_bad_pair,
  persist_enrollment_server_ca, persist_enrollment_certificate, apply_response, finalize_response,
}
use seagull_agent.Enrollment.Recover.{}

written-sent : (d : Disk) (p : PendingEnrollment) (e : State) → (written d p e).0.sent ≡ e.sent
written-sent done p e = refl
written-sent undone p e = refl
written-sent unsynced p e = refl

cleared-sent : (d : Disk) (e : State) → (cleared d e).0.sent ≡ e.sent
cleared-sent done e = refl
cleared-sent undone e = refl
cleared-sent unsynced e = refl

written-pending :
    (d : Disk) (p : PendingEnrollment) (e : State)
    → (written d p e).1 ≡ true
    → (written d p e).0.pending ≡ some p
written-pending done p e h = refl
written-pending undone p e h = absurd (cc h)
written-pending unsynced p e h = absurd (cc h)

pub Negotiated-cases : (n : Negotiated) → ((i : _) × (n ≡ disagreed i)) ⊎ ((a : _) × (n ≡ agreed a))
Negotiated-cases (agreed a) = inr (a, refl)
Negotiated-cases (disagreed i) = inl (i, refl)

module _ (s : Setup) (w : World) where
  pub save_pending_enrollment-sent :
      (p : PendingEnrollment) (e : State) → (save_pending_enrollment s w p e).0.sent ≡ e.sent
  unfolding save_pending_enrollment
  save_pending_enrollment-sent p e = elim (Bool-cases (not s.has_path)) [
    | inl a ↦ rw (a, save_pending_enrollment) refl
    | inr a ↦ elim (Bool-cases (not (is_method (trim_space p.method)))) [
      | inl b ↦ rw (a, b, save_pending_enrollment) refl
      | inr b ↦ elim (Bool-cases (not (w.parses_uuid (trim_space p.enrollment_id)))) [
        | inl c ↦ rw (a, b, c, save_pending_enrollment) refl
        | inr c ↦
            rw (a, b, c, save_pending_enrollment) (written-sent (w.write e.tick) (stamped s p) e)
      ]
    ]
  ]

  pub save_pending_enrollment-pending :
      (p : PendingEnrollment) (e : State)
      → (save_pending_enrollment s w p e).1 ≡ true
      → (save_pending_enrollment s w p e).0.pending ≡ some (stamped s p)
  unfolding save_pending_enrollment
  save_pending_enrollment-pending p e h = elim (Bool-cases (not s.has_path)) [
    | inl a ↦ absurd (cc (rw (a, save_pending_enrollment) at h))
    | inr a ↦ elim (Bool-cases (not (is_method (trim_space p.method)))) [
      | inl b ↦ absurd (cc (rw (a, b, save_pending_enrollment) at h))
      | inr b ↦ elim (Bool-cases (not (w.parses_uuid (trim_space p.enrollment_id)))) [
        | inl c ↦ absurd (cc (rw (a, b, c, save_pending_enrollment) at h))
        | inr c ↦
            rw (a, b, c, save_pending_enrollment)
              (written-pending (w.write e.tick) (stamped s p) e
                (rw (a, b, c, save_pending_enrollment) at h))
      ]
    ]
  ]

  pub clear_pending_enrollment-sent : (e : State) → (clear_pending_enrollment s w e).0.sent ≡ e.sent
  unfolding clear_pending_enrollment
  clear_pending_enrollment-sent e = elim (Bool-cases (not s.has_path)) [
    | inl a ↦ rw (a, clear_pending_enrollment) refl
    | inr a ↦ rw (a, clear_pending_enrollment) (cleared-sent (w.remove e.tick) e)
  ]

  apply_response-sent :
      (p : PendingEnrollment) (r : EnrollResponse) (e : State)
      → (apply_response s w p r e).0.sent ≡ e.sent
  unfolding apply_response
  apply_response-sent p r e =
      let updated = apply_credential_update w.clockwork r.credential p.method e.manager in
      let gone = clear_pending_enrollment s w (record e { manager = updated.0 }) in
      elim (Option-cases updated.1) [
        | inr (x, failed) ↦ rw (failed, apply_response) refl
        | inl well ↦ elim (Bool-cases gone.1) [
          | inl a ↦
              rw (well, a, apply_response)
                (clear_pending_enrollment-sent (record e { manager = updated.0 }))
          | inr a ↦
              rw (well, a, apply_response)
                (clear_pending_enrollment-sent (record e { manager = updated.0 }))
        ]
      ]

  pub finalize_response-sent :
      (p : PendingEnrollment) (r : EnrollResponse) (e : State)
      → (finalize_response s w p r e).0.sent ≡ e.sent
  unfolding finalize_response
  finalize_response-sent p r e =
      elim (Bool-cases (not (str_eq (trim_space r.agent_id) (trim_space s.agent_id)))) [
        | inl a ↦ rw (a, finalize_response) refl
        | inr a ↦ elim (Negotiated-cases (negotiate r.protocol)) [
          | inl (i, b) ↦ rw (a, b, finalize_response) refl
          | inr (n, b) ↦
              elim (Bool-cases (is_blank r.credential.credential || has_bad_pair s w p r e)) [
                | inl c ↦ rw (a, b, c, finalize_response) refl
                | inr c ↦
                    elim (Bool-cases (not (persist_enrollment_server_ca s w r.certificate e))) [
                      | inl d ↦ rw (a, b, c, d, finalize_response) refl
                      | inr d ↦
                          elim (Bool-cases
                            (not (persist_enrollment_certificate s w r.certificate p.key e))) [
                              | inl f ↦ rw (a, b, c, d, f, finalize_response) refl
                              | inr f ↦
                                  rw (a, b, c, d, f, finalize_response) (apply_response-sent p r e)
                            ]
                    ]
              ]
        ]
      ]
