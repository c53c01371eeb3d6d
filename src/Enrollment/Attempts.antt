-- ===== src/Enrollment/Attempts.antt =====
-- manager.go: a request is sent while the file of the pending enrollment holds it.
use seagull_agent.Prelude.{
  ℕ, String, trim_space, ◌≡◌, refl, ◌⊎◌, inl, inr, Option, some, All, Bool-cases,
}
use seagull_agent.Protocol.Negotiate.{negotiate}
use seagull_agent.Enrollment.Tokens.{}
use seagull_agent.Enrollment.Backoff.{}
use seagull_agent.Enrollment.Pending.{
  EnrollResponse, PendingEnrollment, Setup, AttemptError, Enrolled, issued, refused, World, State,
  stamped, save_pending_enrollment, clear_pending_enrollment, finalize_response,
}
use seagull_agent.Enrollment.Recover.{
  is_told_incompatible, send, keep_response, attempt_pending_enrollment, give_up,
}
use seagull_agent.Enrollment.Sent.{
  save_pending_enrollment-sent, clear_pending_enrollment-sent, finalize_response-sent,
  Negotiated-cases,
}

-- When the request was sent, the file held it.
abbrev pub WasSaved : String × Option PendingEnrollment → Type 0
WasSaved (id, file) = (p : PendingEnrollment) × (file ≡ some p) × (p.enrollment_id ≡ id)

abbrev pub AllSaved : State → Type 0
AllSaved e = All WasSaved e.sent

pub unsent : (e e' : State) → e'.sent ≡ e.sent → AllSaved e → AllSaved e'
unsent e e' h saved = rw h saved

Enrolled-cases :
    (a : Enrolled)
    → ((x : AttemptError) × (a ≡ refused x)) ⊎ ((r : EnrollResponse) × (a ≡ issued r))
Enrolled-cases (issued r) = inr (r, refl)
Enrolled-cases (refused x) = inl (x, refl)

module _ (s : Setup) (w : World) where
  keep_response-Saved :
      (p : PendingEnrollment) (r : EnrollResponse) (e : State)
      → AllSaved e
      → AllSaved (keep_response s w p r e).0
  unfolding keep_response
  keep_response-Saved p r e saved =
      let answered = record p { response = some r } in
      let stored = save_pending_enrollment s w answered e in
      let kept = unsent e stored.0 (save_pending_enrollment-sent s w answered e) saved in
      elim (Bool-cases stored.1) [
        | inl a ↦
            rw (a, keep_response)
              (unsent stored.0 (finalize_response s w (stamped s answered) r stored.0).0
                (finalize_response-sent s w (stamped s answered) r stored.0) kept)
        | inr a ↦ rw (a, keep_response) kept
      ]

  send-Saved :
      (p q : PendingEnrollment) (e : State)
      → e.pending ≡ some q
      → q.enrollment_id ≡ p.enrollment_id
      → AllSaved e
      → AllSaved (send s w p e)
  send-Saved p q e there same saved = ((q, there, same), saved)

  pub attempt_pending_enrollment-Saved :
      (p q : PendingEnrollment) (token : String) (e : State)
      → e.pending ≡ some q
      → q.enrollment_id ≡ p.enrollment_id
      → AllSaved e
      → AllSaved (attempt_pending_enrollment s w p token e).0
  unfolding attempt_pending_enrollment
  attempt_pending_enrollment-Saved p q token e there same saved =
      let left = send-Saved p q e there same saved in
      elim (Enrolled-cases (w.enroll e.tick p (trim_space token))) [
        | inl (x, a) ↦ rw (a, attempt_pending_enrollment) left
        | inr (r, a) ↦ elim (Negotiated-cases (negotiate r.protocol)) [
          | inl (i, b) ↦ rw (a, b, attempt_pending_enrollment) left
          | inr (n, b) ↦
              rw (a, b, attempt_pending_enrollment) (keep_response-Saved p r (send s w p e) left)
        ]
      ]

  pub give_up-Saved :
      (now failures : ℕ) (x : AttemptError) (e : State)
      → AllSaved e
      → AllSaved (give_up s w now failures x e).0
  unfolding give_up
  give_up-Saved now failures x e saved =
      let clean = clear_pending_enrollment s w e in
      let kept = unsent e clean.0 (clear_pending_enrollment-sent s w e) saved in
      elim (Bool-cases (is_told_incompatible x)) [
        | inr a ↦ rw (a, give_up) saved
        | inl a ↦ elim (Bool-cases clean.1) [
          | inl b ↦ rw (a, b, give_up) kept
          | inr b ↦ rw (a, b, give_up) kept
        ]
      ]
