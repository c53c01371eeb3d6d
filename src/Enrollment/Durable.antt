-- ===== src/Enrollment/Durable.antt =====
-- manager.go and pending.go: what is on the disk when a request of an enrollment is sent.
use seagull_agent.Prelude.{
  ℕ, String, str_eq, ◌≡◌, refl, ◌⊎◌, inl, inr, Bool, true, false, not, Option, some, List, [], ◌∷◌,
  Bool-cases, arith, Option-cases,
}
use seagull_agent.Protocol.Negotiate.{}
use seagull_agent.Enrollment.Tokens.{
  Config, RecoveryMethod, available_recovery_methods, recovery_method_token, remove_recovery_method,
}
use seagull_agent.Enrollment.Backoff.{is_backed_off}
use seagull_agent.Enrollment.Pending.{
  PendingEnrollment, Setup, World, State, missing, broken, found, stamped, save_pending_enrollment,
  is_own, load_pending_enrollment, clear_pending_enrollment, resume_pending_enrollment,
}
use seagull_agent.Enrollment.Recover.{
  Draft, is_unauthorized, attempt_pending_enrollment, drafted, try_methods, enroll_anew, replay,
  recover_unresumed, recover_identity, retry_of,
}
use seagull_agent.Enrollment.Sent.{
  save_pending_enrollment-sent, save_pending_enrollment-pending, clear_pending_enrollment-sent,
  finalize_response-sent,
}
use seagull_agent.Enrollment.Attempts.{
  AllSaved, unsent, attempt_pending_enrollment-Saved, give_up-Saved,
}

-- The manager of a recovery that has begun.
abbrev pub started : State → State
started e = record e { manager = record e.manager { next_enroll_retry_at = 0 } }

module _ (s : Setup) (w : World) (new_id : ℕ → String) (draft : Draft) (now failures : ℕ) where
  try_methods-Saved :
      (l : List RecoveryMethod) (e : State)
      → AllSaved e
      → AllSaved (try_methods s w new_id draft now failures l e).0
  unfolding try_methods
  try_methods-Saved [] e saved = saved
  try_methods-Saved (method ∷ l) e saved =
      let p = drafted s w draft (new_id e.tick) method.name in
      let stored = save_pending_enrollment s w p e in
      let tried = attempt_pending_enrollment s w (stamped s p) method.token stored.0 in
      let clean = clear_pending_enrollment s w tried.0 in
      let kept = unsent e stored.0 (save_pending_enrollment-sent s w p e) saved in
      elim (Bool-cases (not stored.1)) [
        | inl a ↦ rw (a, try_methods) kept
        | inr a ↦
            let there = save_pending_enrollment-pending s w p e (stored_well stored.1 a) in
            let left =
              attempt_pending_enrollment-Saved s w (stamped s p) (stamped s p) method.token stored.0
                there refl kept in
            let cleaned = unsent tried.0 clean.0 (clear_pending_enrollment-sent s w tried.0) left in
            elim (Option-cases tried.1) [
              | inl b ↦ rw (a, b, try_methods) left
              | inr (x, b) ↦ elim (Bool-cases (is_unauthorized x)) [
                | inr c ↦ rw (a, b, c, try_methods) (give_up-Saved s w now failures x tried.0 left)
                | inl c ↦ elim (Bool-cases clean.1) [
                  | inl d ↦ rw (a, b, c, d, try_methods) (try_methods-Saved l clean.0 cleaned)
                  | inr d ↦ rw (a, b, c, d, try_methods) cleaned
                ]
              ]
            ]
      ]
    where
      stored_well : (b : Bool) → not b ≡ false → b ≡ true
      stored_well b h = ground arith

module _ (s : Setup) (w : World) (cfg : Config) (read : String → String) (new_id : ℕ → String)
    (make_request : Option Draft) where
  enroll_anew-Saved :
      (now failures : ℕ) (l : List RecoveryMethod) (e : State)
      → AllSaved e
      → AllSaved (enroll_anew s w cfg read new_id make_request now failures l e).0
  unfolding enroll_anew
  enroll_anew-Saved now failures [] e saved = saved
  enroll_anew-Saved now failures (method ∷ l) e saved = elim (Option-cases make_request) [
    | inl a ↦ rw (a, enroll_anew) saved
    | inr (draft, a) ↦
        rw (a, enroll_anew) (try_methods-Saved s w new_id draft now failures (method ∷ l) e saved)
  ]

  replay-Saved :
      (now failures : ℕ) (l : List RecoveryMethod) (p : PendingEnrollment) (e : State)
      → e.pending ≡ some p
      → AllSaved e
      → AllSaved (replay s w cfg read new_id make_request now failures l p e).0
  unfolding replay
  replay-Saved now failures l p e there saved =
      let token = recovery_method_token l p.method in
      let tried = attempt_pending_enrollment s w p token e in
      let clean = clear_pending_enrollment s w tried.0 in
      let left = attempt_pending_enrollment-Saved s w p p token e there refl saved in
      let cleaned = unsent tried.0 clean.0 (clear_pending_enrollment-sent s w tried.0) left in
      elim (Bool-cases (str_eq token "")) [
        | inl a ↦ rw (a, replay) saved
        | inr a ↦ elim (Option-cases tried.1) [
          | inl b ↦ rw (a, b, replay) left
          | inr (x, b) ↦ elim (Bool-cases (is_unauthorized x)) [
            | inr c ↦ rw (a, b, c, replay) (give_up-Saved s w now failures x tried.0 left)
            | inl c ↦ elim (Bool-cases clean.1) [
              | inr d ↦ rw (a, b, c, d, replay) cleaned
              | inl d ↦
                  rw (a, b, c, d, replay)
                    (enroll_anew-Saved now failures (remove_recovery_method l p.method) clean.0
                      cleaned)
            ]
          ]
        ]
      ]

  Loaded-cases :
      (e : State)
      → (load_pending_enrollment s w e ≡ missing)
        ⊎ ((load_pending_enrollment s w e ≡ broken)
            ⊎ ((p : PendingEnrollment) × (load_pending_enrollment s w e ≡ found p)
                × (e.pending ≡ some p)))
  unfolding load_pending_enrollment
  Loaded-cases e = elim (Bool-cases (not s.has_path)) [
    | inl a ↦ inl (rw (a, load_pending_enrollment) refl)
    | inr a ↦ elim (Option-cases e.pending) [
      | inl b ↦ inl (rw (a, b, load_pending_enrollment) refl)
      | inr (p, b) ↦ elim (Bool-cases (not (w.readable e.tick))) [
        | inl c ↦ inr (inl (rw (a, b, c, load_pending_enrollment) refl))
        | inr c ↦ elim (Bool-cases (is_own s w p)) [
          | inl d ↦ inr (inr (p, rw (a, b, c, d, load_pending_enrollment) refl, b))
          | inr d ↦ inr (inl (rw (a, b, c, d, load_pending_enrollment) refl))
        ]
      ]
    ]
  ]

  resume_pending_enrollment-sent : (e : State) → (resume_pending_enrollment s w e).0.sent ≡ e.sent
  unfolding resume_pending_enrollment
  resume_pending_enrollment-sent e = elim (Loaded-cases e) [
    | inl a ↦ rw (a, resume_pending_enrollment) refl
    | inr (inl a) ↦ rw (a, resume_pending_enrollment) refl
    | inr (inr (p, a, there)) ↦ elim (Option-cases p.response) [
      | inl b ↦ rw (a, b, resume_pending_enrollment) refl
      | inr (r, b) ↦ rw (a, b, resume_pending_enrollment) (finalize_response-sent s w p r e)
    ]
  ]

  recover_unresumed-Saved :
      (now failures : ℕ) (e : State)
      → AllSaved e
      → AllSaved (recover_unresumed s w cfg read new_id make_request now failures e).0
  unfolding recover_unresumed
  recover_unresumed-Saved now failures e saved =
      let methods = available_recovery_methods cfg read now e.manager in
      elim (Loaded-cases e) [
        | inl a ↦ rw (a, recover_unresumed) (enroll_anew-Saved now failures methods e saved)
        | inr (inl a) ↦ rw (a, recover_unresumed) saved
        | inr (inr (p, a, there)) ↦
            rw (a, recover_unresumed) (replay-Saved now failures methods p e there saved)
      ]

  -- Whatever the server and the disk answer, RecoverIdentity sends a request only while the file
  -- of the pending enrollment holds one with its id, if this is so of the requests before.
  pub recover_identity-Saved :
      (force : Bool) (e : State)
      → AllSaved e
      → AllSaved (recover_identity s w cfg read new_id make_request force e).0
  unfolding recover_identity
  recover_identity-Saved force e saved =
      let resumed = resume_pending_enrollment s w (started e) in
      let kept = unsent (started e) resumed.0 (resume_pending_enrollment-sent (started e)) saved in
      elim (Bool-cases (not s.force_enroll_on_start)) [
        | inl a ↦ rw (a, recover_identity) saved
        | inr a ↦
            elim (Bool-cases (
              is_backed_off force (w.now e.tick)
                (retry_of s w cfg read new_id make_request e.manager))) [
                  | inl b ↦ rw (a, b, recover_identity) saved
                  | inr b ↦ elim (Option-cases resumed.2) [
                    | inr (x, c) ↦ rw (a, b, c, recover_identity) kept
                    | inl c ↦ elim (Bool-cases resumed.1) [
                      | inl d ↦ rw (a, b, c, d, recover_identity) kept
                      | inr d ↦
                          rw (a, b, c, d, recover_identity)
                            (recover_unresumed-Saved (w.now e.tick) e.manager.recovery_failures
                              resumed.0 kept)
                    ]
                  ]
                ]
      ]
