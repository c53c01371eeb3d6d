-- ===== src/Sender/Rules.antt =====
-- The retry loop and the drain limit of internal/sender/sender.go.
use mathlib.Core.Path.{subst, sym}
use seagull_agent.Prelude.{
  ℕ, zero, suc, ◌+◌, ◌≤◌, ◌<◌, ◌≡◌, ◌≢◌, refl, ◌⊎◌, true, false, ◌&&◌, none, some, inl, inr, arith,
  String, ltb, Bool-cases, Option-cases,
}
use seagull_agent.Protocol.Incompatibility.{}
use seagull_agent.Sender.Classify.{SendError, is_retryable, spool_drain_limit}
use seagull_agent.Sender.Post.{
  Payload, Body, Answer, no_request, failure, response, Outcome, Network, post_once, attempts_from,
  post_with_retry, nothing_sent, is_success, validate_acknowledgement,
}

-- Between 8 and 64 entries are drained at a time, whatever the batch size.
pub spool_drain_limit_bounds :
    (max_batch : ℕ) → (8 ≤ spool_drain_limit max_batch) × (spool_drain_limit max_batch ≤ 64)
unfolding spool_drain_limit
spool_drain_limit_bounds max_batch = ground arith

-- The server's confirmation of a payload: a 2xx answer whose acknowledgement checks out.
abbrev pub Confirms : String → Payload → Answer → Type 0
Confirms kind payload a =
    (status : ℕ) × (b : Body) × (a ≡ response status b)
    × (is_success status ≡ true)
    × (validate_acknowledgement kind payload b ≡ none)

post_once-Confirms :
    (kind : String) (payload : Payload) (a : Answer)
    → (post_once kind payload a).error ≡ none
    → Confirms kind payload a
unfolding post_once
post_once-Confirms kind payload no_request h = cc
post_once-Confirms kind payload (failure e) h = cc
post_once-Confirms kind payload (response status b) h = elim (Bool-cases (is_success status)) [
  | inl good ↦ (status, b, refl, good, rw good at h)
  | inr bad ↦ cc (rw bad at h)
]

module _ (kind : String) (payload : Payload) (net : Network) where
  abbrev pub now : ℕ → Outcome
  now attempt = post_once kind payload (net.answer attempt)

  attempts_from-Confirms :
      (left attempt : ℕ) (last : Outcome)
      → (left ≡ zero → last.error ≢ none)
      → (attempts_from kind payload net left attempt last).error ≡ none
      → (k : ℕ) × (attempt ≤ k) × (k < attempt + left) × Confirms kind payload (net.answer k)
  unfolding attempts_from
  attempts_from-Confirms zero attempt last bad h = absurd (bad refl h)
  attempts_from-Confirms (suc left) attempt last bad h =
      elim (Bool-cases (ltb 0 attempt && net.stops attempt)) [
        | inl halt ↦ cc (rw halt at h)
        | inr go ↦ elim (Option-cases (now attempt).error) [
          | inl good ↦ (
            attempt,
            omega arith,
            omega arith,
            post_once-Confirms kind payload (net.answer attempt) good,
          )
          | inr (err, failed) ↦ elim (Bool-cases (is_retryable err (now attempt).status)) [
            | inr final ↦ cc (failed, rw (go, failed, final, attempts_from) at h)
            | inl again ↦
                let (k, after, before, confirmed) =
                  attempts_from-Confirms left (suc attempt) (now attempt) (λ _ e. cc (failed, e))
                    (rw (go, failed, again, attempts_from) at h) in
                (k, omega (arith, after), omega (arith, before), confirmed)
          ]
        ]
      ]

  -- A call that succeeds was confirmed by the server in one of its attempts, of which there are at
  -- most one more than the retries.
  pub post_with_retry-Confirms :
      (retries : ℕ)
      → (post_with_retry retries kind payload net).error ≡ none
      → (k : ℕ) × (k ≤ retries) × Confirms kind payload (net.answer k)
  unfolding post_with_retry
  post_with_retry-Confirms retries h =
      let (k, after, before, confirmed) =
        attempts_from-Confirms (suc retries) 0 nothing_sent (λ e. absurd (omega arith)) h in
      (k, omega (arith, before), confirmed)

  -- An attempt that failed in a way that is tried again.
  abbrev pub Retried : ℕ → Type 0
  Retried k =
      (err : SendError) × ((now k).error ≡ some err) × (is_retryable err (now k).status ≡ true)

  -- An attempt after which there is no other: it succeeded, or failed for good.
  abbrev pub Final : ℕ → Type 0
  Final k =
      ((now k).error ≡ none)
      ⊎ ((err : SendError) × ((now k).error ≡ some err) × (is_retryable err (now k).status ≡ false))

  stop_here :
      (left attempt : ℕ) (last : Outcome)
      → (ltb 0 attempt && net.stops attempt) ≡ false
      → Final attempt
      → attempts_from kind payload net (suc left) attempt last ≡ now attempt
  unfolding attempts_from
  stop_here left attempt last go (inl good) = simp (go, good)
  stop_here left attempt last go (inr (err, failed, final)) = simp (go, failed, final)

  attempts_from-Final :
      (k left attempt : ℕ) (last : Outcome)
      → ((i : ℕ) → (ltb 0 i && net.stops i) ≡ false)
      → ((i : ℕ) → i < attempt + k → Retried i)
      → Final (attempt + k)
      → k < left
      → attempts_from kind payload net left attempt last ≡ now (attempt + k)
  unfolding attempts_from
  attempts_from-Final k zero attempt last run before final h = elim h [ ]
  attempts_from-Final zero (suc left) attempt last run before final h =
      let here : attempt + 0 ≡ attempt = omega arith in
      rw here (stop_here left attempt last (run attempt) (rw here at final))
  attempts_from-Final (suc k) (suc left) attempt last run before final h =
      let (err, failed, again) = before attempt (omega arith) in
      let later : attempt + suc k ≡ suc attempt + k = omega arith in
      rw (run attempt, failed, again, later, attempts_from)
        (attempts_from-Final k left (suc attempt) (now attempt) run
          (λ i p. before i (omega (arith, p))) (rw later at final) (omega arith))

  -- With a context that does not end, the answer is that of the first attempt that succeeds or
  -- fails for good, if it is among the attempts that are allowed.
  pub post_with_retry-Final :
      (retries k : ℕ)
      → ((i : ℕ) → (ltb 0 i && net.stops i) ≡ false)
      → ((i : ℕ) → i < k → Retried i)
      → Final k
      → k ≤ retries
      → post_with_retry retries kind payload net ≡ now k
  unfolding post_with_retry
  post_with_retry-Final retries k run before final h =
      let e : 0 + k ≡ k = omega arith in
      subst (λ j. attempts_from kind payload net (suc retries) 0 nothing_sent ≡ now j) e
        (attempts_from-Final k (suc retries) 0 nothing_sent run (λ i p. before i (omega (arith, p)))
          (subst (λ j. Final j) (sym e) final) (omega arith))
