-- ===== src/Sender/Flush.antt =====
-- `Flush` of internal/sender/sender.go: the answer of its callback to one envelope.
use seagull_agent.Prelude.{ℕ, ◌≤◌, ◌≡◌, ◌≢◌, inl, inr, ◌||◌, none, String, Bool-cases, Option-cases}
use seagull_agent.Sender.Classify.{endpoint_for, is_permanent_status, is_invalid_payload}
use seagull_agent.Sender.Deliver.{classify_flush, flush_delivery}
use seagull_agent.Sender.Post.{Payload, Outcome, Network, post_with_retry}
use seagull_agent.Sender.Rules.{Confirms, post_with_retry-Confirms}
use seagull_agent.Spool.Drain.{accepted}
use seagull_agent.Spool.Files.{Envelope}

classify_accepted : (out : Outcome) → classify_flush out ≡ accepted → out.error ≡ none
unfolding classify_flush
classify_accepted out h = elim (Option-cases out.error) [
  | inl good ↦ good
  | inr (err, bad) ↦ elim (Bool-cases (is_permanent_status out.status || is_invalid_payload err)) [
    | inl gone ↦ cc (rw (bad, classify_flush, gone) at h)
    | inr later ↦ cc (rw (bad, classify_flush, later) at h)
  ]
]

-- An entry that Flush lets the spool remove as delivered is of a known kind, and was confirmed by
-- the server in one of at most retries + 1 attempts.
pub flush_delivery-Confirms :
    (retries : ℕ) (decode : String → Payload) (net : Envelope → Network) (env : Envelope)
    → flush_delivery retries decode net env ≡ accepted
    → (endpoint_for env.kind ≢ none)
      × ((k : ℕ) × (k ≤ retries) × Confirms env.kind (decode env.payload) ((net env).answer k))
unfolding flush_delivery
flush_delivery-Confirms retries decode net env h = elim (Option-cases (endpoint_for env.kind)) [
  | inl nowhere ↦ cc (rw (nowhere, flush_delivery) at h)
  | inr (path, known) ↦
      let out = post_with_retry retries env.kind (decode env.payload) (net env) in
      let good : out.error ≡ none = classify_accepted out (rw (known, flush_delivery) at h) in
      (
        λ bad. cc (known, bad),
        post_with_retry-Confirms env.kind (decode env.payload) (net env) retries good,
      )
]
