-- ===== src/Sender/Events.antt =====
-- The counters of `SendEvents`, over all chunks, on success and on failure.
use seagull_agent.Prelude.{
  ℕ, zero, suc, ◌+◌, ◌≤◌, ◌<◌, ◌≡◌, ◌≢◌, refl, ◌⊎◌, Option, none, some, inl, inr, List, [], ◌∷◌,
  arith, String, length, Bool-cases, Option-cases,
}
use seagull_agent.Sender.Classify.{SendError, is_durably_queued, kind_events}
use seagull_agent.Sender.Deliver.{
  Sender, Call, deliver, EventResult, EventsError, marshal_failed, send_failed, take, drop,
  count_chunk, send_chunks, send_events,
}
use seagull_agent.Sender.Post.{Payload, Outcome}

module _ {A : Type 0} where
  length-take-drop : (n : ℕ) (l : List A) → length (take n l) + length (drop n l) ≡ length l
  unfolding take drop
  length-take-drop zero l = omega arith
  length-take-drop (suc n) [] = refl
  length-take-drop (suc n) (x ∷ l) = omega (arith, length-take-drop n l)

  length-drop-lt : (n : ℕ) (x : A) (l : List A) → 0 < n → length (drop n (x ∷ l)) < length (x ∷ l)
  unfolding drop
  length-drop-lt zero x l h = absurd (omega arith)
  length-drop-lt (suc n) x l h = omega (arith, length-take-drop n l)

max_batch-deliver :
    (c : Call) (kind batch_id : String) (payload : Payload) (s : Sender)
    → (deliver c kind batch_id payload s).0.max_batch ≡ s.max_batch
unfolding deliver
max_batch-deliver c kind batch_id payload s = ground arith

-- The counters never pass one another, and without an error everything was delivered.
pub record Sound (attempted : ℕ) (r : EventResult) (failed : Option EventsError) : Type 0 where
  pub same_total : r.attempted ≡ attempted
  pub durable_first : r.delivered ≤ r.durable
  pub no_more : r.durable ≤ attempted
  pub all_if_ok : (failed ≢ none) ⊎ ((r.delivered ≡ attempted) × (r.durable ≡ attempted))

-- The counters before a round, with `left` events to go.
record Going (attempted left : ℕ) (r : EventResult) : Type 0 where
  total : r.attempted ≡ attempted
  delivered_so_far : r.delivered + left ≡ attempted
  durable_so_far : r.durable ≡ r.delivered

chunk_ok :
    (attempted n left : ℕ) (out : Outcome) (r : EventResult)
    → Going attempted (n + left) r
    → out.error ≡ none
    → Going attempted left (count_chunk n out r).0 × ((count_chunk n out r).1 ≡ none)
unfolding count_chunk
chunk_ok attempted n left out r g ok =
    rw (ok, count_chunk)
      (
        record {
          total = g.total;
          delivered_so_far = omega (arith, g.delivered_so_far);
          durable_so_far = omega (arith, g.durable_so_far);
        },
        refl,
      )

chunk_failed :
    (attempted n left : ℕ) (out : Outcome) (r : EventResult) (err : SendError)
    → Going attempted (n + left) r
    → out.error ≡ some err
    → Sound attempted (count_chunk n out r).0 (some (send_failed err))
      × ((count_chunk n out r).1 ≡ some (send_failed err))
unfolding count_chunk
chunk_failed attempted n left out r err g bad = elim (Bool-cases (is_durably_queued err)) [
  | inl kept ↦
      rw (bad, count_chunk, kept)
        (
          record {
            same_total = g.total;
            durable_first = omega (arith, g.delivered_so_far, g.durable_so_far);
            no_more = omega (arith, g.delivered_so_far, g.durable_so_far);
            all_if_ok = inl (λ e. cc);
          },
          refl,
        )
  | inr lost ↦
      rw (bad, count_chunk, lost)
        (
          record {
            same_total = g.total;
            durable_first = omega (arith, g.delivered_so_far, g.durable_so_far);
            no_more = omega (arith, g.delivered_so_far, g.durable_so_far);
            all_if_ok = inl (λ e. cc);
          },
          refl,
        )
]

stopped :
    (attempted left : ℕ) (r : EventResult) (err : EventsError)
    → Going attempted left r
    → Sound attempted r (some err)
stopped attempted left r err g = record {
  same_total = g.total;
  durable_first = omega (arith, g.delivered_so_far, g.durable_so_far);
  no_more = omega (arith, g.delivered_so_far, g.durable_so_far);
  all_if_ok = inl (λ e. cc);
}

through : (attempted : ℕ) (r : EventResult) → Going attempted 0 r → Sound attempted r none
through attempted r g = record {
  same_total = g.total;
  durable_first = omega (arith, g.delivered_so_far, g.durable_so_far);
  no_more = omega (arith, g.delivered_so_far, g.durable_so_far);
  all_if_ok = inr (
    omega (arith, g.delivered_so_far, g.durable_so_far),
    omega (arith, g.delivered_so_far, g.durable_so_far),
  );
}

-- The loop has come to an end with counters that are sound.
abbrev pub Ended : ℕ → Option (Sender × EventResult × Option EventsError) → Type 0
Ended attempted o =
    (s : Sender) × ((r : EventResult) × ((failed : Option EventsError) × (o ≡ some (s, r, failed))
        × Sound attempted r failed))

module _ {A : Type 0} (encode : List A → Option Payload) (calls : ℕ → Call) where
  send_chunks-Ended :
      (attempted fuel round : ℕ) (events : List A) (s : Sender) (r : EventResult)
      → Going attempted (length events) r
      → 0 < s.max_batch
      → length events < fuel
      → Ended attempted (send_chunks encode calls fuel round events s r)
  unfolding send_chunks
  send_chunks-Ended attempted zero round events s r g batch enough = absurd (omega arith)
  send_chunks-Ended attempted (suc fuel) round [] s r g batch enough =
      (s, (r, (none, refl, through attempted r g)))
  send_chunks-Ended attempted (suc fuel) round (e ∷ events) s r g batch enough =
      let all = e ∷ events in
      let chunk = take s.max_batch all in
      let rest = drop s.max_batch all in
      let split : length chunk + length rest ≡ length all = length-take-drop s.max_batch all in
      let shorter : length rest < length all = length-drop-lt s.max_batch e events batch in
      let before : Going attempted (length chunk + length rest) r = rw split g in
      elim (Option-cases (encode chunk)) [
        | inl unencoded ↦
            rw (unencoded, send_chunks)
              (
                s,
                (r, (some marshal_failed, refl, stopped attempted (length all) r marshal_failed g)),
              )
        | inr (payload, encoded) ↦
            let sent = deliver (calls round) kind_events "" payload s in
            let counted = count_chunk (length chunk) sent.1 r in
            let still : 0 < sent.0.max_batch =
              rw (max_batch-deliver (calls round) kind_events "" payload s) batch in
            elim (Option-cases sent.1.error) [
              | inl good ↦
                  let ok = chunk_ok attempted (length chunk) (length rest) sent.1 r before good in
                  rw (encoded, ok.1, send_chunks)
                    (send_chunks-Ended attempted fuel (suc round) rest sent.0 counted.0 ok.0 still
                      (omega (arith, shorter, enough)))
              | inr (err, bad) ↦
                  let ko =
                    chunk_failed attempted (length chunk) (length rest) sent.1 r err before bad in
                  rw (encoded, ko.1, send_chunks)
                    (sent.0, (counted.0, (some (send_failed err), refl, ko.0)))
            ]
      ]

  -- SendEvents comes to an end with a positive batch size, and its counters are sound: they never
  -- count an event as delivered that is not counted as durable, never more than were attempted, and
  -- without an error all of them.
  pub send_events-Ended :
      (events : List A) (s : Sender)
      → 0 < s.max_batch
      → Ended (length events) (send_events encode calls events s)
  unfolding send_events
  send_events-Ended events s batch =
      send_chunks-Ended (length events) (suc (length events)) 0 events s
        (record { status = 0; attempted = length events; delivered = 0; durable = 0 })
        (record { total = refl; delivered_so_far = omega arith; durable_so_far = refl }) batch
        (omega arith)
