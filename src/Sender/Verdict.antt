-- ===== src/Sender/Verdict.antt =====
-- How internal/sender/sender.go judges an answer: at the first send, and at a later flush.
use seagull_agent.Prelude.{
  ℕ, ◌≡◌, ◌≢◌, refl, ◌⊎◌, Bool, true, false, ◌&&◌, Option, none, some, inl, inr, arith, String,
  ◌==◌, Bool-cases, Option-cases, trim_space, str_eq, str_eq_iff, ℤ, pos, eq_ℤ_iff,
}
use seagull_agent.Protocol.Incompatibility
use seagull_agent.Protocol.Incompatibility.{decode_incompatibility}
use seagull_agent.Sender.Classify.{
  SendError, invalid_payload, incompatible, bad_status, is_spoolable, is_spoolable_status,
  is_permanent_status, is_invalid_payload, is_incompatible, is_unconfirmed, kind_events,
  kind_inventory, kind_vuln,
}
use seagull_agent.Sender.Post.{
  Payload, Body, Acknowledgement, ConflictEnvelope, response, post_once, is_success, or_bad_status,
  decode_permanent_delivery_error, decode_conflict, conflict_code, validate_acknowledgement,
  check_counted, check_stored, explicit_acknowledgement, received_all,
}

-- The one status that both lists name is 426.
permanent_spoolable :
    (status : ℕ)
    → is_permanent_status status ≡ true
    → is_spoolable_status status ≡ true
    → status ≡ 426
unfolding is_permanent_status is_spoolable_status
permanent_spoolable status h k = ground arith

not_success_of_permanent :
    (status : ℕ) → is_permanent_status status ≡ true → is_success status ≡ false
unfolding is_permanent_status is_success
not_success_of_permanent status h = ground arith

nonzero_of_permanent : (status : ℕ) → is_permanent_status status ≡ true → (status == 0) ≡ false
unfolding is_permanent_status
nonzero_of_permanent status h = ground arith

-- A 426 is always decoded as an incompatibility.
decoded_426 :
    (body : Option Incompatibility.Envelope)
    → (i : Incompatibility.Incompatibility) × (decode_incompatibility 426 body ≡ some i)
unfolding decode_incompatibility
decoded_426 none = (Incompatibility.unreadable_rejection 426, refl)
decoded_426 (some e) = (Incompatibility.describe (Incompatibility.unwrap e) 426, refl)

abbrev error_of : ℕ → Body → SendError
error_of status b = or_bad_status status (decode_permanent_delivery_error status b)

conflict_cases :
    (status : ℕ) (c : Option ConflictEnvelope)
    → (decode_conflict status c ≡ none) ⊎ (decode_conflict status c ≡ some invalid_payload)
unfolding decode_conflict
conflict_cases status none = inl refl
conflict_cases status (some c) =
    elim (Bool-cases (status == 409 && str_eq (conflict_code c) "batch_payload_conflict")) [
      | inl yes_it_is ↦ inr (rw yes_it_is)
      | inr other ↦ inl (rw other)
    ]

-- The three errors of an answer outside 2xx.
abbrev ErrorCases : ℕ → Body → Type 0
ErrorCases status b =
    ((i : Incompatibility.Incompatibility) × (error_of status b ≡ incompatible i))
    ⊎ ((error_of status b ≡ invalid_payload)
        ⊎ ((error_of status b ≡ bad_status status)
            × (decode_incompatibility status b.envelope ≡ none)))

error_cases : (status : ℕ) (b : Body) → ErrorCases status b
unfolding decode_permanent_delivery_error
error_cases status b = elim (Option-cases (decode_incompatibility status b.envelope)) [
  | inr (i, named) ↦ inl (i, rw (named, decode_permanent_delivery_error))
  | inl plain ↦ elim (conflict_cases status b.conflict) [
    | inr conflict ↦ inr (inl (rw (plain, conflict, decode_permanent_delivery_error)))
    | inl other ↦ inr (inr (rw (plain, other, decode_permanent_delivery_error), plain))
  ]
]

not_426_of_plain :
    (status : ℕ) (body : Option Incompatibility.Envelope)
    → decode_incompatibility status body ≡ none
    → status ≢ 426
not_426_of_plain status body plain e =
    let (i, named) = decoded_426 body in cc (rw e at plain, named)

plain_not_spoolable :
    (status : ℕ)
    → is_permanent_status status ≡ true
    → status ≢ 426
    → is_spoolable (bad_status status) status ≡ false
unfolding is_spoolable is_invalid_payload is_incompatible is_unconfirmed
plain_not_spoolable status h other =
    rw (nonzero_of_permanent status h) (elim (Bool-cases (is_spoolable_status status)) [
      | inl s ↦ absurd (other (permanent_spoolable status h s))
      | inr n ↦ n
    ])

permanent_error :
    (status : ℕ) (b : Body)
    → is_permanent_status status ≡ true
    → is_spoolable (error_of status b) status ≡ false
permanent_error status b h = elim (error_cases status b) [
  | inl (i, e) ↦ rw e (unfold is_spoolable is_invalid_payload is_incompatible in refl)
  | inr (inl e) ↦ rw e (unfold is_spoolable is_invalid_payload in refl)
  | inr (inr (e, plain)) ↦
      rw e (plain_not_spoolable status h (not_426_of_plain status b.envelope plain))
]

-- What a flush would give up for good because of its status, the first send does not queue: an
-- answer with such a status fails with an error that is not spoolable.
pub permanent_not_spoolable :
    (kind : String) (payload : Payload) (status : ℕ) (b : Body)
    → is_permanent_status status ≡ true
    → (err : SendError) × ((post_once kind payload (response status b)).error ≡ some err)
      × (is_spoolable err status ≡ false)
unfolding post_once
permanent_not_spoolable kind payload status b h =
    (error_of status b, rw (not_success_of_permanent status h), permanent_error status b h)

abbrev pub Explicit : Acknowledgement → Type 0
Explicit a = (a.accepted ≡ some true) × (a.durable ≡ some true)

-- The acknowledgement counts everything that the payload holds.
abbrev pub Counted : Option ℕ → Option Acknowledgement → Type 0
Counted held ack =
    (n : ℕ) × (a : Acknowledgement) × (held ≡ some n)
    × (ack ≡ some a)
    × Explicit a
    × (a.received ≡ some (pos n))

Explicit-fields : (a : Acknowledgement) → explicit_acknowledgement a ≡ true → Explicit a
unfolding explicit_acknowledgement
Explicit-fields a h = ground arith

received_field : (z : Option ℤ) (n : ℕ) → received_all z n ≡ true → z ≡ some (pos n)
received_field none n h = cc
received_field (some z) n h = ground (arith, eq_ℤ_iff z (pos n))

Counted-of_check :
    (held : Option ℕ) (ack : Option Acknowledgement)
    → check_counted held ack ≡ none
    → Counted held ack
unfolding check_counted
Counted-of_check none ack h = cc
Counted-of_check (some n) none h = cc
Counted-of_check (some n) (some a) h =
    elim (Bool-cases (explicit_acknowledgement a && received_all a.received n)) [
      | inl good ↦ (
        n,
        a,
        refl,
        refl,
        Explicit-fields a (ground arith),
        received_field a.received n (ground arith),
      )
      | inr bad ↦ cc (rw bad at h)
    ]

stored_of_check :
    (object : Bool) (ack : Option Acknowledgement)
    → check_stored object ack ≡ none
    → (a : Acknowledgement) × (ack ≡ some a) × Explicit a
unfolding check_stored
stored_of_check false ack h = cc
stored_of_check true none h = cc
stored_of_check true (some a) h = elim (Bool-cases (explicit_acknowledgement a)) [
  | inl good ↦ (a, refl, Explicit-fields a good)
  | inr bad ↦ cc (rw bad at h)
]

-- A response passes the check only with an acknowledgement that says explicitly that the data was
-- accepted and is durable, and that counts every event or finding of the payload.
pub validate_acknowledgement-Explicit :
    (kind : String) (payload : Payload) (b : Body)
    → validate_acknowledgement kind payload b ≡ none
    → ((trim_space kind ≡ kind_events) × Counted payload.events b.event_ack)
      ⊎ (((trim_space kind ≡ kind_inventory)
            × ((a : Acknowledgement) × (b.inventory_ack ≡ some a) × Explicit a))
          ⊎ ((trim_space kind ≡ kind_vuln) × Counted payload.findings b.vuln_ack))
unfolding validate_acknowledgement
validate_acknowledgement-Explicit kind payload b h =
    let k = trim_space kind in
    elim (Bool-cases (str_eq k kind_events)) [
      | inl is_events ↦
          inl ((str_eq_iff k kind_events).0 is_events, Counted-of_check _ _ (rw is_events at h))
      | inr not_events ↦ elim (Bool-cases (str_eq k kind_inventory)) [
        | inl is_inventory ↦ inr (
            inl (
              (str_eq_iff k kind_inventory).0 is_inventory,
              stored_of_check _ _ (rw (not_events, is_inventory) at h),
            ))
        | inr not_inventory ↦ elim (Bool-cases (str_eq k kind_vuln)) [
          | inl is_vuln ↦ inr (
              inr (
                (str_eq_iff k kind_vuln).0 is_vuln,
                Counted-of_check _ _ (rw (not_events, not_inventory, is_vuln) at h),
              ))
          | inr unknown ↦ cc (rw (not_events, not_inventory, unknown) at h)
        ]
      ]
    ]
