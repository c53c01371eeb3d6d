-- ===== src/Protocol/Agreement.antt =====
-- When `Negotiate` agrees, and on what.
use seagull_agent.Prelude.{
  ℤ, pos, ltb_ℤ, leb_ℤ, Bool, true, false, ◌&&◌, ◌||◌, some, ◌≡◌, ◌≢◌, refl, ap, ◌∙◌, arith,
  if◌then◌else◌, Bool-cases, inl, inr,
}
use seagull_agent.Protocol.Incompatibility.{
  version, event_schema_version, min_event_schema, max_event_schema, Incompatibility, positive,
}
use seagull_agent.Protocol.Negotiate.{
  Descriptor, Negotiation, Negotiated, agreed, disagreed, protocol_range, schema_range, is_unusable,
  agree, negotiate_schema, negotiate_protocol, negotiate,
}

abbrev pub in_range : ℤ → ℤ → ℤ → Bool
in_range z lo hi = leb_ℤ lo z && leb_ℤ z hi

abbrev pub is_agreed : Negotiated → Bool
is_agreed (agreed n) = true
is_agreed (disagreed i) = false

-- A descriptor that advertises both ranges explicitly and consistently.
pub record IsExplicit (d : Descriptor) : Type 0 where
  pub protocol_positive : positive d.min_supported ≡ true
  pub protocol_ordered : leb_ℤ d.min_supported d.max_supported ≡ true
  pub schema_positive : positive d.min_event_schema ≡ true
  pub schema_ordered : leb_ℤ d.min_event_schema d.max_event_schema ≡ true
  pub schema_inside : in_range d.event_schema_version d.min_event_schema d.max_event_schema ≡ true

above_zero : (z : ℤ) → positive z ≡ true → leb_ℤ z (pos 0) ≡ false
above_zero z h = ground arith

pub usable : (lo hi : ℤ) → positive lo ≡ true → leb_ℤ lo hi ≡ true → is_unusable lo hi ≡ false
usable lo hi p o = ground arith

pub inside :
    (z lo hi : ℤ) → in_range z lo hi ≡ true → (positive z && (ltb_ℤ z lo || ltb_ℤ hi z)) ≡ false
inside z lo hi h = ground arith

pub explicit_range :
    (d : Descriptor) → IsExplicit d → protocol_range d ≡ (d.min_supported, d.max_supported)
explicit_range d e = simp (above_zero d.min_supported e.protocol_positive)

pub explicit_schemas :
    (d : Descriptor)
    → IsExplicit d
    → schema_range d ≡ (d.event_schema_version, d.min_event_schema, d.max_event_schema)
explicit_schemas d e = simp (above_zero d.min_event_schema e.schema_positive)

schema_agreed :
    (d : Descriptor) (range : ℤ × ℤ)
    → IsExplicit d
    → is_agreed
        (negotiate_schema d range (d.event_schema_version, d.min_event_schema, d.max_event_schema))
      ≡ (leb_ℤ d.min_event_schema max_event_schema && leb_ℤ min_event_schema d.max_event_schema)
unfolding negotiate_schema
schema_agreed d range e =
    simp
      (
        usable d.min_event_schema d.max_event_schema e.schema_positive e.schema_ordered,
        inside d.event_schema_version d.min_event_schema d.max_event_schema e.schema_inside,
      )
      (ground arith)

-- The protocol half, over any verdict on the schemas.
protocol_agreed :
    (lo hi : ℤ) (x y z rest : Negotiated)
    → positive lo ≡ true
    → leb_ℤ lo hi ≡ true
    → is_agreed x ≡ false
    → is_agreed y ≡ false
    → is_agreed z ≡ false
    → is_agreed (
        if is_unusable lo hi
        then x
        else if ltb_ℤ version lo
        then y
        else if ltb_ℤ hi version
        then z
        else rest)
      ≡ (in_range version lo hi && is_agreed rest)
protocol_agreed lo hi x y z rest p o hx hy hz = ground arith

-- With explicit and consistent ranges, negotiate agrees exactly if the server's protocol range
-- holds the version of the agent and the two ranges of event schemas meet.
pub negotiate_iff_compatible :
    (d : Descriptor)
    → IsExplicit d
    → is_agreed (negotiate (some d)) ≡ (
        in_range version d.min_supported d.max_supported
        && (leb_ℤ d.min_event_schema max_event_schema && leb_ℤ min_event_schema d.max_event_schema))
unfolding negotiate negotiate_protocol
negotiate_iff_compatible d e =
    let range : ℤ × ℤ = (d.min_supported, d.max_supported) in
    rw (explicit_range d e, negotiate, negotiate_protocol, explicit_schemas d e)
      (protocol_agreed d.min_supported d.max_supported _ _ _ _ e.protocol_positive
          e.protocol_ordered refl refl refl
        ∙ ap (λ b. in_range version d.min_supported d.max_supported && b) (schema_agreed d range e))

-- What a negotiation may end with, for the server's effective schema range.
abbrev pub IsWithin : ℤ × ℤ × ℤ → Negotiation → Type 0
IsWithin (schema, least, most) n =
    (n.protocol_version ≡ version)
    × (in_range n.event_schema_version min_event_schema max_event_schema ≡ true)
    × (in_range n.event_schema_version least most ≡ true)
    × (n.degraded ≡ false)

agree-IsWithin :
    (schema least most : ℤ)
    → leb_ℤ least max_event_schema ≡ true
    → leb_ℤ min_event_schema most ≡ true
    → IsWithin (schema, least, most) (agree most)
unfolding agree
agree-IsWithin schema least most low high =
    let kept : ltb_ℤ most event_schema_version ≡ false = ground arith in
    simp (kept, agree) (refl, refl, ground arith, refl)

disagreed-≢-agreed : (i : Incompatibility) (n : Negotiation) → disagreed i ≢ agreed n
disagreed-≢-agreed i n e = cc

schema-IsWithin :
    (d : Descriptor) (range : ℤ × ℤ) (s : ℤ × ℤ × ℤ) (n : Negotiation)
    → negotiate_schema d range s ≡ agreed n
    → IsWithin s n
unfolding negotiate_schema
schema-IsWithin d range (schema, least, most) n h = elim (Bool-cases (is_unusable least most)) [
  | inl bad ↦ absurd (disagreed-≢-agreed _ n (rw (bad, negotiate_schema) at h))
  | inr ok ↦ elim (Bool-cases (positive schema && (ltb_ℤ schema least || ltb_ℤ most schema))) [
    | inl bad ↦ absurd (disagreed-≢-agreed _ n (rw (ok, bad, negotiate_schema) at h))
    | inr held ↦ elim (Bool-cases (ltb_ℤ max_event_schema least || ltb_ℤ most min_event_schema)) [
      | inl bad ↦ absurd (disagreed-≢-agreed _ n (rw (ok, held, bad, negotiate_schema) at h))
      | inr meet ↦
          let same : agreed (agree most) ≡ agreed n = rw (ok, held, meet, negotiate_schema) at h in
          let e : agree most ≡ n = cc in
          rw (← e) (agree-IsWithin schema least most (ground arith) (ground arith))
    ]
  ]
]

protocol-IsWithin :
    (d : Descriptor) (range : ℤ × ℤ) (n : Negotiation)
    → negotiate_protocol d range ≡ agreed n
    → (in_range version range.0 range.1 ≡ true) × IsWithin (schema_range d) n
unfolding negotiate_protocol
protocol-IsWithin d (lo, hi) n h = elim (Bool-cases (is_unusable lo hi)) [
  | inl bad ↦ absurd (disagreed-≢-agreed _ n (rw (bad, negotiate_protocol) at h))
  | inr ok ↦ elim (Bool-cases (ltb_ℤ version lo)) [
    | inl old ↦ absurd (disagreed-≢-agreed _ n (rw (ok, old, negotiate_protocol) at h))
    | inr not_old ↦ elim (Bool-cases (ltb_ℤ hi version)) [
      | inl new ↦ absurd (disagreed-≢-agreed _ n (rw (ok, not_old, new, negotiate_protocol) at h))
      | inr held ↦
          let e : negotiate_schema d (lo, hi) (schema_range d) ≡ agreed n =
            rw (ok, not_old, held, negotiate_protocol) at h in
          (ground arith, schema-IsWithin d (lo, hi) (schema_range d) n e)
    ]
  ]
]

-- If negotiate agrees with the descriptor of a server, then the server's effective protocol range
-- holds the version of the agent, and the agreed event schema is one that the agent can emit and
-- that lies in the server's effective schema range; it is never a lowered one.
pub negotiate-eq-agreed :
    (d : Descriptor) (n : Negotiation)
    → negotiate (some d) ≡ agreed n
    → (in_range version (protocol_range d).0 (protocol_range d).1 ≡ true)
      × IsWithin (schema_range d) n
unfolding negotiate
negotiate-eq-agreed d n h = protocol-IsWithin d (protocol_range d) n h
