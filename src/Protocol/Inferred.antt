-- ===== src/Protocol/Inferred.antt =====
-- The kind that `DecodeIncompatibility` infers from the ranges of a rejection.
use seagull_agent.Prelude.{
  ℤ, ltb_ℤ, leb_ℤ, true, ◌&&◌, ◌||◌, some, ◌≡◌, refl, sym, ◌∙◌, arith, if◌then◌else◌,
}
use seagull_agent.Protocol.Incompatibility.{
  protocol_too_old, protocol_too_new, event_schema, server_advertise, version, event_schema_version,
  min_event_schema, max_event_schema, Kind, ErrorResponse, infer_kind, positive,
}
use seagull_agent.Protocol.Negotiate.{
  Descriptor, Negotiated, agreed, disagreed, is_unusable, negotiate_schema, negotiate_protocol,
  negotiate,
}
use seagull_agent.Protocol.Agreement.{IsExplicit, usable, inside, explicit_range, explicit_schemas}

-- The kind of a failed negotiation; one that agreed has the kind that stands for "unknown".
abbrev pub kind_of : Negotiated → Kind
kind_of (agreed n) = server_advertise
kind_of (disagreed i) = i.kind

schema_kind :
    (d : Descriptor) (range : ℤ × ℤ)
    → IsExplicit d
    → kind_of
        (negotiate_schema d range (d.event_schema_version, d.min_event_schema, d.max_event_schema))
      ≡ (if ltb_ℤ max_event_schema d.min_event_schema || ltb_ℤ d.max_event_schema min_event_schema
          then event_schema
          else server_advertise)
unfolding negotiate_schema
schema_kind d range e =
    simp
      (
        usable d.min_event_schema d.max_event_schema e.schema_positive e.schema_ordered,
        inside d.event_schema_version d.min_event_schema d.max_event_schema e.schema_inside,
      )
      (ground arith)

protocol_kind :
    (lo hi : ℤ) (x y z rest : Negotiated) (k : Kind)
    → positive lo ≡ true
    → leb_ℤ lo hi ≡ true
    → kind_of rest ≡ k
    → kind_of y ≡ protocol_too_old
    → kind_of z ≡ protocol_too_new
    → kind_of (
        if is_unusable lo hi
        then x
        else if ltb_ℤ version lo
        then y
        else if ltb_ℤ hi version
        then z
        else rest)
      ≡ (if ltb_ℤ version lo
          then protocol_too_old
          else if ltb_ℤ hi version
          then protocol_too_new
          else k)
protocol_kind lo hi x y z rest k p o hr hy hz = ground arith

-- The tests of infer_kind, for ranges that start above zero.
told_kind :
    (lo hi least most : ℤ)
    → positive lo ≡ true
    → leb_ℤ lo hi ≡ true
    → positive least ≡ true
    → leb_ℤ least most ≡ true
    → (if positive lo && ltb_ℤ version lo
        then protocol_too_old
        else if positive hi && ltb_ℤ hi version
        then protocol_too_new
        else if positive least && ltb_ℤ event_schema_version least
        then event_schema
        else if positive most && ltb_ℤ most event_schema_version
        then event_schema
        else server_advertise)
      ≡ (if ltb_ℤ version lo
          then protocol_too_old
          else if ltb_ℤ hi version
          then protocol_too_new
          else if ltb_ℤ max_event_schema least || ltb_ℤ most min_event_schema
          then event_schema
          else server_advertise)
told_kind lo hi least most p o q r = ground arith

-- The kind that the numbers of a rejection tell is the kind that negotiate finds for the same
-- ranges, if they are explicit and consistent.
pub infer_kind-negotiate :
    (d : Descriptor) (r : ErrorResponse)
    → IsExplicit d
    → r.min_supported ≡ d.min_supported
    → r.max_supported ≡ d.max_supported
    → r.min_event_schema ≡ d.min_event_schema
    → r.max_event_schema ≡ d.max_event_schema
    → infer_kind r version event_schema_version ≡ kind_of (negotiate (some d))
unfolding negotiate negotiate_protocol infer_kind
infer_kind-negotiate d r e lo hi least most =
    let range : ℤ × ℤ = (d.min_supported, d.max_supported) in
    let told =
      told_kind d.min_supported d.max_supported d.min_event_schema d.max_event_schema
        e.protocol_positive e.protocol_ordered e.schema_positive e.schema_ordered in
    let found =
      protocol_kind d.min_supported d.max_supported _ _ _ _ _ e.protocol_positive e.protocol_ordered
        (schema_kind d range e) refl refl in
    rw
      (
        infer_kind,
        lo,
        hi,
        least,
        most,
        explicit_range d e,
        negotiate,
        negotiate_protocol,
        explicit_schemas d e,
      )
      (told ∙ sym found)
