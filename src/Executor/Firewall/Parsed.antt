-- ===== src/Executor/Firewall/Parsed.antt =====
-- executor.go: what `parseFirewallPayload` accepts, and the comments that mark its rules.
use Prim.Native.Char.{Char, code}
use Prim.Native.String.{[] as no_text, ◌∷◌ as cons_char}
use text.Mathlib.TextLemmas.{cons-append, nil-append, cons-ne-nil}
use seagull_agent.Prelude.{
  ℕ, zero, suc, ◌+◌, ◌-◌, ◌≤◌, ◌<◌, ℤ, pos, negsuc, pos_part, ltb_ℤ, String, str_eq, str_append,
  str_eq_iff, trim_space, to_lower, byte_length, rune_bytes, take_bytes, ◌≡◌, refl, ◌⊎◌, inl, inr,
  Bool, true, false, not, ◌&&◌, ◌||◌, Option, none, some, arith, ltb, ◌==◌, Bool-cases,
  if◌then◌else◌,
}
use seagull_agent.Executor.Outcome.{Outcome, Holds, Holds-ok, Holds-fail, Holds->>=, Holds-refuse}
use seagull_agent.Executor.Firewall.{
  FirewallPayload, FirewallRequest, IpAddress, checked_protocol, checked_port, is_comment_code,
  comment_part, default_comment, sanitize_firewall_comment, with_suffix, scoped_firewall_comment,
  parse_firewall_payload,
}

-- A text of comment characters only.
pub is_comment : String → Bool
is_comment no_text = true
is_comment (cons_char c s) = is_comment_code (code c) && is_comment s

comment_part-is_comment : (s : String) → is_comment (comment_part s) ≡ true
unfolding comment_part is_comment
comment_part-is_comment no_text = refl
comment_part-is_comment (cons_char c s) = ground (arith, comment_part-is_comment s)

take-is_comment : (n : ℕ) (s : String) → is_comment s ≡ true → is_comment (take_bytes n s) ≡ true
unfolding take_bytes is_comment
take-is_comment zero s h = refl
take-is_comment (suc n) no_text h = refl
take-is_comment (suc n) (cons_char c s) h = ground (arith, take-is_comment n s)

comment_code-lt : (c : ℕ) → is_comment_code c ≡ true → c < 128
unfolding is_comment_code
comment_code-lt c h = ground arith

ascii_bytes : (c : Char) → code c < 128 → rune_bytes c ≡ 1
unfolding rune_bytes
ascii_bytes c h = ground arith

both : (a b : Bool) → (a && b) ≡ true → (a ≡ true) × (b ≡ true)
both a b h = ground arith

byte_length-take : (n : ℕ) (s : String) → is_comment s ≡ true → byte_length (take_bytes n s) ≤ n
unfolding take_bytes is_comment byte_length
byte_length-take zero s h = omega arith
byte_length-take (suc n) no_text h = omega arith
byte_length-take (suc n) (cons_char c s) h =
    let (first, rest) = both (is_comment_code (code c)) (is_comment s) h in
    rw (ascii_bytes c (comment_code-lt (code c) first)) (omega (arith, byte_length-take n s rest))

byte_length-append : (s t : String) → byte_length (str_append s t) ≡ byte_length s + byte_length t
unfolding byte_length
byte_length-append no_text t = rw (nil-append t) (omega arith)
byte_length-append (cons_char c s) t =
    rw (cons-append c s t) (ground (arith, byte_length-append s t))

-- A label: comment characters, at least one and at most 64 bytes.
pub record IsLabel (s : String) : Type 0 where
  pub safe : is_comment s ≡ true
  pub short : byte_length s ≤ 64
  pub not_empty : str_eq s "" ≡ false

default_comment-IsLabel : IsLabel default_comment
unfolding is_comment is_comment_code byte_length
default_comment-IsLabel = record { safe = refl; short = omega arith; not_empty = refl }

take-not_empty :
    (n : ℕ) (s : String) → str_eq s "" ≡ false → str_eq (take_bytes (suc n) s) "" ≡ false
unfolding take_bytes
take-not_empty n no_text h = cc h
take-not_empty n (cons_char c s) h =
    let text = cons_char c (take_bytes n s) in
    elim (Bool-cases (str_eq text "")) [
      | inl nothing ↦ absurd (cons-ne-nil c (take_bytes n s) ((str_eq_iff text "").0 nothing))
      | inr something ↦ something
    ]

sanitize_firewall_comment-IsLabel : (o : Option String) → IsLabel (sanitize_firewall_comment o)
unfolding sanitize_firewall_comment
sanitize_firewall_comment-IsLabel none = default_comment-IsLabel
sanitize_firewall_comment-IsLabel (some raw) =
    let kept = comment_part (trim_space raw) in
    let safe = comment_part-is_comment (trim_space raw) in
    elim (Bool-cases (str_eq kept "")) [
      | inl nothing ↦ rw nothing default_comment-IsLabel
      | inr something ↦ elim (Bool-cases (ltb 64 (byte_length kept))) [
        | inl long ↦
            rw (something, long)
              (record {
                safe = take-is_comment 64 kept safe;
                short = byte_length-take 64 kept safe;
                not_empty = take-not_empty 63 kept something;
              })
        | inr short ↦
            rw (something, short)
              (record { safe = safe; short = ground arith; not_empty = something })
      ]
    ]

mark_bytes : byte_length "_" ≡ 1
unfolding byte_length rune_bytes
mark_bytes = refl

with_suffix-le :
    (label suffix : String)
    → byte_length suffix ≡ 12
    → is_comment label ≡ true
    → byte_length (with_suffix label suffix) ≤ 64
unfolding with_suffix
with_suffix-le label suffix h safe =
    let max = 64 - byte_length suffix - 1 in
    let joined = byte_length-append "_" suffix in
    elim (Bool-cases (ltb max (byte_length label))) [
      | inl long ↦
          rw (long, byte_length-append (take_bytes max label) (str_append "_" suffix), joined)
            (omega (arith, byte_length-take max label safe, h, mark_bytes))
      | inr short ↦
          let fits : byte_length label ≤ max = ground arith in
          rw (short, byte_length-append label (str_append "_" suffix), joined)
            (omega (arith, fits, h, mark_bytes))
    ]

-- What a rule may match: no port and no protocol, or a port of 1 to 65535 of tcp or udp.
abbrev pub IsMatch : String → ℕ → Type 0
IsMatch protocol port =
    ((protocol ≡ "") × (port ≡ 0))
    ⊎ (((protocol ≡ "tcp") ⊎ (protocol ≡ "udp")) × (0 < port) × (port ≤ 65535))

abbrev IsProtocol : String → Type 0
IsProtocol s = (s ≡ "") ⊎ (s ≡ "tcp") ⊎ (s ≡ "udp")

checked_protocol-IsProtocol : (o : Option String) → Holds IsProtocol (checked_protocol o)
unfolding checked_protocol
checked_protocol-IsProtocol none = Holds-ok (inl refl)
checked_protocol-IsProtocol (some raw) =
    let name = to_lower (trim_space raw) in
    elim (Bool-cases (str_eq name "")) [
      | inl none_named ↦ rw none_named (Holds-ok (inl ((str_eq_iff name "").0 none_named)))
      | inr named ↦ elim (Bool-cases (str_eq name "tcp")) [
        | inl tcp ↦ rw (named, tcp) (Holds-ok (inr (inl ((str_eq_iff name "tcp").0 tcp))))
        | inr not_tcp ↦ elim (Bool-cases (str_eq name "udp")) [
          | inl udp ↦
              rw (named, not_tcp, udp) (Holds-ok (inr (inr ((str_eq_iff name "udp").0 udp))))
          | inr other ↦ rw (named, not_tcp, other) Holds-fail
        ]
      ]
    ]

abbrev IsPort : ℕ × String → Type 0
IsPort (port, protocol) =
    (IsProtocol protocol × (port ≡ 0))
    ⊎ (((protocol ≡ "tcp") ⊎ (protocol ≡ "udp")) × (0 < port) × (port ≤ 65535))

port-bounds :
    (n : ℤ)
    → (ltb_ℤ n (pos 1) || ltb_ℤ (pos 65535) n) ≡ false
    → (0 < pos_part n) × (pos_part n ≤ 65535)
port-bounds (pos n) h = ground arith
port-bounds (negsuc n) h = ground arith

with_default :
    (protocol : String)
    → IsProtocol protocol
    → let s = if str_eq protocol "" then "tcp" else protocol in (s ≡ "tcp") ⊎ (s ≡ "udp")
with_default protocol h = elim (Bool-cases (str_eq protocol "")) [
  | inl nothing ↦ rw nothing (inl refl)
  | inr something ↦ rw something (elim h [
    | inl none_named ↦ absurd (cc ((str_eq_iff protocol "").1 none_named, something))
    | inr named ↦ named
  ])
]

checked_port-IsPort :
    (protocol : String) (o : Option ℤ)
    → IsProtocol protocol
    → Holds IsPort (checked_port protocol o)
unfolding checked_port
checked_port-IsPort protocol none h = Holds-ok (inl (h, refl))
checked_port-IsPort protocol (some n) h =
    elim (Bool-cases (ltb_ℤ n (pos 1) || ltb_ℤ (pos 65535) n)) [
      | inl out ↦ rw (out, checked_port) Holds-fail
      | inr within ↦
          rw (within, checked_port)
            (Holds-ok
              (inr (with_default protocol h, (port-bounds n within).0, (port-bounds n within).1)))
    ]

IsPort-IsMatch :
    (port : ℕ) (protocol : String)
    → IsPort (port, protocol)
    → (not (str_eq protocol "") && port == 0) ≡ false
    → IsMatch protocol port
IsPort-IsMatch port protocol (inr m) h = inr m
IsPort-IsMatch port protocol (inl (p, z)) h = elim (Bool-cases (str_eq protocol "")) [
  | inl nothing ↦ inl ((str_eq_iff protocol "").0 nothing, z)
  | inr something ↦ absurd (cc (rw (something, z) at h))
]

-- A payload of which rules are made.
pub record IsRule (p : FirewallPayload) : Type 0 where
  pub matching : IsMatch p.protocol p.port
  pub label : IsLabel p.legacy_comment
  pub marked : byte_length p.comment ≤ 64

-- Where the digest has twelve bytes, what `parseFirewallPayload` accepts matches either all of an
-- address, or a port between 1 and 65535 of tcp or udp; its label is of the characters that need no
-- quoting and has 1 to 64 bytes; and its comment has at most 64 bytes.
pub parse_firewall_payload-IsRule :
    (decode : String → Outcome FirewallRequest) (parse_ip : String → Option IpAddress)
    (digest : String → String) (raw : String)
    → ((s : String) → byte_length (digest s) ≡ 12)
    → Holds IsRule (parse_firewall_payload decode parse_ip digest raw)
unfolding parse_firewall_payload scoped_firewall_comment
parse_firewall_payload-IsRule decode parse_ip digest raw h = Holds-refuse _ _ _ λ given.
    Holds->>= _ _ λ q decoded. Holds-refuse _ _ _ λ addressed. Holds->>= _ _ λ ip read.
      Holds->>= _ _ λ named checked. Holds->>= _ _ λ t placed. Holds-refuse _ _ _ λ complete.
        let label = sanitize_firewall_comment-IsLabel q.comment in
        let protocol = (checked_protocol-IsProtocol q.protocol).of_ok named checked in
        let port = (checked_port-IsPort named q.port protocol).of_ok t placed in
        Holds-ok (record {
          matching = IsPort-IsMatch t.0 t.1 port complete;
          label = label;
          marked = with_suffix-le (sanitize_firewall_comment q.comment) _ (h _) label.safe;
        })
