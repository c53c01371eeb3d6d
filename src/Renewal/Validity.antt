-- ===== src/Renewal/Validity.antt =====
-- certrenew.go: which pairs `ValidateIssuedPair` takes, and until when.
use seagull_agent.Prelude.{
  ℕ, ◌+◌, ◌+ℤ◌, ℤ, pos, negsuc, leb_ℤ, ltb, ◌==◌, String, str_eq, trim_space, is_blank, ◌≡◌, refl,
  sym, ◌∙◌, true, false, not, ◌||◌, inl, inr, Option, none, some, Bool-cases, Option-cases, arith,
  if◌then◌else◌,
}
use seagull_agent.Renewal.Issued.{
  Certificate, allows_client_auth, validate_certificate, validate_issued_pair, default_renew_before,
  needs_renewal, time_or_clock,
}

-- The agent's own client certificate, which is valid at that time.
pub record IsFor (agent : String) (now : ℕ) (c : Certificate) : Type 0 where
  pub of_agent : str_eq (trim_space c.common_name) agent ≡ true
  pub no_authority : c.is_ca ≡ false
  pub valid_now : (ltb now c.not_before || not (ltb now c.not_after)) ≡ false
  pub for_clients : allows_client_auth c.usages ≡ true

validate_certificate-eq-none :
    (agent : String) (now clock : ℕ) (c : Certificate)
    → validate_certificate agent now clock c ≡ none
    → IsFor agent (time_or_clock now clock) c
validate_certificate-eq-none agent now clock c h =
    let at = time_or_clock now clock in
    elim (Bool-cases (str_eq (trim_space c.common_name) agent)) [
      | inr other ↦ absurd (cc (rw other at h))
      | inl same ↦ elim (Bool-cases c.is_ca) [
        | inl authority ↦ absurd (cc (rw (same, authority) at h))
        | inr leaf ↦ elim (Bool-cases (ltb at c.not_before || not (ltb at c.not_after))) [
          | inl outside ↦ absurd (cc (rw (same, leaf, outside) at h))
          | inr inside ↦ elim (Bool-cases (allows_client_auth c.usages)) [
            | inr server ↦ absurd (cc (rw (same, leaf, inside, server) at h))
            | inl client ↦ record {
              of_agent = same;
              no_authority = leaf;
              valid_now = inside;
              for_clients = client;
            }
          ]
        ]
      ]
    ]

IsFor-validate_certificate :
    (agent : String) (now clock : ℕ) (c : Certificate)
    → IsFor agent (time_or_clock now clock) c
    → validate_certificate agent now clock c ≡ none
IsFor-validate_certificate agent now clock c h =
    rw (h.of_agent, h.no_authority, h.valid_now, h.for_clients) refl

-- What `ValidateIssuedPair` takes.
pub record IsIssued (pair : String → String → Option Certificate) (cert key agent : String)
    (now clock : ℕ) (c : Certificate) : Type 0 where
  pub named : is_blank agent ≡ false
  pub read : pair cert key ≡ some c
  pub its_own : IsFor (trim_space agent) (time_or_clock now clock) c

pub validate_issued_pair-eq-none :
    (pair : String → String → Option Certificate) (cert key agent : String) (now clock : ℕ)
    → validate_issued_pair pair cert key agent now clock ≡ none
    → (c : Certificate) × (IsIssued pair cert key agent now clock c)
unfolding validate_issued_pair
validate_issued_pair-eq-none pair cert key agent now clock h = elim (Bool-cases (is_blank agent)) [
  | inl blank ↦ absurd (cc (rw (validate_issued_pair, blank) at h))
  | inr named ↦ elim (Option-cases (pair cert key)) [
    | inl nothing ↦ absurd (cc (rw (validate_issued_pair, named, nothing) at h))
    | inr (c, read) ↦ (
      c,
      record {
        named = named;
        read = read;
        its_own =
            validate_certificate-eq-none (trim_space agent) now clock c
              (rw (validate_issued_pair, named, read) at h);
      },
    )
  ]
]

IsIssued-validate_issued_pair :
    (pair : String → String → Option Certificate) (cert key agent : String) (now clock : ℕ)
    (c : Certificate)
    → IsIssued pair cert key agent now clock c
    → validate_issued_pair pair cert key agent now clock ≡ none
unfolding validate_issued_pair
IsIssued-validate_issued_pair pair cert key agent now clock c h =
    rw (h.named, h.read, validate_issued_pair)
      (IsFor-validate_certificate (trim_space agent) now clock c h.its_own)

margin :
    (not_before not_after now d : ℕ) (before : ℤ)
    → (ltb now not_before || not (ltb now not_after)) ≡ false
    → leb_ℤ (pos not_after) (pos now +ℤ before) ≡ false
    → leb_ℤ (pos d) before ≡ true
    → (ltb (now + d) not_before || not (ltb (now + d) not_after)) ≡ false
margin not_before not_after now d (pos n) valid far soon = ground arith
margin not_before not_after now d (negsuc n) valid far soon = ground arith

-- The time before the end of a certificate at which it is renewed.
abbrev pub margin_of : ℤ → ℤ
margin_of renew_before = if leb_ℤ renew_before (pos 0) then default_renew_before else renew_before

past_zero : (now d clock : ℕ) → (now == 0) ≡ false → time_or_clock (now + d) clock ≡ now + d
past_zero now d clock h = ground arith

-- A pair that ValidateIssuedPair takes at a time that is not the zero time, and whose certificate
-- does not need a renewal then, is one that it also takes at any time up to the renewal margin
-- later, whatever its clock says.
pub needs_renewal-stays_valid :
    (pair : String → String → Option Certificate) (cert key agent : String)
    (now clock d later_clock : ℕ) (renew_before : ℤ) (c : Certificate)
    → (now == 0) ≡ false
    → pair cert key ≡ some c
    → validate_issued_pair pair cert key agent now clock ≡ none
    → needs_renewal c.not_after renew_before now ≡ false
    → leb_ℤ (pos d) (margin_of renew_before) ≡ true
    → validate_issued_pair pair cert key agent (now + d) later_clock ≡ none
unfolding needs_renewal
needs_renewal-stays_valid pair cert key agent now clock d later_clock renew_before c given read
      valid h soon =
    let (q, i) = validate_issued_pair-eq-none pair cert key agent now clock valid in
    let same : some q ≡ some c = sym i.read ∙ read in
    let same_one : q ≡ c = cc in
    let at_now : time_or_clock now clock ≡ now = rw given refl in
    let own = i.its_own in
    IsIssued-validate_issued_pair pair cert key agent (now + d) later_clock q (record {
      named = i.named;
      read = i.read;
      its_own = record {
        of_agent = own.of_agent;
        no_authority = own.no_authority;
        valid_now = rw (past_zero now d later_clock given) (
            margin q.not_before q.not_after now d (margin_of renew_before)
              (rw at_now at own.valid_now) (rw same_one h) soon);
        for_clients = own.for_clients;
      };
    })
