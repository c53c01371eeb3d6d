-- ===== src/Renewal/Issued.antt =====
-- certrenew.go: `ValidateIssuedPair` and the comparison of `NeedsRenewal`. A time is a number of
-- nanoseconds, and a duration may be negative.
use seagull_agent.Prelude.{
  ℕ, ℤ, pos, leb_ℤ, ◌+ℤ◌, ltb, ◌==◌, String, str_eq, trim_space, is_blank, Bool, true, false, not,
  ◌||◌, Option, none, some, List, [], ◌∷◌, if◌then◌else◌,
}

pub data KeyUsage : Type 0 where
  client_auth any_usage other_usage : KeyUsage

pub record Certificate : Type 0 where
  pub common_name : String
  pub is_ca : Bool
  pub not_before : ℕ
  pub not_after : ℕ
  pub usages : List KeyUsage

abbrev pub is_client_auth : KeyUsage → Bool
is_client_auth client_auth = true
is_client_auth any_usage = true
is_client_auth other_usage = false

-- The loop over the usages.
unfoldable pub allows_client_auth : List KeyUsage → Bool
allows_client_auth [] = false
allows_client_auth (u ∷ l) = is_client_auth u || allows_client_auth l

pub data IssueError : Type 0 where
  identity_required not_a_pair foreign_identity is_authority not_valid_now no_client_auth :
      IssueError

-- A zero time stands for the time of the clock.
abbrev pub time_or_clock : ℕ → ℕ → ℕ
time_or_clock now clock = if now == 0 then clock else now

abbrev pub validate_certificate : String → ℕ → ℕ → Certificate → Option IssueError
validate_certificate agent now clock c =
    let at = time_or_clock now clock in
    if not (str_eq (trim_space c.common_name) agent)
    then some foreign_identity
    else if c.is_ca
    then some is_authority
    else if ltb at c.not_before || not (ltb at c.not_after)
    then some not_valid_now
    else if not (allows_client_auth c.usages)
    then some no_client_auth
    else none

-- `clock` is what time.Now answers in it.
unfoldable pub validate_issued_pair :
    (String → String → Option Certificate) → String → String → String → ℕ → ℕ → Option IssueError
validate_issued_pair pair cert key agent now clock =
    if is_blank agent then some identity_required else elim (pair cert key) [
      | none ↦ some not_a_pair
      | some c ↦ validate_certificate (trim_space agent) now clock c
    ]

-- 30 * 24 * time.Hour
abbrev pub default_renew_before : ℤ
default_renew_before = pos 2592000000000000

unfoldable pub needs_renewal : ℕ → ℤ → ℕ → Bool
needs_renewal not_after renew_before now =
    let before = if leb_ℤ renew_before (pos 0) then default_renew_before else renew_before in
    leb_ℤ (pos not_after) (pos now +ℤ before)
