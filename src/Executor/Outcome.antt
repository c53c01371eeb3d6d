-- ===== src/Executor/Outcome.antt =====
-- Go's pairs of a value and an error, and the tests and defaults that the parsers of executor.go
-- share.
use seagull_agent.Prelude.{
  ℤ, ltb_ℤ, String, str_eq, trim_space, Bool, true, false, ◌||◌, Option, none, some, ◌≡◌, refl,
  if◌then◌else◌, leb_ℤ, Bool-cases, ◌⊎◌, inl, inr, arith,
}

pub data Outcome {ℓ} (A : Type ℓ) : Type ℓ where
  ok : A → Outcome A
  fail : String → Outcome A

infixl 5 ◌>>=◌ ◌>>◌
unfoldable pub ◌>>=◌ {ℓ κ} : {A : Type ℓ} {B : Type κ} → Outcome A → (A → Outcome B) → Outcome B
ok a >>= f = f a
fail e >>= f = fail e

unfoldable pub ◌>>◌ {ℓ} : {B : Type ℓ} → Outcome (Unit {0}) → Outcome B → Outcome B
ok u >> k = k
fail e >> k = fail e

-- `if bad { return out, fmt.Errorf(message) }`
unfoldable pub refuse : Bool → String → Outcome (Unit {0})
refuse true message = fail message
refuse false message = ok tt

unfoldable pub require {ℓ} : {A : Type ℓ} → Option A → String → Outcome A
require none message = fail message
require (some a) message = ok a

-- A pointer field of a payload, and the value that stands where it is nil.
abbrev pub or_else {ℓ} : {A : Type ℓ} → A → Option A → A
or_else a none = a
or_else a (some b) = b

-- `trimmed == "" || trimmed == "null"`
abbrev pub no_payload : String → Bool
no_payload raw = str_eq (trim_space raw) "" || str_eq (trim_space raw) "null"

unfoldable pub clamp : ℤ → ℤ → ℤ → ℤ
clamp v low high = if ltb_ℤ v low then low else if ltb_ℤ high v then high else v

-- What holds of the value, if there is one.
pub record Holds {ℓ κ} {A : Type ℓ} (P : A → Type κ) (m : Outcome A) : Type (ℓ ⊔ κ) where
  pub of_ok : (a : A) → m ≡ ok a → P a

pub Holds-ok {ℓ κ} : {A : Type ℓ} {P : A → Type κ} {a : A} → P a → Holds P (ok a)
Holds-ok {P = P} {a = a} h = record {
  of_ok = λ b e. (let same_value : a ≡ b = cc in rw same_value at h);
}

pub Holds-fail {ℓ κ} : {A : Type ℓ} {P : A → Type κ} {e : String} → Holds P (fail e)
Holds-fail = record { of_ok = λ b e. absurd (cc e) }

pub Holds->>= {ℓ κ μ} :
    {A : Type ℓ} {B : Type κ} {P : B → Type μ} (m : Outcome A) (f : A → Outcome B)
    → ((a : A) → m ≡ ok a → Holds P (f a))
    → Holds P (m >>= f)
unfolding ◌>>=◌
Holds->>= (ok a) f h = h a refl
Holds->>= (fail e) f h = Holds-fail

pub Holds-refuse {ℓ κ} :
    {B : Type ℓ} {P : B → Type κ} (bad : Bool) (message : String) (k : Outcome B)
    → (bad ≡ false → Holds P k)
    → Holds P (refuse bad message >> k)
unfolding ◌>>◌ refuse
Holds-refuse true message k h = Holds-fail
Holds-refuse false message k h = h refl

pub require-eq-ok {ℓ} :
    {A : Type ℓ} (o : Option A) (message : String) {a : A} → require o message ≡ ok a → o ≡ some a
unfolding require
require-eq-ok none message h = absurd (cc h)
require-eq-ok (some b) message h = cc

pub clamp-bounds :
    (v low high : ℤ)
    → leb_ℤ low high ≡ true
    → (leb_ℤ low (clamp v low high) ≡ true) × (leb_ℤ (clamp v low high) high ≡ true)
unfolding clamp
clamp-bounds v low high h = elim (Bool-cases (ltb_ℤ v low)) [
  | inl below ↦ rw (below, clamp) (ground arith, h)
  | inr least ↦ elim (Bool-cases (ltb_ℤ high v)) [
    | inl above ↦ rw (least, above, clamp) (h, ground arith)
    | inr within ↦ rw (least, within, clamp) (ground arith, ground arith)
  ]
]

pub Outcome-cases {ℓ} :
    {A : Type ℓ} (m : Outcome A) → ((e : String) × (m ≡ fail e)) ⊎ ((a : A) × (m ≡ ok a))
Outcome-cases (ok a) = inr (a, refl)
Outcome-cases (fail e) = inl (e, refl)
