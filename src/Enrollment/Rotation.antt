-- ===== src/Enrollment/Rotation.antt =====
-- manager.go: which tokens an update of the credential leaves to the next recovery.
use seagull_agent.Prelude.{
  ℕ, String, str_eq, str_eq_iff, trim_space, trim_space_idem, is_blank, ◌≡◌, refl, sym, ap, ◌∙◌,
  inl, inr, Bool, true, false, not, ◌||◌, none, List, [], ◌∷◌, ◌++◌, Bool-cases, arith,
  if◌then◌else◌,
}
use seagull_agent.Enrollment.Tokens.{
  Config, Manager, RecoveryMethod, Credential, Clockwork, current_bootstrap_token, is_over,
  usable_renewal, usable_previous, method_with, available_recovery_methods, recovery_method_token,
  next_identity, apply_credential_update, format_optional_time,
}

-- Updates, each with its method, one after the other.
unfoldable pub updates : Clockwork → List (Credential × String) → Manager → Manager
updates w [] m = m
updates w ((update, method) ∷ l) m = updates w l (apply_credential_update w update method m).0

-- What a successful update has set.
record Applied (w : Clockwork) (update : Credential) (method : String) (m m' : Manager)
    : Type 0 where
  renewal : m'.renewal_token ≡ (next_identity w update method m).renewal_token
  renewal_until :
      m'.renewal_exp ≡ w.parse (next_identity w update method m).renewal_token_expires_at
  previous : m'.previous_renewal_token ≡ (next_identity w update method m).previous_renewal_token
  previous_until :
      m'.previous_renewal_exp
      ≡ w.parse (next_identity w update method m).previous_renewal_token_expires_at
  consumed : m'.bootstrap_consumed ≡ (next_identity w update method m).bootstrap_token_consumed

apply_credential_update-eq-none :
    (w : Clockwork) (update : Credential) (method : String) (m : Manager)
    → (apply_credential_update w update method m).1 ≡ none
    → Applied w update method m (apply_credential_update w update method m).0
unfolding apply_credential_update
apply_credential_update-eq-none w update method m h =
    elim (Bool-cases (is_blank update.credential)) [
      | inl blank ↦ absurd (cc (rw (apply_credential_update, blank) at h))
      | inr given ↦ elim (Bool-cases (not (w.save (next_identity w update method m)))) [
        | inl unsaved ↦ absurd (cc (rw (apply_credential_update, given, unsaved) at h))
        | inr saved ↦
            rw (apply_credential_update, given, saved)
              (record {
                renewal = refl;
                renewal_until = refl;
                previous = refl;
                previous_until = refl;
                consumed = refl;
              })
      ]
    ]

stays_consumed :
    (w : Clockwork) (update : Credential) (method : String) (m : Manager)
    → m.bootstrap_consumed ≡ true
    → (apply_credential_update w update method m).0.bootstrap_consumed ≡ true
unfolding apply_credential_update next_identity
stays_consumed w update method m h = elim (Bool-cases (is_blank update.credential)) [
  | inl blank ↦ rw (apply_credential_update, blank) h
  | inr given ↦ elim (Bool-cases (not (w.save (next_identity w update method m)))) [
    | inl unsaved ↦ rw (apply_credential_update, given, unsaved) h
    | inr saved ↦
        rw (apply_credential_update, given, saved)
          (or_true (str_eq (trim_space method) "bootstrap") m.bootstrap_consumed h)
  ]
]
  where
    or_true : (a b : Bool) → b ≡ true → (a || b) ≡ true
    or_true a b h = ground arith

updates-consumed :
    (w : Clockwork) (l : List (Credential × String)) (m : Manager)
    → m.bootstrap_consumed ≡ true
    → (updates w l m).bootstrap_consumed ≡ true
unfolding updates
updates-consumed w [] m h = h
updates-consumed w ((update, method) ∷ l) m h =
    updates-consumed w l _ (stays_consumed w update method m h)

skip_method :
    (name token key : String) (l : List RecoveryMethod)
    → str_eq name (trim_space key) ≡ false
    → recovery_method_token (method_with name token ++ l) key ≡ recovery_method_token l key
unfolding recovery_method_token method_with
skip_method name token key l h = elim (Bool-cases (str_eq token "")) [
  | inl nothing ↦ rw (nothing, method_with) refl
  | inr given ↦ rw (given, method_with, recovery_method_token, h) refl
]

found_method :
    (name token key : String) (l : List RecoveryMethod)
    → str_eq name (trim_space key) ≡ true
    → str_eq token "" ≡ false
    → recovery_method_token (method_with name token ++ l) key ≡ token
unfolding recovery_method_token method_with
found_method name token key l h given = rw (given, method_with, recovery_method_token, h) refl

no_token :
    (cfg : Config) (read : String → String) (m : Manager)
    → m.bootstrap_consumed ≡ true
    → recovery_method_token
        (method_with "bootstrap" (current_bootstrap_token cfg read m))
        "bootstrap"
      ≡ ""
unfolding current_bootstrap_token method_with recovery_method_token
no_token cfg read m h = rw (h, current_bootstrap_token) refl

no_bootstrap :
    (cfg : Config) (read : String → String) (now : ℕ) (m : Manager)
    → m.bootstrap_consumed ≡ true
    → recovery_method_token (available_recovery_methods cfg read now m) "bootstrap" ≡ ""
unfolding available_recovery_methods trim_space
no_bootstrap cfg read now m h =
    skip_method "renewal" _ "bootstrap" _ refl
    ∙ skip_method "renewal_previous" _ "bootstrap" _ refl
    ∙ no_token cfg read m h

-- Once an update of the credential with the method bootstrap has succeeded, no recovery after any
-- number of further updates offers the bootstrap token again.
pub bootstrap_used_once :
    (cfg : Config) (read : String → String) (w : Clockwork) (update : Credential) (method : String)
    (l : List (Credential × String)) (now : ℕ) (m : Manager)
    → str_eq (trim_space method) "bootstrap" ≡ true
    → (apply_credential_update w update method m).1 ≡ none
    → recovery_method_token
        (available_recovery_methods cfg read now
          (updates w l (apply_credential_update w update method m).0))
        "bootstrap"
      ≡ ""
unfolding next_identity
bootstrap_used_once cfg read w update method l now m is_bootstrap h =
    let used = (apply_credential_update-eq-none w update method m h).consumed in
    let consumed =
      updates-consumed w l (apply_credential_update w update method m).0
        (used ∙ rw is_bootstrap refl) in
    no_bootstrap cfg read now (updates w l (apply_credential_update w update method m).0) consumed

differs_back : (a b : String) → str_eq a b ≡ false → str_eq b a ≡ false
differs_back a b h = elim (Bool-cases (str_eq b a)) [
  | inl same ↦ absurd (cc (sym h ∙ (str_eq_iff a b).1 (sym ((str_eq_iff b a).0 same))))
  | inr other ↦ other
]

differs_from :
    (over : Bool) (old new : String)
    → str_eq old "" ≡ false
    → str_eq old new ≡ false
    → str_eq old (if over then "" else new) ≡ false
differs_from true old new given other = given
differs_from false old new given other = other

previous_stands :
    (now : ℕ) (m : Manager) (old new : String)
    → m.previous_renewal_token ≡ trim_space old
    → m.renewal_token ≡ trim_space new
    → str_eq (trim_space old) "" ≡ false
    → str_eq (trim_space old) (trim_space new) ≡ false
    → is_over m.previous_renewal_exp now ≡ false
    → usable_previous now m ≡ trim_space old
unfolding usable_previous usable_renewal
previous_stands now m old new is_old is_new given other in_time =
    let apart =
      differs_from (is_over m.renewal_exp now) (trim_space old) (trim_space new) given other in
    simp (in_time, is_old, is_new, usable_previous, usable_renewal, trim_space_idem) (rw apart refl)

renewal_stands :
    (now : ℕ) (m : Manager) (new : String)
    → m.renewal_token ≡ trim_space new
    → is_over m.renewal_exp now ≡ false
    → usable_renewal now m ≡ trim_space new
unfolding usable_renewal
renewal_stands now m new is_new in_time =
    simp (in_time, is_new, usable_renewal, trim_space_idem) refl

-- What an update writes down when it brings another renewal token.
rotated :
    (w : Clockwork) (update : Credential) (method : String) (m : Manager)
    → str_eq (trim_space update.renewal_token) "" ≡ false
    → str_eq (trim_space update.renewal_token) (trim_space m.renewal_token) ≡ false
    → let s = next_identity w update method m in
      (s.renewal_token ≡ trim_space update.renewal_token)
      × (s.renewal_token_expires_at ≡ trim_space update.renewal_token_expires_at)
      × (s.previous_renewal_token ≡ trim_space m.renewal_token)
      × (s.previous_renewal_token_expires_at ≡ format_optional_time w m.renewal_exp)
unfolding next_identity
rotated w update method m given other =
    rw (next_identity, given, other) (refl, refl, rw given refl, rw given refl)

-- Where an update succeeds that brings a renewal token other than the current one, which is not
-- empty, and neither has expired, and the expiry of the current one survives its text, the next
-- recovery offers the new token as renewal and the replaced one as renewal_previous.
pub apply_credential_update-keeps_previous :
    (cfg : Config) (read : String → String) (w : Clockwork) (update : Credential) (method : String)
    (now : ℕ) (m : Manager)
    → w.parse (format_optional_time w m.renewal_exp) ≡ m.renewal_exp
    → (apply_credential_update w update method m).1 ≡ none
    → str_eq (trim_space update.renewal_token) "" ≡ false
    → str_eq (trim_space m.renewal_token) "" ≡ false
    → str_eq (trim_space update.renewal_token) (trim_space m.renewal_token) ≡ false
    → is_over m.renewal_exp now ≡ false
    → is_over (w.parse (trim_space update.renewal_token_expires_at)) now ≡ false
    → let methods =
        available_recovery_methods cfg read now (apply_credential_update w update method m).0 in
      (recovery_method_token methods "renewal" ≡ trim_space update.renewal_token)
      × (recovery_method_token methods "renewal_previous" ≡ trim_space m.renewal_token)
unfolding available_recovery_methods trim_space
apply_credential_update-keeps_previous cfg read w update method now m reads h given had other
      in_time new_in_time =
    let done = apply_credential_update-eq-none w update method m h in
    let set = rotated w update method m given other in
    let m' = (apply_credential_update w update method m).0 in
    let new_until : m'.renewal_exp ≡ w.parse (trim_space update.renewal_token_expires_at) =
      done.renewal_until ∙ ap w.parse set.1 in
    let old_until : m'.previous_renewal_exp ≡ m.renewal_exp =
      done.previous_until ∙ ap w.parse set.3 ∙ reads in
    let new_token =
      renewal_stands now m' update.renewal_token (done.renewal ∙ set.0)
        (ap (λ t. is_over t now) new_until ∙ new_in_time) in
    let old_token =
      previous_stands now m' m.renewal_token update.renewal_token (done.previous ∙ set.2)
        (done.renewal ∙ set.0) had (differs_back _ _ other)
        (ap (λ t. is_over t now) old_until ∙ in_time) in
    (
      found_method "renewal" (usable_renewal now m') "renewal" _ refl (rw new_token given)
          ∙ new_token,
      skip_method "renewal" _ "renewal_previous" _ refl
          ∙ found_method "renewal_previous" (usable_previous now m') "renewal_previous" _ refl
              (rw old_token had)
          ∙ old_token,
    )
