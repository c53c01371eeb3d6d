-- ===== src/Enrollment/Tokens.antt =====
-- manager.go: the tokens of the agent, the methods of a recovery, and `ApplyCredentialUpdate`. A
-- time is a number, 0 the zero time; what time.Parse and time.Format answer is an argument.
use seagull_agent.Prelude.{
  ℕ, ltb, ◌==◌, String, str_eq, trim_space, is_blank, Bool, not, ◌&&◌, ◌||◌, Option, none, some,
  List, [], ◌∷◌, ◌++◌, if◌then◌else◌,
}

pub record Config : Type 0 where
  pub bootstrap_token : String
  pub bootstrap_token_file : String

-- The part of the manager that the recovery reads and writes. The last two are under a lock of
-- their own.
pub record Manager : Type 0 where
  pub cred : String
  pub cred_exp : ℕ
  pub renewal_token : String
  pub renewal_exp : ℕ
  pub previous_renewal_token : String
  pub previous_renewal_exp : ℕ
  pub last_recovery_method : String
  pub bootstrap_consumed : Bool
  pub recovery_failures : ℕ
  pub next_enroll_retry_at : ℕ

pub record RecoveryMethod : Type 0 where
  pub name : String
  pub token : String

-- `read` is agentcfg.ReadTextFile.
unfoldable pub current_bootstrap_token : Config → (String → String) → Manager → String
current_bootstrap_token cfg read m =
    if m.bootstrap_consumed
    then ""
    else if not (is_blank cfg.bootstrap_token_file)
    then trim_space (read (trim_space cfg.bootstrap_token_file))
    else trim_space cfg.bootstrap_token

-- `!exp.IsZero() && now.After(exp)`
abbrev pub is_over : ℕ → ℕ → Bool
is_over exp now = not (exp == 0) && ltb exp now

unfoldable pub usable_renewal : ℕ → Manager → String
usable_renewal now m = if is_over m.renewal_exp now then "" else trim_space m.renewal_token

unfoldable pub usable_previous : ℕ → Manager → String
usable_previous now m =
    let previous = trim_space m.previous_renewal_token in
    let other = if str_eq previous (usable_renewal now m) then "" else previous in
    if is_over m.previous_renewal_exp now then "" else other

unfoldable pub method_with : String → String → List RecoveryMethod
method_with name token = if str_eq token "" then [] else record { name = name; token = token } ∷ []

unfoldable pub available_recovery_methods :
    Config → (String → String) → ℕ → Manager → List RecoveryMethod
available_recovery_methods cfg read now m =
    method_with "renewal" (usable_renewal now m)
    ++ (method_with "renewal_previous" (usable_previous now m)
        ++ method_with "bootstrap" (current_bootstrap_token cfg read m))

unfoldable pub recovery_method_token : List RecoveryMethod → String → String
recovery_method_token [] name = ""
recovery_method_token (method ∷ l) name =
    if str_eq method.name (trim_space name) then method.token else recovery_method_token l name

unfoldable pub remove_recovery_method : List RecoveryMethod → String → List RecoveryMethod
remove_recovery_method [] name = []
remove_recovery_method (method ∷ l) name =
    let rest = remove_recovery_method l name in
    if not (str_eq method.name (trim_space name)) then method ∷ rest else rest

-- protocol.Credential
pub record Credential : Type 0 where
  pub credential : String
  pub expires_at : String
  pub renewal_token : String
  pub renewal_token_expires_at : String

-- What is written to the identity file.
pub record IdentityState : Type 0 where
  pub credential : String
  pub credential_expires_at : String
  pub renewal_token : String
  pub renewal_token_expires_at : String
  pub previous_renewal_token : String
  pub previous_renewal_token_expires_at : String
  pub last_recovery_method : String
  pub bootstrap_token_consumed : Bool

-- ParseOptionalRFC3339, Format(time.RFC3339), and SaveIdentityState, which may fail.
pub record Clockwork : Type 0 where
  pub parse : String → ℕ
  pub format : ℕ → String
  pub save : IdentityState → Bool

unfoldable pub format_optional_time : Clockwork → ℕ → String
format_optional_time w t = if t == 0 then "" else w.format t

unfoldable pub next_identity : Clockwork → Credential → String → Manager → IdentityState
next_identity w update recovery_method m =
    let current = trim_space m.renewal_token in
    let given = trim_space update.renewal_token in
    let given_expiry = trim_space update.renewal_token_expires_at in
    let renewal = if str_eq given "" then current else given in
    let expiry =
      if str_eq given "" && (str_eq given_expiry "" && not (m.renewal_exp == 0))
      then w.format m.renewal_exp
      else given_expiry in
    let rotated = not (str_eq renewal "") && not (str_eq renewal current) in
    record {
      credential = trim_space update.credential;
      credential_expires_at = trim_space update.expires_at;
      renewal_token = renewal;
      renewal_token_expires_at = expiry;
      previous_renewal_token = if rotated then current else trim_space m.previous_renewal_token;
      previous_renewal_token_expires_at =
          if rotated
          then format_optional_time w m.renewal_exp
          else format_optional_time w m.previous_renewal_exp;
      last_recovery_method = trim_space recovery_method;
      bootstrap_token_consumed =
          str_eq (trim_space recovery_method) "bootstrap" || m.bootstrap_consumed;
    }

pub data UpdateError : Type 0 where
  empty_credential not_saved : UpdateError

unfoldable pub apply_credential_update :
    Clockwork → Credential → String → Manager → Manager × Option UpdateError
apply_credential_update w update recovery_method m =
    let state = next_identity w update recovery_method m in
    if is_blank update.credential
    then (m, some empty_credential)
    else if not (w.save state)
    then (m, some not_saved)
    else (
      record {
        cred = state.credential;
        cred_exp = w.parse update.expires_at;
        renewal_token = state.renewal_token;
        renewal_exp = w.parse state.renewal_token_expires_at;
        previous_renewal_token = state.previous_renewal_token;
        previous_renewal_exp = w.parse state.previous_renewal_token_expires_at;
        last_recovery_method = state.last_recovery_method;
        bootstrap_consumed = state.bootstrap_token_consumed;
        recovery_failures = 0;
        next_enroll_retry_at = 0;
      },
      none,
    )
