-- ===== src/Auth/SecondFactor.antt =====
-- Two-factor authentication: `login_2fa` of Backend/app/api/auth.py, and `setup_2fa`, `verify_2fa`
-- and `disable_2fa` of Backend/app/api/users.py. The last three get the row of the current user.
pub mod Login
use server_deck_backend.Base.{
  ℕ, ◌+◌, ◌*◌, ◌≡◌, refl, Bool, true, false, ◌&&◌, ◌||◌, not, Option, none, some, String, ltb, ◌==◌,
  nat_eq, string_eq, text_eq, if◌then◌else◌, List, [], ◌∷◌, select,
}
use server_deck_backend.Base.Text.{Text, codes}
use server_deck_backend.Base.Outcome.{Outcome, ok, http, crash, scalar_one_or_none}
use server_deck_backend.Models.{User}
use server_deck_backend.Database.{
  Tables, Database, Mail, otp, Session, Action, ◌>>=◌, ◌>>◌, pure, lift, raise_http, commit,
  set_search_path, tables, put_tables, send_mail,
}
use server_deck_backend.Auth.Env.{Claims, Env}
use server_deck_backend.Auth.Tokens.{decode_token}
use server_deck_backend.Auth.Totp.{verify_totp}
use server_deck_backend.Auth.Login.{
  TwoFactorLoginRequest, TokenResponse, save_user, record_audit, has_method, token_response,
}

-- A one-time code that is waiting: both columns are set, and the hash is not the empty text.
unfoldable pub pending_otp : User → Option (Text × ℕ)
pending_otp user = elim user.two_factor_otp_secret [
  | none ↦ none
  | some hash ↦ elim user.two_factor_otp_expires_at [
    | none ↦ none
    | some expires ↦ if hash == [] then none else some (hash, expires)
  ]
]

abbrev pub clear_otp : User → User
clear_otp user = record user { two_factor_otp_secret = none; two_factor_otp_expires_at = none }

module _ (env : Env) where
  -- `verify_totp(user.two_factor_secret, code)`: without a secret the call fails inside its `try`.
  unfoldable pub totp_accepts : ℕ → Option Text → Text → Bool
  totp_accepts now none code = false
  totp_accepts now (some secret) code = verify_totp env.hmac_sha1 env.b32decode now secret code 1

  -- The code check of `login_2fa`: an e-mail code is cleared when it is accepted, and a method
  -- other than the two is not checked.
  unfoldable pub check_login_code : ℕ → User → Text → Action User
  check_login_code now user code =
      if has_method user "totp"
      then (if not (totp_accepts now user.two_factor_secret code)
          then raise_http 400 "Invalid verification code."
          else pure user)
      else if has_method user "email"
      then (elim (pending_otp user) [
        | none ↦ raise_http 400 "No active verification code found."
        | some (hash, expires) ↦
            if ltb expires now
            then raise_http 400 "Verification code has expired."
            else if not (env.bcrypt.verify code hash)
            then raise_http 400 "Invalid verification code."
            else (do save_user (clear_otp user); pure (clear_otp user))
      ])
      else pure user

  -- `decode_token` and the look-ups in the payload; any exception there is the 401.
  unfoldable pub mfa_payload : ℕ → Text → Outcome Claims
  mfa_payload now token = elim (decode_token env now token) [
    | none ↦ http 401 "Invalid or expired verification token."
    | some payload ↦
        if not payload.mfa_handshake
        then http 401 "Invalid or expired verification token."
        else ok payload
  ]

  -- `set_search_path(db, schema_name)` where the claim may be missing.
  unfoldable pub enter_schema : Option Text → Action Text
  enter_schema none = lift (crash "ValueError")
  enter_schema (some schema) = do set_search_path schema; pure schema

  -- `uuid.UUID(user_id)` and the query; a missing claim is a TypeError.
  unfoldable pub user_of_claim : Option Text → Action (Option User)
  user_of_claim none = lift (crash "TypeError")
  user_of_claim (some user_id) = elim (env.uuid.parse user_id) [
    | none ↦ lift (crash "ValueError")
    | some id ↦ (do t ← tables; lift (scalar_one_or_none (select (λ u. u.id == id) t.users)))
  ]

  -- From the row on: `not user or not user.is_active or not user.two_factor_enabled`.
  unfoldable pub finish_login_2fa :
      ℕ → TwoFactorLoginRequest → Text → Option User → Action TokenResponse
  finish_login_2fa now request schema none = raise_http 401 "Invalid user or 2FA not enabled."
  finish_login_2fa now request schema (some user) =
      if not user.is_active || not user.two_factor_enabled
      then raise_http 401 "Invalid user or 2FA not enabled."
      else (do
        user' ← check_login_code now user request.code
        record_audit user.id none (codes "auth.login.2fa")
        response ← token_response env now user' schema
        set_search_path (codes "public")
        commit
        pure response)

  unfoldable pub login_2fa : ℕ → TwoFactorLoginRequest → Action TokenResponse
  login_2fa now request = do
    payload ← lift (mfa_payload now request.mfa_token)
    schema ← enter_schema payload.tenant_schema
    user ← user_of_claim payload.sub
    finish_login_2fa now request schema user
