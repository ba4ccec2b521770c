-- ===== src/Auth/Login.antt =====
-- `login` and `login_2fa` of Backend/app/api/auth.py. `now` is the time of the request, `salt` the
-- salt of a new bcrypt hash and `code` the one-time code that `secrets.randbelow` gives, as text.
pub mod Laws
use server_deck_backend.Base.{
  ℕ, ◌+◌, ◌*◌, ◌≡◌, refl, Bool, true, false, ◌&&◌, ◌||◌, not, Option, none, some, String, ltb, ◌==◌,
  nat_eq, string_eq, text_eq, if◌then◌else◌, List, [], ◌∷◌, select, update_where,
}
use server_deck_backend.Base.Text.{Text, codes}
use server_deck_backend.Base.Outcome.{Outcome, ok, http, crash, scalar_one_or_none}
use server_deck_backend.Models.{User, AuditLog, Organization, PlatformUser}
use server_deck_backend.Database.{
  Tables, Database, Mail, otp, Session, Action, ◌>>=◌, ◌>>◌, pure, lift, raise_http, commit,
  set_search_path, tables, put_tables, public_tables, send_mail,
}
use server_deck_backend.Auth.Env.{Claims, Env}
use server_deck_backend.Auth.Tokens.{
  decode_token, create_access_token, create_platform_owner_token, create_mfa_token,
}
use server_deck_backend.Tenant.OrgKey.{get_org_key_from_email, individual, individual_schema}
use server_deck_backend.Tenant.Modules.{
  get_user_resolved_modules, get_org_enabled_modules, find_organization,
}

pub record UserLogin : Type 0 where
  pub email : Text
  pub password : Text

pub record TwoFactorLoginRequest : Type 0 where
  pub mfa_token : Text
  pub code : Text

-- `TokenResponse` of Backend/app/schemas/user.py: one constructor for each way it is filled.
pub data TokenResponse : Type 0 where
  platform_owner : Text → PlatformUser → TokenResponse
  logged_in : Text → User → List String → List String → TokenResponse
  mfa_required : Text → Option String → TokenResponse

-- `select(User).where(User.email == email)`
unfoldable pub find_by_email : Text → List User → Outcome (Option User)
find_by_email email users = scalar_one_or_none (select (λ u. u.email == email) users)

-- The changed row of `user`, as the next flush writes it.
unfoldable pub save_user : User → Action (Unit {0})
save_user user = do
  t ← tables
  put_tables (record t { users = update_where (λ u. u.id == user.id) (λ _. user) t.users })

-- `record_audit(db, user_id, server_id, action)` of Backend/app/services/audit.py: it commits.
unfoldable pub record_audit : ℕ → Option ℕ → Text → Action (Unit {0})
record_audit user_id server_id action = do
  t ← tables
  put_tables (record t {
    audit_logs =
        record { user_id = user_id; server_id = server_id; action = action } ∷ t.audit_logs;
  })
  commit

-- `user.two_factor_method == method`
abbrev pub has_method : User → String → Bool
has_method user method = elim user.two_factor_method [ none ↦ false | some m ↦ m == method ]

module _ (env : Env) where
  -- `UserResponse` with the resolved and the organization's modules.
  unfoldable pub token_response : ℕ → User → Text → Action TokenResponse
  token_response now user schema = do
    db ← public_tables
    resolved ← lift (get_user_resolved_modules db.organizations user schema)
    org_mods ← lift (get_org_enabled_modules db.organizations schema)
    pure (logged_in (create_access_token env user schema false now) user resolved org_mods)

  -- The part for a user with two factors: an e-mail code is stored as a hash and mailed.
  unfoldable pub begin_second_factor : ℕ → ℕ → Text → User → Text → Action TokenResponse
  begin_second_factor now salt code user schema =
      if has_method user "email"
      then (do
        save_user (record user {
          two_factor_otp_secret = some (env.bcrypt.hash salt code);
          two_factor_otp_expires_at = some (now + 5 * 60);
        })
        commit
        send_mail (otp user.email code)
        pure (mfa_required (create_mfa_token env user schema now) user.two_factor_method))
      else pure (mfa_required (create_mfa_token env user schema now) user.two_factor_method)

  -- What both branches of `login` do once the user is found, the password included.
  unfoldable pub login_user : ℕ → ℕ → Text → UserLogin → Text → User → Action TokenResponse
  login_user now salt code request schema user =
      if not (env.bcrypt.verify request.password user.password_hash)
      then raise_http 401 "Invalid email or password"
      else if not user.is_active
      then raise_http 403 "Account disabled"
      else if user.two_factor_enabled
      then begin_second_factor now salt code user schema
      else (do record_audit user.id none (codes "auth.login"); token_response now user schema)

  -- `if not user or not …`: an unknown address gets the answer to a wrong password.
  unfoldable pub login_found : ℕ → ℕ → Text → UserLogin → Text → Option User → Action TokenResponse
  login_found now salt code request schema none = raise_http 401 "Invalid email or password"
  login_found now salt code request schema (some user) =
      login_user now salt code request schema user

  -- From `set_search_path` on: the same code for both kinds of schema.
  unfoldable pub login_in_schema : ℕ → ℕ → Text → UserLogin → Text → Action TokenResponse
  login_in_schema now salt code request schema = do
    set_search_path schema
    t ← tables
    found ← lift (find_by_email request.email t.users)
    login_found now salt code request schema found

  unfoldable pub login_platform_owner : ℕ → UserLogin → PlatformUser → Action TokenResponse
  login_platform_owner now request platform_user =
      if not (env.bcrypt.verify request.password platform_user.password_hash)
      then raise_http 401 "Invalid email or password"
      else if not platform_user.is_active
      then raise_http 403 "Account disabled"
      else pure (platform_owner (create_platform_owner_token env platform_user now) platform_user)

  -- In the schema of the organization, if there is one.
  unfoldable pub login_in_org :
      ℕ → ℕ → Text → UserLogin → Option Organization → Action TokenResponse
  login_in_org now salt code request none = raise_http 401 "Invalid email or password"
  login_in_org now salt code request (some org) =
      login_in_schema now salt code request org.schema_name

  -- By the key of the address; the empty text is false, too.
  unfoldable pub login_by_key : ℕ → ℕ → Text → UserLogin → Option Text → Action TokenResponse
  login_by_key now salt code request none = raise_http 400 "Invalid email domain"
  login_by_key now salt code request (some org_key) =
      if org_key == []
      then raise_http 400 "Invalid email domain"
      else if org_key == individual
      then login_in_schema now salt code request individual_schema
      else (do
        db ← public_tables
        org ← lift (find_organization db.organizations org_key)
        login_in_org now salt code request org)

  -- A platform owner's address is looked up first.
  unfoldable pub login_any : ℕ → ℕ → Text → UserLogin → Option PlatformUser → Action TokenResponse
  login_any now salt code request (some owner) = login_platform_owner now request owner
  login_any now salt code request none =
      login_by_key now salt code request (get_org_key_from_email request.email)

  unfoldable pub login : ℕ → ℕ → Text → UserLogin → Action TokenResponse
  login now salt code request = do
    db ← public_tables
    platform_user ←
        lift (scalar_one_or_none (select (λ p. p.email == request.email) db.platform_users))
    login_any now salt code request platform_user
