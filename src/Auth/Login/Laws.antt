-- ===== src/Auth/Login/Laws.antt =====
-- Who is logged in by `login`, and what a failed login tells.
use server_deck_backend.Base.{
  ℕ, ◌≡◌, refl, subst, Bool, true, false, Option, none, some, String, ◌==◌, nat_eq, string_eq,
  text_eq, List, [], ◌∷◌, select, arith, Bool-cases, inl, inr, ◌⊎◌, All,
}
use server_deck_backend.Base.Text.{Text, codes}
use server_deck_backend.Base.Outcome.{ok, scalar_one_or_none, scalar_one_or_none-some}
use server_deck_backend.Models.{User, PlatformUser, Organization}
use server_deck_backend.Database.{
  Database, Tables, Session, ◌>>◌, lift, commit, set_search_path, tables, public_tables, send_mail,
}
use server_deck_backend.Database.Laws.{>>=-returned, set_search_path-path, tables-current}
use server_deck_backend.Auth.Env.{Env}
use server_deck_backend.Auth.Tokens.{
  create_access_token, create_platform_owner_token, create_mfa_token,
}
use server_deck_backend.Tenant.OrgKey.{get_org_key_from_email, individual, individual_schema}
use server_deck_backend.Tenant.Modules.{
  find_organization, get_user_resolved_modules, get_org_enabled_modules,
}
use server_deck_backend.Auth.Login.{
  UserLogin, TokenResponse, platform_owner, logged_in, mfa_required, find_by_email, save_user,
  record_audit, has_method, token_response, begin_second_factor, login_user, login_found,
  login_in_org, login_by_key, login_any, login_in_schema, login_platform_owner, login,
}

module _ {ℓ} {A : Type ℓ} where
  pub select-All : (p : A → Bool) (rows : List A) → All (λ u. p u ≡ true) (select p rows)
  select-All p [] = tt
  select-All p (u ∷ us) = elim (Bool-cases (p u)) [
    | inl h ↦ rw h (h, select-All p us)
    | inr h ↦ rw h (select-All p us)
  ]

  -- The one row of a query satisfies its condition.
  pub one_row-satisfies :
      (p : A → Bool) (rows : List A) {x : A}
      → scalar_one_or_none (select p rows) ≡ ok (some x)
      → p x ≡ true
  one_row-satisfies p rows h =
      (subst (All (λ u. p u ≡ true)) (scalar_one_or_none-some (select p rows) h)
        (select-All p rows)).0

-- The user is the one row with the address in the tables of a schema.
pub record IsRow (db : Database) (schema email : Text) (user : User) : Type 0 where
  pub row_tables : Tables
  pub seen : db.tenants schema ≡ some row_tables
  pub row : select (λ u. u.email == email) row_tables.users ≡ user ∷ []

pub token_response-ok :
    (env : Env) (now : ℕ) (user : User) (schema : Text) (s : Session) {response : TokenResponse}
    → (token_response env now user schema s).0 ≡ ok response
    → (ms : List String) × (os : List String) × (response
        ≡ logged_in (create_access_token env user schema false now) user ms os)
unfolding token_response public_tables
token_response-ok env now user schema s h =
    let (ms, _, h1) =
      >>=-returned (lift (get_user_resolved_modules s.current.organizations user schema)) _ s h in
    let (os, _, h2) =
      >>=-returned (lift (get_org_enabled_modules s.current.organizations schema)) _ s h1 in
    (ms, os, cc)

module _ (env : Env) (now salt : ℕ) (code : Text) (request : UserLogin) (db : Database) where
  -- What has been checked of a user before an access token is given out.
  pub record IsGranted (response : TokenResponse) : Type 0 where
    pub user : User
    pub schema : Text
    pub modules : List String
    pub org_modules : List String
    pub token :
        response
        ≡ logged_in (create_access_token env user schema false now) user modules org_modules
    pub password : env.bcrypt.verify request.password user.password_hash ≡ true
    pub active : user.is_active ≡ true
    pub one_factor : user.two_factor_enabled ≡ false
    pub row : IsRow db schema request.email user

  -- What has been checked of a platform owner.
  pub record IsGrantedOwner (response : TokenResponse) : Type 0 where
    pub owner : PlatformUser
    pub token : response ≡ platform_owner (create_platform_owner_token env owner now) owner
    pub password : env.bcrypt.verify request.password owner.password_hash ≡ true
    pub active : owner.is_active ≡ true
    pub row : select (λ p. p.email == request.email) db.platform_users ≡ owner ∷ []

  -- The answer to a user with two factors: the token of this user for the second step.
  pub record IsDeferred (response : TokenResponse) : Type 0 where
    pub user : User
    pub schema : Text
    pub token :
        response ≡ mfa_required (create_mfa_token env user schema now) user.two_factor_method
    pub password : env.bcrypt.verify request.password user.password_hash ≡ true
    pub active : user.is_active ≡ true
    pub two_factors : user.two_factor_enabled ≡ true
    pub row : IsRow db schema request.email user

  abbrev pub Answer : TokenResponse → Type 0
  Answer response = IsGranted response ⊎ (IsDeferred response ⊎ IsGrantedOwner response)

  begin_second_factor-ok :
      (user : User) (schema : Text) (s : Session) {response : TokenResponse}
      → (begin_second_factor env now salt code user schema s).0 ≡ ok response
      → response ≡ mfa_required (create_mfa_token env user schema now) user.two_factor_method
  unfolding begin_second_factor
  begin_second_factor-ok user schema s h = elim (Bool-cases (has_method user "email")) [
    | inl email ↦
        let (_, _, h1) =
          >>=-returned (save_user _) (λ _. _) s (rw (email, begin_second_factor) at h) in
        let (_, _, h2) = >>=-returned commit (λ _. _) _ h1 in
        let (_, _, h3) = >>=-returned (send_mail _) (λ _. _) _ h2 in cc
    | inr other ↦ cc (rw (other, begin_second_factor) at h)
  ]

  login_user-ok :
      (user : User) (schema : Text) (s : Session) {response : TokenResponse}
      → IsRow db schema request.email user
      → (login_user env now salt code request schema user s).0 ≡ ok response
      → Answer response
  unfolding login_user
  login_user-ok user schema s {response} row h =
      let right : env.bcrypt.verify request.password user.password_hash ≡ true = ground arith in
      let active : user.is_active ≡ true = ground arith in
      elim (Bool-cases user.two_factor_enabled) [
        | inl two ↦ inr (
            inl (record {
              user = user;
              schema = schema;
              token = begin_second_factor-ok user schema s (ground arith);
              password = right;
              active = active;
              two_factors = two;
              row = row;
            }))
        | inr one ↦
            let h0 : ((record_audit user.id none (codes "auth.login")
                    >> token_response env now user schema)
                  s).0
                ≡ ok response =
              ground arith in
            let (_, _, h1) =
              >>=-returned (record_audit user.id none (codes "auth.login")) (λ _. _) s h0 in
            let (ms, os, e) = token_response-ok env now user schema _ h1 in
            inl (record {
              user = user;
              schema = schema;
              modules = ms;
              org_modules = os;
              token = e;
              password = right;
              active = active;
              one_factor = one;
              row = row;
            })
      ]

  login_found-ok :
      (schema : Text) (found : Option User) (t : Tables) (s : Session) {response : TokenResponse}
      → db.tenants schema ≡ some t
      → find_by_email request.email t.users ≡ ok found
      → (login_found env now salt code request schema found s).0 ≡ ok response
      → Answer response
  unfolding login_found find_by_email
  login_found-ok schema none t s seen found h = cc
  login_found-ok schema (some user) t s seen found h =
      login_user-ok user schema s
        (record { row_tables = t; seen = seen; row = scalar_one_or_none-some _ found }) h

  login_in_schema-ok :
      (schema : Text) (s : Session) {response : TokenResponse}
      → s.current ≡ db
      → (login_in_schema env now salt code request schema s).0 ≡ ok response
      → Answer response
  unfolding login_in_schema
  login_in_schema-ok schema s now_db h =
      let (_, e, h1) = >>=-returned (set_search_path schema) (λ _. _) s h in
      let path = set_search_path-path schema s e in
      let (t, read, h2) = >>=-returned tables (λ _. _) _ h1 in
      let (found, row, h3) =
        >>=-returned (lift (find_by_email request.email t.users)) (λ _. _) _ h2 in
      let seen : db.tenants schema ≡ some t =
        subst (λ (d : Database). d.tenants schema ≡ some t) now_db
          (subst (λ (s' : Session). s'.current.tenants s'.search_path ≡ some t) path
            (tables-current _ read).0) in
      login_found-ok schema found t _ seen row h3

  login_platform_owner-ok :
      (owner : PlatformUser) (s : Session) {response : TokenResponse}
      → select (λ p. p.email == request.email) db.platform_users ≡ owner ∷ []
      → (login_platform_owner env now request owner s).0 ≡ ok response
      → Answer response
  unfolding login_platform_owner
  login_platform_owner-ok owner s row h = inr (
      inr (record {
        owner = owner;
        token = ground arith;
        password = ground arith;
        active = ground arith;
        row = row;
      }))

  login_in_org-ok :
      (org : Option Organization) (s : Session) {response : TokenResponse}
      → s.current ≡ db
      → (login_in_org env now salt code request org s).0 ≡ ok response
      → Answer response
  unfolding login_in_org
  login_in_org-ok none s now_db h = cc
  login_in_org-ok (some o) s now_db h = login_in_schema-ok o.schema_name s now_db h

  login_by_key-ok :
      (key : Option Text) (s : Session) {response : TokenResponse}
      → s.current ≡ db
      → (login_by_key env now salt code request key s).0 ≡ ok response
      → Answer response
  unfolding login_by_key public_tables
  login_by_key-ok none s now_db h = cc
  login_by_key-ok (some key) s {response} now_db h = elim (Bool-cases (key == [])) [
    | inl empty ↦ cc (rw (empty, login_by_key) at h)
    | inr named ↦ elim (Bool-cases (key == individual)) [
      | inl personal ↦
          login_in_schema-ok individual_schema s now_db (rw (named, personal, login_by_key) at h)
      | inr company ↦
          let (org, _, h1) =
            >>=-returned (lift (find_organization s.current.organizations key))
              (login_in_org env now salt code request) s (rw (named, company, login_by_key) at h) in
          login_in_org-ok org s now_db h1
    ]
  ]

  login_any-ok :
      (found : Option PlatformUser) (s : Session) {response : TokenResponse}
      → s.current ≡ db
      → scalar_one_or_none (select (λ p. p.email == request.email) db.platform_users) ≡ ok found
      → (login_any env now salt code request found s).0 ≡ ok response
      → Answer response
  unfolding login_any
  login_any-ok none s now_db found h =
      login_by_key-ok (get_org_key_from_email request.email) s now_db h
  login_any-ok (some p) s now_db found h =
      login_platform_owner-ok p s (scalar_one_or_none-some _ found) h

-- Every successful login has checked the password against the hash of the one row with the address
-- of the request, and that the account is active. An access token goes only to a user without a
-- second factor, for the schema of the row; a user with one gets only this user's token for the
-- second step in that schema; and a platform owner gets the owner's token.
pub login-Answer :
    (env : Env) (now salt : ℕ) (code : Text) (request : UserLogin) (s : Session)
    {response : TokenResponse}
    → (login env now salt code request s).0 ≡ ok response
    → Answer env now salt code request s.current response
unfolding login public_tables
login-Answer env now salt code request s h =
    let (found, row, h1) =
      >>=-returned
        (lift
          (scalar_one_or_none (select (λ p. p.email == request.email) s.current.platform_users)))
        (λ _. _) s h in
    login_any-ok env now salt code request s.current found s refl row h1
