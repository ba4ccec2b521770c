-- ===== src/Auth/SecondFactor/Login.antt =====
-- What the second step of a login checks, and that a mailed code works once.
use server_deck_backend.Base.{
  ◌&&◌, if◌then◌else◌, ℕ, sym, subst, List, [], ◌∷◌, select, String, ◌≤◌, ◌≡◌, refl, ap, ◌∙◌, true,
  false, ◌||◌, not, Option, none, some, ◌==◌, nat_eq, string_eq, text_eq, arith, Bool-cases,
  Option-cases, inl, inr,
}
use server_deck_backend.Base.Text.{Text, codes}
use server_deck_backend.Base.Outcome.{ok, ok-injective, scalar_one_or_none-some}
use server_deck_backend.Models.{User}
use server_deck_backend.Database.{
  Session, Database, Tables, lift, pure, tables, set_search_path, commit,
}
use server_deck_backend.Database.Laws.{>>=-returned, >>=-ok, set_search_path-path, tables-current}
use server_deck_backend.Auth.Env.{Claims, Env}
use server_deck_backend.Auth.Tokens.{decode_token, create_access_token}
use server_deck_backend.Auth.Login.{
  TwoFactorLoginRequest, TokenResponse, logged_in, has_method, record_audit, token_response,
  save_user,
}
use server_deck_backend.Auth.Login.Laws.{token_response-ok}
use server_deck_backend.Auth.SecondFactor.{
  clear_otp, pending_otp, totp_accepts, check_login_code, mfa_payload, enter_schema, user_of_claim,
  finish_login_2fa, login_2fa,
}

-- The row that is answered with: a mailed code is spent.
abbrev pub spent_by : User → User
spent_by user =
    if not (has_method user "totp") && has_method user "email"
    then record user { two_factor_otp_secret = none; two_factor_otp_expires_at = none }
    else user

module _ (env : Env) where
  -- The code is right by the user's method.
  pub record IsRightCode (now : ℕ) (user : User) (code : Text) : Type 0 where
    pub by_totp :
        has_method user "totp" ≡ true → totp_accepts env now user.two_factor_secret code ≡ true
    pub by_email :
        has_method user "totp" ≡ false
        → has_method user "email" ≡ true
        → (hash : Text) × (expires : ℕ) × (pending_otp user ≡ some (hash, expires))
          × (now ≤ expires)
          × (env.bcrypt.verify code hash ≡ true)

  check_login_code-ok :
      (now : ℕ) (user : User) (code : Text) (s : Session) {user' : User}
      → (check_login_code env now user code s).0 ≡ ok user'
      → IsRightCode now user code
  unfolding check_login_code
  check_login_code-ok now user code s h = record {
    by_totp = λ totp. ground arith;
    by_email = λ other email. elim (Option-cases (pending_otp user)) [
      | inl missing ↦ cc (rw (other, email, missing, check_login_code) at h)
      | inr ((hash, expires), found) ↦ (hash, expires, found, ground arith, ground arith)
    ];
  }

  check_login_code-user :
      (now : ℕ) (user : User) (code : Text) (s : Session) {user' : User}
      → (check_login_code env now user code s).0 ≡ ok user'
      → user' ≡ spent_by user
  unfolding check_login_code
  check_login_code-user now user code s h = elim (Bool-cases (has_method user "totp")) [
    | inl totp ↦ rw totp (ground (arith, h))
    | inr other ↦ elim (Bool-cases (has_method user "email")) [
      | inl email ↦ elim (Option-cases (pending_otp user)) [
        | inl missing ↦ cc (rw (other, email, missing, check_login_code) at h)
        | inr ((hash, expires), found) ↦
            let (_, _, h1) =
              >>=-returned (save_user (clear_otp user)) (λ _. pure (clear_otp user)) s
                (ground (arith, rw (other, email, found, check_login_code) at h)) in
            rw (other, email) (sym (ok-injective h1))
      ]
      | inr neither ↦ rw (other, neither) (cc (rw (other, neither, check_login_code) at h))
    ]
  ]

  -- What has been established before the second step gives out an access token, and what it gives.
  pub record IsSecondStep (now : ℕ) (request : TwoFactorLoginRequest) (db : Database)
      (response : TokenResponse) : Type 0 where
    pub payload : Claims
    pub decoded : decode_token env now request.mfa_token ≡ some payload
    pub handshake : payload.mfa_handshake ≡ true
    pub schema : Text
    pub in_schema : payload.tenant_schema ≡ some schema
    pub row_tables : Tables
    pub seen : db.tenants schema ≡ some row_tables
    pub user_id : Text
    pub named : payload.sub ≡ some user_id
    pub id : ℕ
    pub parsed : env.uuid.parse user_id ≡ some id
    pub user : User
    pub row : select (λ u. u.id == id) row_tables.users ≡ user ∷ []
    pub active : user.is_active ≡ true
    pub two_factors : user.two_factor_enabled ≡ true
    pub right_code : IsRightCode now user request.code
    pub user' : User
    pub spent : user' ≡ spent_by user
    pub modules : List String
    pub org_modules : List String
    pub token :
        response
        ≡ logged_in (create_access_token env user' schema false now) user' modules org_modules

  -- What is known of the row once the second step has answered.
  abbrev Finished : ℕ → TwoFactorLoginRequest → Text → User → TokenResponse → Type 0
  Finished now request schema user response =
      (user.is_active ≡ true)
      × (user.two_factor_enabled ≡ true)
      × IsRightCode now user request.code
      × (user' : User) × (user' ≡ spent_by user)
      × (ms : List String) × (os : List String) × (response
          ≡ logged_in (create_access_token env user' schema false now) user' ms os)

  finish_login_2fa-ok :
      (now : ℕ) (request : TwoFactorLoginRequest) (schema : Text) (user : User) (s : Session)
      {response : TokenResponse}
      → (finish_login_2fa env now request schema (some user) s).0 ≡ ok response
      → Finished now request schema user response
  unfolding finish_login_2fa
  finish_login_2fa-ok now request schema user s {response} h =
      elim (Bool-cases (not user.is_active || not user.two_factor_enabled)) [
        | inl refused ↦ cc (simp (refused, finish_login_2fa) at h)
        | inr allowed ↦
            let (user', checked, h1) =
              >>=-returned (check_login_code env now user request.code) (λ _. _) s
                (simp (allowed, finish_login_2fa) at h) in
            let (_, _, h2) =
              >>=-returned (record_audit user.id none (codes "auth.login.2fa")) (λ _. _) _ h1 in
            let (answer, answered, h3) =
              >>=-returned (token_response env now user' schema) (λ _. _) _ h2 in
            let (_, _, h4) = >>=-returned (set_search_path (codes "public")) (λ _. _) _ h3 in
            let (_, _, h5) = >>=-returned commit (λ _. _) _ h4 in
            let (ms, os, e) = token_response-ok env now user' schema _ answered in
            (
              ground arith,
              ground arith,
              check_login_code-ok now user request.code s checked,
              user',
              check_login_code-user now user request.code s checked,
              ms,
              os,
              sym (ok-injective h5) ∙ e,
            )
      ]

  user_of_claim-ok :
      (sub : Option Text) (s : Session) {user : User}
      → (user_of_claim env sub s).0 ≡ ok (some user)
      → (user_id : Text) × (id : ℕ) × (t : Tables) × (sub ≡ some user_id)
        × (env.uuid.parse user_id ≡ some id)
        × (s.current.tenants s.search_path ≡ some t)
        × (select (λ u. u.id == id) t.users ≡ user ∷ [])
  unfolding user_of_claim
  user_of_claim-ok none s h = cc
  user_of_claim-ok (some user_id) s h = elim (Option-cases (env.uuid.parse user_id)) [
    | inl bad ↦ cc (rw (bad, user_of_claim) at h)
    | inr (id, good) ↦
        let (t, read, h1) = >>=-returned tables (λ _. _) s (rw (good, user_of_claim) at h) in
        (user_id, id, t, refl, good, (tables-current s read).0, scalar_one_or_none-some _ h1)
  ]

  mfa_payload-ok :
      (now : ℕ) (token : Text) {payload : Claims}
      → mfa_payload env now token ≡ ok payload
      → (decode_token env now token ≡ some payload) × (payload.mfa_handshake ≡ true)
  unfolding mfa_payload
  mfa_payload-ok now token h = ground arith

  enter_schema-ok :
      (claim : Option Text) (s : Session) {schema : Text}
      → (enter_schema env claim s).0 ≡ ok schema
      → (claim ≡ some schema) × ((enter_schema env claim s).1 ≡ record s { search_path = schema })
  unfolding enter_schema
  enter_schema-ok none s h = cc
  enter_schema-ok (some name) s {schema} h =
      let (_, e, h1) = >>=-returned (set_search_path name) (λ _. pure name) s h in
      let path = set_search_path-path name s e in
      let same = ok-injective h1 in
      (
        ap some same,
        ap (λ r. r.1)
              (>>=-ok (set_search_path name) (λ _. pure name) s
                (ap (λ r. (r, (set_search_path name s).1)) e ∙ ap (λ s'. (ok tt, s')) path))
            ∙ ap (λ path'. record s { search_path = path' }) same,
      )

  finish_found-ok :
      (now : ℕ) (request : TwoFactorLoginRequest) (schema : Text) (found : Option User)
      (s : Session) {response : TokenResponse}
      → (finish_login_2fa env now request schema found s).0 ≡ ok response
      → (user : User) × (found ≡ some user) × Finished now request schema user response
  unfolding finish_login_2fa
  finish_found-ok now request schema none s h = cc
  finish_found-ok now request schema (some user) s h =
      (user, refl, finish_login_2fa-ok now request schema user s h)

  -- The second step gives out an access token only for a token of the first step that decodes, and
  -- for the one row with its id in the schema it names, which is active and has a second factor. The
  -- code is right: by the authenticator app, or the mailed code before it expires; a method other
  -- than the two is not checked. The answer has an access token of this user for this schema, and the
  -- user as the row was, but without a code that was mailed.
  pub login_2fa-IsSecondStep :
      (now : ℕ) (request : TwoFactorLoginRequest) (s : Session) {response : TokenResponse}
      → (login_2fa env now request s).0 ≡ ok response
      → IsSecondStep now request s.current response
  unfolding login_2fa
  login_2fa-IsSecondStep now request s h =
      let (payload, read, h1) =
        >>=-returned (lift (mfa_payload env now request.mfa_token)) (λ _. _) s h in
      let (schema, entered, h2) =
        >>=-returned (enter_schema env payload.tenant_schema) (λ _. _) _ h1 in
      let (found, claimed, h3) = >>=-returned (user_of_claim env payload.sub) (λ _. _) _ h2 in
      let (decoded, handshake) = mfa_payload-ok now request.mfa_token read in
      let (in_schema, path) = enter_schema-ok payload.tenant_schema s entered in
      let (user, is_some, finished) = finish_found-ok now request schema found _ h3 in
      let (active, two, right, user', spent, ms, os, token) = finished in
      let (user_id, id, t, named, parsed, seen, row) =
        user_of_claim-ok payload.sub _ (claimed ∙ ap ok is_some) in
      record {
        payload = payload;
        decoded = decoded;
        handshake = handshake;
        schema = schema;
        in_schema = in_schema;
        row_tables = t;
        seen = subst (λ (s' : Session). s'.current.tenants s'.search_path ≡ some t) path seen;
        user_id = user_id;
        named = named;
        id = id;
        parsed = parsed;
        user = user;
        row = row;
        active = active;
        two_factors = two;
        right_code = right;
        user' = user';
        spent = spent;
        modules = ms;
        org_modules = os;
        token = token;
      }
