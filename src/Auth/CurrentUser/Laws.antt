-- ===== src/Auth/CurrentUser/Laws.antt =====
-- Whom a token authenticates.
use server_deck_backend.Base.{
  ℕ, ◌≡◌, refl, ap, sym, subst, ◌∙◌, ◌+◌, ◌*◌, Bool, true, false, ◌||◌, not, Option, none, some,
  ◌==◌, nat_eq, string_eq, if◌then◌else◌, List, [], ◌∷◌, select, arith, ltb, Bool-cases,
  Option-cases, eq_of_==, All, inl, inr,
}
use server_deck_backend.Base.Text.{Text}
use server_deck_backend.Base.Outcome.{ok, require, scalar_one_or_none-some, >>=-returned}
use server_deck_backend.Models.{User}
use server_deck_backend.Auth.Env.{Claims, Env}
use server_deck_backend.Auth.Tokens.{
  decode_token, encode_token, decode_token-encode_token, create_access_token, access_claims,
  create_mfa_token, mfa_claims,
}
use server_deck_backend.Auth.CurrentUser.{
  read_token, subject, is_expired, find_user, active_user, get_current_user, credentials_exception,
}

module _ (env : Env) where
  -- `user` is the one row with its id.
  abbrev pub IsOnlyRow : User → List User → Type 0
  IsOnlyRow user users = select (λ u. u.id == user.id) users ≡ user ∷ []

  find_user-show :
      (user : User) (users : List User)
      → IsOnlyRow user users
      → find_user env users (env.uuid.show user.id) ≡ ok (some user)
  unfolding find_user
  find_user-show user users only = rw (env.uuid.parse-show user.id, only, find_user)

  -- A signed payload that names the id of the only such row as subject.
  current_user_of_claims :
      (now : ℕ) (user : User) (users : List User) (payload : Claims) (exp : ℕ)
      → IsOnlyRow user users
      → payload.sub ≡ some (env.uuid.show user.id)
      → payload.exp ≡ some exp
      → get_current_user env now users (encode_token env payload)
        ≡ (if ltb exp now || not user.is_active then credentials_exception else ok user)
  unfolding get_current_user active_user read_token is_expired
  current_user_of_claims now user users payload exp only names ends =
      ground (arith, decode_token-encode_token env now payload, find_user-show user users only)

  -- An access token authenticates its user, as long as the user is the only row with that id: the
  -- answer is that row until the token has expired or the user is inactive, and 401 from then on.
  pub get_current_user-access_token :
      (now issued : ℕ) (user : User) (users : List User) (schema : Text) (is_owner : Bool)
      → IsOnlyRow user users
      → get_current_user env now users (create_access_token env user schema is_owner issued) ≡ (
          if ltb (issued + env.settings.jwt_expire_hours * 3600) now || not user.is_active
          then credentials_exception
          else ok user)
  unfolding create_access_token
  get_current_user-access_token now issued user users schema is_owner only =
      current_user_of_claims now user users (access_claims env user schema is_owner issued)
        (issued + env.settings.jwt_expire_hours * 3600) only refl refl

  -- The token that a login hands out before the second factor is checked authenticates its user
  -- in the same way, for five minutes: `get_current_user` does not look at "mfa_handshake".
  pub get_current_user-mfa_token :
      (now issued : ℕ) (user : User) (users : List User) (schema : Text)
      → IsOnlyRow user users
      → get_current_user env now users (create_mfa_token env user schema issued) ≡ (
          if ltb (issued + 5 * 60) now || not user.is_active
          then credentials_exception
          else ok user)
  unfolding create_mfa_token
  get_current_user-mfa_token now issued user users schema only =
      current_user_of_claims now user users (mfa_claims env user schema issued) (issued + 5 * 60)
        only refl refl

  select-All : (p : User → Bool) (users : List User) → All (λ u. p u ≡ true) (select p users)
  select-All p [] = tt
  select-All p (u ∷ us) = elim (Bool-cases (p u)) [
    | inl h ↦ rw h (h, select-All p us)
    | inr h ↦ rw h (select-All p us)
  ]

  -- What has been established about the user whom a request acts for.
  pub record IsAuthenticated (now : ℕ) (users : List User) (token : Text) (user : User)
      : Type 0 where
    pub payload : Claims
    pub decoded : decode_token env now token ≡ some payload
    pub user_id : Text
    pub named : payload.sub ≡ some user_id
    pub parsed : env.uuid.parse user_id ≡ some user.id
    pub only_row : IsOnlyRow user users
    pub active : user.is_active ≡ true
    pub current : is_expired payload.exp now ≡ false

  read_token-ok :
      (now : ℕ) (token : Text) {payload : Claims}
      → read_token env now token ≡ ok payload
      → decode_token env now token ≡ some payload
  unfolding read_token
  read_token-ok now token h = ground arith

  subject-ok :
      (payload : Claims) {user_id : Text}
      → subject payload ≡ ok user_id
      → payload.sub ≡ some user_id
  subject-ok payload h = ground arith

  find_user-ok :
      (users : List User) (user_id : Text) {user : User}
      → find_user env users user_id ≡ ok (some user)
      → (env.uuid.parse user_id ≡ some user.id) × IsOnlyRow user users
  unfolding find_user
  find_user-ok users user_id {user} h = elim (Option-cases (env.uuid.parse user_id)) [
    | inl bad ↦ cc (rw (bad, find_user) at h)
    | inr (id, good) ↦
        let rows = scalar_one_or_none-some (select (λ u. u.id == id) users) (ground arith) in
        let all =
          subst (All (λ u. (u.id == id) ≡ true)) rows (select-All (λ u. u.id == id) users) in
        let same = eq_of_== user.id id all.0 in
        (
          good ∙ ap some (sym same),
          subst (λ k. select (λ u. u.id == k) users ≡ user ∷ []) (sym same) rows,
        )
  ]

  active_user-ok :
      (found : Option User) {user : User}
      → active_user found ≡ ok user
      → (found ≡ some user) × (user.is_active ≡ true)
  unfolding active_user
  active_user-ok none h = cc
  active_user-ok (some u) h = ground arith

  -- Only an active user whose id is the subject of a token that decodes and has not expired gets
  -- through; and the row returned is the only one with that id.
  pub get_current_user-IsAuthenticated :
      (now : ℕ) (users : List User) (token : Text) {user : User}
      → get_current_user env now users token ≡ ok user
      → IsAuthenticated now users token user
  unfolding get_current_user
  get_current_user-IsAuthenticated now users token h =
      let (payload, read, h1) = >>=-returned (read_token env now token) _ h in
      let (user_id, named, h2) = >>=-returned (subject payload) _ h1 in
      let (_, fresh, h3) =
        >>=-returned (require (not (is_expired payload.exp now)) 401 "Invalid or expired token") _
          h2 in
      let (found, row, h4) = >>=-returned (find_user env users user_id) _ h3 in
      let (is_some, active) = active_user-ok found h4 in
      let (parsed, only) = find_user-ok users user_id (row ∙ ap ok is_some) in
      record {
        payload = payload;
        decoded = read_token-ok now token read;
        user_id = user_id;
        named = subject-ok payload named;
        parsed = parsed;
        only_row = only;
        active = active;
        current = ground arith;
      }
