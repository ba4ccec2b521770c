-- ===== src/Admin/Owner.antt =====
-- The platform owner is set up once, and the token of the set-up is the owner's.
use server_deck_backend.Base.{
  ℕ, ◌+◌, ◌*◌, ◌≡◌, refl, sym, ap, subst, ◌∙◌, true, false, List, [], ◌∷◌, ◌==◌, text_eq, nat_eq,
  Option, some, ==-refl,
}
use server_deck_backend.Base.Text.{Text}
use server_deck_backend.Base.Outcome.{ok, http, scalar_one_or_none}
use server_deck_backend.Models.{PlatformUser}
use server_deck_backend.Database.{Session, lift, public_tables, put_public, commit}
use server_deck_backend.Database.Laws.{>>=-ok}
use server_deck_backend.Auth.Env.{Env, is_past}
use server_deck_backend.Auth.Tokens.{
  create_platform_owner_token, platform_owner_claims, decode_token-encode_token,
}
use server_deck_backend.Hub.Client.{new_session}
use server_deck_backend.Admin.{
  Setup, setup_platform_owner, setup_unless, new_owner, require_platform_owner, owner_of,
  find_platform_user, active_owner,
}

module _ (admin_setup_secret : Text) (configured : (admin_setup_secret == []) ≡ false)
    (env : Env) where
  -- With the right secret the set-up comes down to the owner that is there.
  setup-run :
      (now salt new_id : ℕ) (request : Setup) (s : Session) {existing : Option PlatformUser}
      → (request.setup_secret == admin_setup_secret) ≡ true
      → scalar_one_or_none s.current.platform_users ≡ ok existing
      → setup_platform_owner admin_setup_secret env now salt new_id request s
        ≡ setup_unless env now salt new_id request existing s
  unfolding setup_platform_owner public_tables
  setup-run now salt new_id request s right none_yet =
      rw (configured, right)
        (>>=-ok (lift (scalar_one_or_none s.current.platform_users))
          (setup_unless env now salt new_id request) s (ap (λ o. (o, s)) none_yet))

  abbrev with_owners : Session → List PlatformUser → Session
  with_owners s users = record s {
    current = record s.current { platform_users = users };
    committed = record s.current { platform_users = users };
  }

  abbrev with_owner : PlatformUser → Session → Session
  with_owner owner s = with_owners s (owner ∷ [])

  setup-done :
      (now salt new_id : ℕ) (request : Setup) (s : Session)
      → (request.setup_secret == admin_setup_secret) ≡ true
      → s.current.platform_users ≡ []
      → setup_platform_owner admin_setup_secret env now salt new_id request s ≡ (
        ok (create_platform_owner_token env (new_owner env salt new_id request) now),
        with_owner (new_owner env salt new_id request) s,
      )
  unfolding setup_unless public_tables put_public commit
  setup-done now salt new_id request s right empty =
      setup-run now salt new_id request s right (ap scalar_one_or_none empty)
      ∙ ap
          (λ (users : List PlatformUser). (
            ok (create_platform_owner_token env (new_owner env salt new_id request) now),
            with_owners s (new_owner env salt new_id request ∷ users),
          ))
          empty

  setup-again :
      (now salt new_id : ℕ) (request : Setup) (s : Session)
      → (request.setup_secret == admin_setup_secret) ≡ true
      → (owner : PlatformUser) → s.current.platform_users ≡ owner ∷ []
      → setup_platform_owner admin_setup_secret env now salt new_id request s
        ≡ (http 409 "Platform owner already exists", s)
  unfolding setup_unless
  setup-again now salt new_id request s right owner there =
      setup-run now salt new_id request s right (ap scalar_one_or_none there)

  require_platform_owner-owner :
      (owner : PlatformUser) (now later : ℕ)
      → owner.is_active ≡ true
      → is_past (some (now + env.settings.jwt_expire_hours * 3600)) later ≡ false
      → require_platform_owner env later (owner ∷ []) (create_platform_owner_token env owner now)
        ≡ ok owner
  unfolding require_platform_owner owner_of find_platform_user active_owner
      create_platform_owner_token
  require_platform_owner-owner owner now later active fresh =
      rw
        (
          decode_token-encode_token env later (platform_owner_claims env owner now),
          require_platform_owner,
          fresh,
          env.uuid.parse-show owner.id,
          ==-refl owner.id,
          active,
        )
        refl

  -- On a database without a platform owner the right secret creates one. Its token is accepted as
  -- the owner's until it expires, and every later set-up is refused.
  pub setup_platform_owner-once :
      (now salt new_id : ℕ) (request : Setup) (s : Session) (later later_salt later_id : ℕ)
      (second : Setup)
      → (request.setup_secret == admin_setup_secret) ≡ true
      → s.current.platform_users ≡ []
      → is_past (some (now + env.settings.jwt_expire_hours * 3600)) later ≡ false
      → (second.setup_secret == admin_setup_secret) ≡ true
      → (token : Text) × ((setup_platform_owner admin_setup_secret env now salt new_id request s).0
          ≡ ok token)
        × (require_platform_owner env later
              (setup_platform_owner admin_setup_secret env now salt new_id request
                s).1.committed.platform_users
              token
            ≡ ok (new_owner env salt new_id request))
        × ((setup_platform_owner admin_setup_secret env later later_salt later_id second (
              new_session
                (setup_platform_owner admin_setup_secret env now salt new_id request
                  s).1.committed)).0
            ≡ http 409 "Platform owner already exists")
  setup_platform_owner-once now salt new_id request s later later_salt later_id second right empty
        fresh right2 =
      let owner = new_owner env salt new_id request in
      let token = create_platform_owner_token env owner now in
      let run = setup-done now salt new_id request s right empty in
      (
        token,
        ap (λ r. r.0) run,
        subst (λ users. require_platform_owner env later users token ≡ ok owner)
            (sym (ap (λ r. r.1.committed.platform_users) run))
            (require_platform_owner-owner owner now later refl fresh),
        subst
            (λ db.
              (setup_platform_owner admin_setup_secret env later later_salt later_id second
                (new_session db)).0
              ≡ http 409 "Platform owner already exists")
            (sym (ap (λ r. r.1.committed) run))
            (ap (λ r. r.0)
              (setup-again later later_salt later_id second
                (new_session (with_owner owner s).committed) right2 owner refl)),
      )
