-- ===== src/Tests/AuthTests.antt =====
-- Tests of tokens, the current user and logins.
use server_deck_backend.Base.{
  ℕ, ◌≡◌, refl, true, false, none, some, text_eq, string_eq, List, [], ◌∷◌, arith, ◌↔◌, ◌⊎◌, ◌≢◌,
}
use server_deck_backend.Base.Text.{codes, strip, split_char, split_text, lower}
use server_deck_backend.Base.Outcome.{ok, http}
use server_deck_backend.Models.{User}
use server_deck_backend.Database.{
  commit, set_search_path, tables, put_tables, public_tables, send_mail,
}
use server_deck_backend.Tenant.SchemaName.{validate_schema_name}
use server_deck_backend.Tenant.OrgKey.{
  get_org_key_from_email, lacks_domain, domain_labels, org_key_of_domain, is_common,
}
use server_deck_backend.Tenant.Modules.{
  get_org_enabled_modules, get_user_resolved_modules, find_organization, modules_of,
  names_organization, org_key_of_schema, resolve_for, restrict,
}
use server_deck_backend.Auth.Tokens.{
  create_access_token, create_mfa_token, encode_token, decode_token,
}
use server_deck_backend.Auth.CurrentUser.{get_current_user, require_module}
use server_deck_backend.Auth.CurrentUser.Laws.{
  get_current_user-access_token, get_current_user-mfa_token, IsAuthenticated,
  get_current_user-IsAuthenticated,
}
use server_deck_backend.Auth.Login.{
  UserLogin, logged_in, TwoFactorLoginRequest, login, login_any, login_by_key, login_in_org,
  login_in_schema, login_found, login_user, begin_second_factor, token_response, record_audit,
  save_user, find_by_email,
}
use server_deck_backend.Auth.Login.Laws.{Answer, login-Answer}
use server_deck_backend.Auth.SecondFactor.{
  login_2fa, mfa_payload, enter_schema, user_of_claim, finish_login_2fa, check_login_code,
  pending_otp,
}
use server_deck_backend.Auth.SecondFactor.Login.{IsSecondStep, login_2fa-IsSecondStep}
use server_deck_backend.Auth.Totp.{verify_totp, normalize_secret}
use server_deck_backend.Auth.Totp.Laws.{Matches, verify_totp_iff}
use server_deck_backend.Tests.Codec.{codec}
use server_deck_backend.Tests.Samples.{env, ann, bob, acme, acme_org, session, twenty}

get_current_user-access_token_example :
    get_current_user env 1010 (ann ∷ bob ∷ []) (create_access_token env ann acme false 1000)
    ≡ ok ann
get_current_user-access_token_example =
    get_current_user-access_token env 1010 1000 ann (ann ∷ bob ∷ []) acme false refl

-- Bob has a second factor, and his token of the first step is enough.
get_current_user-mfa_token_example :
    get_current_user env 1010 (ann ∷ bob ∷ []) (create_mfa_token env bob acme 1000) ≡ ok bob
get_current_user-mfa_token_example =
    get_current_user-mfa_token env 1010 1000 bob (ann ∷ bob ∷ []) acme refl

get_current_user-IsAuthenticated_example :
    IsAuthenticated env 1010 (ann ∷ bob ∷ []) (create_access_token env ann acme false 1000) ann
get_current_user-IsAuthenticated_example =
    get_current_user-IsAuthenticated env 1010 (ann ∷ bob ∷ [])
      (create_access_token env ann acme false 1000) get_current_user-access_token_example

modules_run : Unit {0}
unfolding get_user_resolved_modules get_org_enabled_modules names_organization org_key_of_schema
    find_organization modules_of resolve_for restrict split_text
modules_run = tt

ann_not_support : ann.role ≢ "support"
ann_not_support e = grind (arith, string_eq.same_iff ann.role "support")

ann_may_nginx : require_module (acme_org ∷ []) acme "nginx" ann ≡ ok ann
unfolding require_module modules_run
ann_may_nginx = refl

-- Opening this opens the whole login.
login_run : Unit {0}
unfolding codec modules_run login login_any login_by_key login_in_org login_in_schema login_found
    login_user begin_second_factor token_response record_audit save_user find_by_email
    create_access_token create_mfa_token encode_token decode_token get_org_key_from_email
    lacks_domain domain_labels org_key_of_domain is_common split_char strip lower
    validate_schema_name set_search_path tables put_tables public_tables send_mail commit
login_run = tt

abbrev ann_logs_in : UserLogin
ann_logs_in = record { email = codes "ann@acme.com"; password = codes "hunter22" }

ann_response :
    (login env 1000 5 (codes "654321") ann_logs_in session).0
    ≡ ok (
        logged_in
          (create_access_token env ann acme false 1000)
          ann
          ("nginx" ∷ [])
          ("nginx" ∷ "pm2" ∷ []))
unfolding login_run
ann_response = refl

wrong_password :
    (login env 1000 5
      (codes "654321")
      (record { email = codes "ann@acme.com"; password = codes "guess" })
      session).0
    ≡ http 401 "Invalid email or password"
unfolding login_run
wrong_password = refl

login-Answer_example : Answer env 1000 5 (codes "654321") ann_logs_in session.current (
    logged_in
      (create_access_token env ann acme false 1000)
      ann
      ("nginx" ∷ [])
      ("nginx" ∷ "pm2" ∷ []))
login-Answer_example = login-Answer env 1000 5 (codes "654321") ann_logs_in session ann_response

abbrev bob_second_step : TwoFactorLoginRequest
bob_second_step = record { mfa_token = create_mfa_token env bob acme 1000; code = codes "123456" }

abbrev bob_cleared : User
bob_cleared = record bob { two_factor_otp_secret = none; two_factor_otp_expires_at = none }

bob_response :
    (login_2fa env 1010 bob_second_step session).0
    ≡ ok (
        logged_in
          (create_access_token env bob_cleared acme false 1010)
          bob_cleared
          ("nginx" ∷ [])
          ("nginx" ∷ "pm2" ∷ []))
unfolding login_run login_2fa mfa_payload enter_schema user_of_claim finish_login_2fa
    check_login_code pending_otp
bob_response = refl

login_2fa-IsSecondStep_example : IsSecondStep env 1010 bob_second_step session.current (
    logged_in
      (create_access_token env bob_cleared acme false 1010)
      bob_cleared
      ("nginx" ∷ [])
      ("nginx" ∷ "pm2" ∷ []))
login_2fa-IsSecondStep_example =
    login_2fa-IsSecondStep env 1010 bob_second_step session bob_response

verify_totp_iff_example :
    (verify_totp (λ key msg. twenty) (λ s. some s) 3000 (codes "ABCDEFGH") (codes "000000") 1
      ≡ true)
    ↔ ((key : List ℕ) × (some (normalize_secret (codes "ABCDEFGH")) ≡ some key)
        × (Matches (λ k m. twenty) (λ s. some s) (λ k m. refl) key (codes "000000") 99
            ⊎ (Matches (λ k m. twenty) (λ s. some s) (λ k m. refl) key (codes "000000") 100
                ⊎ Matches (λ k m. twenty) (λ s. some s) (λ k m. refl) key (codes "000000") 101)))
verify_totp_iff_example =
    verify_totp_iff (λ key msg. twenty) (λ s. some s) (λ k m. refl) 3000 99 (codes "ABCDEFGH")
      (codes "000000") refl (omega arith)
