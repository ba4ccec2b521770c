-- ===== src/Auth/Tokens.antt =====
-- Signing and reading tokens: Backend/app/security.py, and `create_access_token`,
-- `create_platform_owner_token` and `create_mfa_token` of Backend/app/api/auth.py.
use server_deck_backend.Base.{
  ℕ, ◌+◌, ◌*◌, ◌≡◌, Bool, true, false, ◌&&◌, Option, none, some, ◌==◌, text_eq, if◌then◌else◌,
  arith,
}
use server_deck_backend.Base.Text.{Text, codes}
use server_deck_backend.Models.{User, PlatformUser}
use server_deck_backend.Auth.Env.{Claims, Stamped, is_past, Env}

module _ (env : Env) where
  unfoldable pub encode_token : Claims → Text
  encode_token payload =
      env.jose.encode
        (record {
          claims = payload;
          iss = env.settings.jwt_issuer;
          aud = env.settings.jwt_audience;
        })
        env.settings.jwt_secret env.settings.jwt_algorithm

  -- `none` is a JWTError.
  unfoldable pub decode_token : ℕ → Text → Option Claims
  decode_token now token =
      env.jose.decode now token env.settings.jwt_secret env.settings.jwt_algorithm
        env.settings.jwt_audience env.settings.jwt_issuer

  abbrev pub access_claims : User → Text → Bool → ℕ → Claims
  access_claims user schema is_owner now = record {
    sub = some (env.uuid.show user.id);
    team_id = some (env.uuid.show user.team_id);
    email = none;
    tenant_schema = some schema;
    is_platform_owner = is_owner;
    mfa_handshake = false;
    exp = some (now + env.settings.jwt_expire_hours * 3600);
  }

  unfoldable pub create_access_token : User → Text → Bool → ℕ → Text
  create_access_token user schema is_owner now =
      encode_token (access_claims user schema is_owner now)

  abbrev pub platform_owner_claims : PlatformUser → ℕ → Claims
  platform_owner_claims platform_user now = record {
    sub = some (env.uuid.show platform_user.id);
    team_id = none;
    email = none;
    tenant_schema = some (codes "public");
    is_platform_owner = true;
    mfa_handshake = false;
    exp = some (now + env.settings.jwt_expire_hours * 3600);
  }

  unfoldable pub create_platform_owner_token : PlatformUser → ℕ → Text
  create_platform_owner_token platform_user now =
      encode_token (platform_owner_claims platform_user now)

  abbrev pub mfa_claims : User → Text → ℕ → Claims
  mfa_claims user schema now = record {
    sub = some (env.uuid.show user.id);
    team_id = none;
    email = some user.email;
    tenant_schema = some schema;
    is_platform_owner = false;
    mfa_handshake = true;
    exp = some (now + 5 * 60);
  }

  unfoldable pub create_mfa_token : User → Text → ℕ → Text
  create_mfa_token user schema now = encode_token (mfa_claims user schema now)

  -- A token decodes to its payload, unless it has expired.
  pub decode_token-encode_token :
      (now : ℕ) (payload : Claims)
      → decode_token now (encode_token payload)
        ≡ (if is_past payload.exp now then none else some payload)
  unfolding decode_token encode_token
  decode_token-encode_token now payload = ground (
    arith,
    env.jose.decode-encode now
        (record {
          claims = payload;
          iss = env.settings.jwt_issuer;
          aud = env.settings.jwt_audience;
        })
        env.settings.jwt_secret env.settings.jwt_algorithm env.settings.jwt_audience
        env.settings.jwt_issuer,
    text_eq.same_iff env.settings.jwt_audience env.settings.jwt_audience,
    text_eq.same_iff env.settings.jwt_issuer env.settings.jwt_issuer,
  )

  -- A token that was signed with the same secret for another audience or by another issuer does
  -- not decode.
  pub decode_token-other :
      (now : ℕ) (foreign : Stamped)
      → ((foreign.aud == env.settings.jwt_audience) && (foreign.iss == env.settings.jwt_issuer))
        ≡ false
      → decode_token now
          (env.jose.encode foreign env.settings.jwt_secret env.settings.jwt_algorithm)
        ≡ none
  unfolding decode_token
  decode_token-other now foreign h = ground (
    arith,
    env.jose.decode-encode now foreign env.settings.jwt_secret env.settings.jwt_algorithm
        env.settings.jwt_audience env.settings.jwt_issuer,
  )
