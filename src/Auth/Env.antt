-- ===== src/Auth/Env.antt =====
-- What the handlers use of packages that are not in the repository, and the settings of
-- Backend/app/config.py that they read. Each package is a record of operations with the behaviour
-- that its documentation states. Times are whole seconds since the epoch.
use server_deck_backend.Base.{
  ℕ, ◌≡◌, Bool, true, false, ◌||◌, not, Option, none, some, ltb, ◌==◌, text_eq, if◌then◌else◌, List,
}
use server_deck_backend.Base.Text.{Text}

-- The payload of a JSON web token: `none` and `false` stand for a missing key.
pub record Claims : Type 0 where
  pub sub : Option Text
  pub team_id : Option Text
  pub email : Option Text
  pub tenant_schema : Option Text
  pub is_platform_owner : Bool
  pub mfa_handshake : Bool
  pub exp : Option ℕ

-- A payload with the two claims that `encode_token` adds.
pub record Stamped : Type 0 where
  pub claims : Claims
  pub iss : Text
  pub aud : Text

abbrev pub is_past : Option ℕ → ℕ → Bool
is_past none now = false
is_past (some exp) now = ltb exp now

-- python-jose: a token decodes to what was signed, under the same secret and algorithm, unless it
-- has expired or names another issuer or audience.
pub record Jose : Type 0 where
  pub encode : Stamped → Text → Text → Text
  pub decode : ℕ → Text → Text → Text → Text → Text → Option Claims
  pub decode-encode :
      (now : ℕ) (p : Stamped) (secret algorithm aud iss : Text)
      → decode now (encode p secret algorithm) secret algorithm aud iss ≡ (
          if is_past p.claims.exp now || not (p.aud == aud) || not (p.iss == iss)
          then none
          else some p.claims)

-- passlib's bcrypt: the hash depends on a random salt, and verifies the text that was hashed.
pub record Bcrypt : Type 0 where
  pub hash : ℕ → Text → Text
  pub verify : Text → Text → Bool
  pub verify-hash : (salt : ℕ) (text : Text) → verify text (hash salt text) ≡ true

-- `str(uuid)` and the parsing of a text as a UUID, which fails on other texts.
pub record Uuid : Type 0 where
  pub show : ℕ → Text
  pub parse : Text → Option ℕ
  pub parse-show : (id : ℕ) → parse (show id) ≡ some id

-- The settings that are read.
pub record Settings : Type 0 where
  pub jwt_secret : Text
  pub jwt_algorithm : Text
  pub jwt_expire_hours : ℕ
  pub jwt_issuer : Text
  pub jwt_audience : Text

pub record Env : Type 0 where
  pub settings : Settings
  pub jose : Jose
  pub bcrypt : Bcrypt
  -- `hmac.new(key, msg, hashlib.sha1).digest()` and `base64.b32decode`, which may fail.
  pub hmac_sha1 : List ℕ → List ℕ → List ℕ
  pub b32decode : Text → Option (List ℕ)
  pub uuid : Uuid
