-- ===== src/Admin.antt =====
-- The platform owner's account: Backend/app/api/admin.py. The other handlers run after
-- `require_platform_owner`.
pub mod Organizations
pub mod Waitlist
pub mod Approve
pub mod Provision
pub mod Legacy
pub mod Individuals
pub mod Invitation
pub mod Tickets
pub mod Approval
pub mod Owner
use server_deck_backend.Base.{
  ℕ, Bool, true, false, ◌||◌, not, List, [], ◌∷◌, ◌++◌, String, ◌==◌, nat_eq, text_eq, Option, none,
  some, select, any, delete_where, update_where, if◌then◌else◌, map,
}
use server_deck_backend.Base.Text.{Text, codes, strip, lower}
use server_deck_backend.Base.Outcome.{Outcome, ok, http, crash, scalar_one_or_none}
use server_deck_backend.Models.{User, Organization, PlatformUser}
use server_deck_backend.Database.{
  Action, Database, Tables, ◌>>=◌, ◌>>◌, pure, lift, raise_http, commit, set_search_path,
  public_tables, put_public, send_mail, org_creation,
}
use server_deck_backend.Tenant.SchemaName.{validate_schema_name}
use server_deck_backend.Auth.Env.{Claims, Env}
use server_deck_backend.Auth.Tokens.{decode_token, create_platform_owner_token}
use server_deck_backend.Users.{add_user}

-- `select(PlatformUser).where(PlatformUser.id == user_id)`: without a subject there is no row.
unfoldable pub find_platform_user :
    Env → List PlatformUser → Option Text → Outcome (Option PlatformUser)
find_platform_user env users none = ok none
find_platform_user env users (some user_id) = elim (env.uuid.parse user_id) [
  | none ↦ crash "DBAPIError"
  | some id ↦ scalar_one_or_none (select (λ u. u.id == id) users)
]

unfoldable pub active_owner : Outcome (Option PlatformUser) → Outcome PlatformUser
active_owner (ok none) = http 401 "Platform owner account not found"
active_owner (ok (some user)) =
    if not user.is_active then http 401 "Platform owner account not found" else ok user
active_owner (http n d) = http n d
active_owner (crash e) = crash e

unfoldable pub owner_of : Env → List PlatformUser → Claims → Outcome PlatformUser
owner_of env users payload =
    if not payload.is_platform_owner
    then http 403 "Platform owner access required"
    else active_owner (find_platform_user env users payload.sub)

unfoldable pub require_platform_owner : Env → ℕ → List PlatformUser → Text → Outcome PlatformUser
require_platform_owner env now users token = elim (decode_token env now token) [
  | none ↦ http 401 "Invalid token"
  | some payload ↦ owner_of env users payload
]

pub record Setup : Type 0 where
  pub name : String
  pub email : Text
  pub password : Text
  pub setup_secret : Text

abbrev pub new_owner : Env → ℕ → ℕ → Setup → PlatformUser
new_owner env salt new_id request = record {
  id = new_id;
  email = request.email;
  password_hash = env.bcrypt.hash salt request.password;
  name = request.name;
  is_active = true;
}

unfoldable pub setup_unless : Env → ℕ → ℕ → ℕ → Setup → Option PlatformUser → Action Text
setup_unless env now salt new_id request (some existing) =
    raise_http 409 "Platform owner already exists"
setup_unless env now salt new_id request none = do
  db ← public_tables
  put_public (record db { platform_users = new_owner env salt new_id request ∷ db.platform_users })
  commit
  pure (create_platform_owner_token env (new_owner env salt new_id request) now)

-- `admin_setup_secret` is the setting, empty where the set-up is disabled.
unfoldable pub setup_platform_owner : Text → Env → ℕ → ℕ → ℕ → Setup → Action Text
setup_platform_owner admin_setup_secret env now salt new_id request =
    if admin_setup_secret == []
    then raise_http 403 "Platform setup is disabled."
    else if not (request.setup_secret == admin_setup_secret)
    then raise_http 403 "Invalid setup secret."
    else (do
      db ← public_tables
      existing ← lift (scalar_one_or_none db.platform_users)
      setup_unless env now salt new_id request existing)
