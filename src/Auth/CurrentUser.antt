-- ===== src/Auth/CurrentUser.antt =====
-- The dependencies of Backend/app/middleware/auth.py: who is calling, and with which role. `users`
-- are the rows of the table that the request's database session sees.
pub mod Laws
use server_deck_backend.Base.{
  ℕ, ◌≡◌, refl, Bool, true, false, ◌&&◌, ◌||◌, not, Option, none, some, String, ◌==◌, nat_eq,
  string_eq, ltb, if◌then◌else◌, List, [], ◌∷◌, contains, select,
}
use server_deck_backend.Base.Text.{Text}
use server_deck_backend.Base.Outcome.{
  Outcome, ok, http, crash, ◌>>=◌, ◌>>◌, require, scalar_one_or_none,
}
use server_deck_backend.Models.{User, Organization}
use server_deck_backend.Auth.Env.{Claims, Env}
use server_deck_backend.Auth.Tokens.{decode_token}
use server_deck_backend.Tenant.Modules.{get_user_resolved_modules}

abbrev pub credentials_exception {ℓ} : {A : Type ℓ} → Outcome A
credentials_exception = http 401 "Invalid or expired token"

-- `payload = decode_token(token)`, with the JWTError turned into the 401.
unfoldable pub read_token : Env → ℕ → Text → Outcome Claims
read_token env now token = elim (decode_token env now token) [
  | none ↦ credentials_exception
  | some payload ↦ ok payload
]

abbrev pub subject : Claims → Outcome Text
subject payload = elim payload.sub [ none ↦ credentials_exception | some sub ↦ ok sub ]

-- `exp and … < now`: the number 0 is false.
unfoldable pub is_expired : Option ℕ → ℕ → Bool
is_expired none now = false
is_expired (some exp) now = not (exp == 0) && ltb exp now

-- `select(User).where(User.id == user_id)` with the id as a text: a text that is no UUID is an
-- error of the database driver.
unfoldable pub find_user : Env → List User → Text → Outcome (Option User)
find_user env users user_id = elim (env.uuid.parse user_id) [
  | none ↦ crash "DBAPIError"
  | some id ↦ scalar_one_or_none (select (λ u. u.id == id) users)
]

-- `user is None or not user.is_active`
unfoldable pub active_user : Option User → Outcome User
active_user none = credentials_exception
active_user (some user) = if not user.is_active then credentials_exception else ok user

unfoldable pub get_current_user : Env → ℕ → List User → Text → Outcome User
get_current_user env now users token = do
  payload ← read_token env now token
  user_id ← subject payload
  require (not (is_expired payload.exp now)) 401 "Invalid or expired token"
  found ← find_user env users user_id
  active_user found

-- The checks on the role. Each takes the user that `get_current_user` returned.
unfoldable pub require_admin : User → Outcome User
require_admin user =
    if not (contains user.role ("owner" ∷ "admin" ∷ []))
    then http 403 "You do not have permission to perform this action"
    else ok user

unfoldable pub require_owner : User → Outcome User
require_owner user =
    if not (user.role == "owner")
    then http 403 "Only the team owner can perform this action"
    else ok user

unfoldable pub require_support : User → Outcome User
require_support user =
    if not (contains user.role ("owner" ∷ "admin" ∷ "support" ∷ []))
    then http 403 "You do not have permission to access support features"
    else ok user

-- The dependency that `require_module(module_name)` returns.
unfoldable pub require_module : List Organization → Text → String → User → Outcome User
require_module orgs schema module_name user = do
  resolved ← get_user_resolved_modules orgs user schema
  if not (contains module_name resolved)
      then http 403 "Module is disabled for your account/organization."
      else ok user
