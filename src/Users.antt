-- ===== src/Users.antt =====
-- Members of a team: `invite_user`, `get_invite_details`, `accept_invite` and `create_user_direct`
-- of Backend/app/api/users.py. The caller of the first and the last has passed `require_admin` or
-- `require_owner`.
pub mod Members
pub mod Laws
pub mod Invites
use server_deck_backend.Base.{
  ℕ, suc, ◌+◌, Bool, true, false, not, ◌&&◌, ◌||◌, List, [], ◌∷◌, ◌++◌, String, ◌==◌, nat_eq,
  text_eq, string_eq, if◌then◌else◌, Option, none, some, select, update_where, delete_where, any,
  contains, ltb,
}
use server_deck_backend.Base.Text.{Text}
use server_deck_backend.Base.Outcome.{Outcome, ok, http, crash, scalar_one_or_none}
use server_deck_backend.Models.{User, UserInvite, WaitlistRequest}
use server_deck_backend.Database.{
  Action, ◌>>=◌, ◌>>◌, pure, lift, raise_http, commit, tables, put_tables, public_tables,
  put_public, send_mail, invitation,
}
use server_deck_backend.Tenant.OrgKey.{get_org_key_from_email}
use server_deck_backend.Tenant.Modules.{
  get_org_enabled_modules, get_user_resolved_modules, restrict,
}
use server_deck_backend.Auth.Env.{Env}
use server_deck_backend.Auth.Login.{save_user}

pub record UserInviteCreate : Type 0 where
  pub email : Text
  pub role : String

pub record UserAcceptInvite : Type 0 where
  pub token : Text
  pub name : String
  pub password : Text

-- `db.add(user)`: the column "email" is unique.
unfoldable pub add_user : User → Action (Unit {0})
add_user user = do
  t ← tables
  if any (λ u. u.email == user.email) t.users
      then lift (crash "IntegrityError")
      else put_tables (record t { users = user ∷ t.users })

-- `secrets.token_urlsafe(32)` is the argument `random`.
abbrev pub invite_token : Text → Text → Text
invite_token random org_key = random ++ b':' ∷ org_key

unfoldable pub invite_for : ℕ → ℕ → Text → UserInviteCreate → User → Option Text → Action Text
invite_for now new_id random request admin none =
    raise_http 400 "Could not determine organization from admin email"
invite_for now new_id random request admin (some org_key) = do
  t ← tables
  put_tables (record t {
    invites =
        record {
          id = new_id;
          email = request.email;
          role = request.role;
          team_id = admin.team_id;
          token = invite_token random org_key;
          expires_at = now + 604800;
        }
        ∷ t.invites;
  })
  commit
  send_mail (invitation request.email (invite_token random org_key))
  pure (invite_token random org_key)

unfoldable pub invite_unless : ℕ → ℕ → Text → UserInviteCreate → User → Option User → Action Text
invite_unless now new_id random request admin (some user) = raise_http 400 "User already exists"
invite_unless now new_id random request admin none =
    invite_for now new_id random request admin (get_org_key_from_email admin.email)

unfoldable pub invite_user : ℕ → ℕ → Text → UserInviteCreate → User → Action Text
invite_user now new_id random request admin = do
  t ← tables
  existing ← lift (scalar_one_or_none (select (λ u. u.email == request.email) t.users))
  invite_unless now new_id random request admin existing

-- `get_invite_details`: the address and the role.
unfoldable pub details_of : ℕ → Option UserInvite → Action (Text × String)
details_of now none = raise_http 404 "Invitation not found"
details_of now (some invite) =
    if ltb invite.expires_at now
    then raise_http 400 "Invitation expired"
    else pure (invite.email, invite.role)

unfoldable pub get_invite_details : ℕ → Text → Action (Text × String)
get_invite_details now token = do
  t ← tables
  invite ← lift (scalar_one_or_none (select (λ i. i.token == token) t.invites))
  details_of now invite

-- The row of an accepted invitation.
abbrev pub invited_user : Env → ℕ → ℕ → UserAcceptInvite → UserInvite → User
invited_user env salt new_id request invite = record {
  id = new_id;
  email = invite.email;
  password_hash = env.bcrypt.hash salt request.password;
  name = request.name;
  team_id = invite.team_id;
  role = invite.role;
  is_active = true;
  enabled_modules = none;
  two_factor_enabled = false;
  two_factor_method = none;
  two_factor_secret = none;
  two_factor_otp_secret = none;
  two_factor_otp_expires_at = none;
}

-- `await db.delete(invite)`
unfoldable pub delete_invite : UserInvite → Action (Unit {0})
delete_invite invite = do
  t ← tables
  put_tables (record t { invites = delete_where (λ i. i.id == invite.id) t.invites })

unfoldable pub delete_request : Option WaitlistRequest → Action (Unit {0})
delete_request none = pure tt
delete_request (some waiting) = do
  db ← public_tables
  put_public (record db { waitlist = delete_where (λ w. w.id == waiting.id) db.waitlist })

-- "Clean up WaitlistRequest in public schema if it exists", and the commit.
unfoldable pub clear_waitlist : Text → Action (Unit {0})
clear_waitlist email = do
  db ← public_tables
  waiting ← lift (scalar_one_or_none (select (λ w. w.email == email) db.waitlist))
  delete_request waiting
  commit

-- The changes, for an invitation that has not expired.
unfoldable pub accept_valid : Env → ℕ → ℕ → UserAcceptInvite → UserInvite → Action (Unit {0})
accept_valid env salt new_id request invite = do
  add_user (invited_user env salt new_id request invite)
  delete_invite invite
  clear_waitlist invite.email

unfoldable pub accept_found :
    Env → ℕ → ℕ → ℕ → UserAcceptInvite → Option UserInvite → Action (Unit {0})
accept_found env now salt new_id request none = raise_http 404 "Invitation not found"
accept_found env now salt new_id request (some invite) =
    if ltb invite.expires_at now
    then raise_http 400 "Invitation expired"
    else accept_valid env salt new_id request invite

unfoldable pub accept_invite : Env → ℕ → ℕ → ℕ → UserAcceptInvite → Action (Unit {0})
accept_invite env now salt new_id request = do
  t ← tables
  invite ← lift (scalar_one_or_none (select (λ i. i.token == request.token) t.invites))
  accept_found env now salt new_id request invite

pub record UserDirectCreate : Type 0 where
  pub name : String
  pub email : Text
  pub password : Text
  pub role : String

unfoldable pub create_unless : Env → ℕ → ℕ → UserDirectCreate → User → Option User → Action Text
create_unless env salt new_id request owner (some user) = raise_http 400 "User already exists"
create_unless env salt new_id request owner none = do
  add_user (record {
    id = new_id;
    email = request.email;
    password_hash = env.bcrypt.hash salt request.password;
    name = request.name;
    team_id = owner.team_id;
    role = request.role;
    is_active = true;
    enabled_modules = none;
    two_factor_enabled = false;
    two_factor_method = none;
    two_factor_secret = none;
    two_factor_otp_secret = none;
    two_factor_otp_expires_at = none;
  })
  commit
  pure (env.uuid.show new_id)

unfoldable pub create_user_direct : Env → ℕ → ℕ → UserDirectCreate → User → Action Text
create_user_direct env salt new_id request owner = do
  t ← tables
  existing ← lift (scalar_one_or_none (select (λ u. u.email == request.email) t.users))
  create_unless env salt new_id request owner existing
