-- ===== src/Users/Members.antt =====
-- Deletion, passwords and modules: `delete_user`, `change_password` and `update_user_modules` of
-- Backend/app/api/users.py. The caller has passed `get_current_user` or `require_admin`.
use server_deck_backend.Base.{
  ℕ, not, ◌&&◌, List, String, ◌==◌, nat_eq, text_eq, string_eq, if◌then◌else◌, Option, none, some,
  select, delete_where, update_where, any, Bool, false,
}
use server_deck_backend.Base.Text.{Text}
use server_deck_backend.Base.Outcome.{crash, scalar_one_or_none}
use server_deck_backend.Models.{User}
use server_deck_backend.Database.{
  Action, ◌>>=◌, ◌>>◌, lift, raise_http, commit, tables, put_tables, public_tables, Tables,
}
use server_deck_backend.Tenant.Modules.{
  get_org_enabled_modules, get_user_resolved_modules, restrict,
}
use server_deck_backend.Auth.Env.{Env}
use server_deck_backend.Auth.Login.{save_user}

-- The row of `user_id` in the team of the caller: a text that is no UUID is an error of the driver.
unfoldable pub find_member : Env → Text → ℕ → Action (Option User)
find_member env user_id team_id = elim (env.uuid.parse user_id) [
  | none ↦ lift (crash "DBAPIError")
  | some id ↦ do
    t ← tables
    lift (scalar_one_or_none (select (λ u. u.id == id && u.team_id == team_id) t.users))
]

-- What refers to a user is set to null by the tickets that are assigned to it and by the messages it
-- sent, and goes along in the audit log.
abbrev is_id : ℕ → Option ℕ → Bool
is_id id none = false
is_id id (some other) = other == id

abbrev pub without_user : User → Tables → Tables
without_user user t = record t {
  users = delete_where (λ u. u.id == user.id) t.users;
  audit_logs = delete_where (λ l. l.user_id == user.id) t.audit_logs;
  tickets =
      update_where (λ k. is_id user.id k.assigned_to_id) (λ k. record k { assigned_to_id = none })
        t.tickets;
  ticket_messages =
      update_where (λ m. is_id user.id m.sender_id) (λ m. record m { sender_id = none })
        t.ticket_messages;
}

-- `await db.delete(user)` and the commit: the tickets that the user created have no other creator.
unfoldable pub delete_member : Option User → Action (Unit {0})
delete_member none = raise_http 404 "User not found"
delete_member (some user) = do
  t ← tables
  (if any (λ k. k.created_by_id == user.id) t.tickets
      then lift (crash "IntegrityError")
      else (do put_tables (without_user user t); commit))

unfoldable pub delete_user : Env → Text → User → Action (Unit {0})
delete_user env user_id admin =
    if env.uuid.show admin.id == user_id
    then raise_http 400 "Cannot delete your own account"
    else (do found ← find_member env user_id admin.team_id; delete_member found)

-- `change_password`
unfoldable pub change_password : Env → ℕ → Text → Text → User → Action (Unit {0})
change_password env salt current_password new_password user =
    if not (env.bcrypt.verify current_password user.password_hash)
    then raise_http 400 "Incorrect current password"
    else (do save_user (record user { password_hash = env.bcrypt.hash salt new_password }); commit)

-- The custom modules that are stored.
unfoldable pub custom_modules : Option (List String) → List String → Option (List String)
custom_modules none org_modules = none
custom_modules (some modules) org_modules = some (restrict org_modules modules)

unfoldable pub update_modules_of :
    Text → Option (List String) → User → Option User → Action (List String)
update_modules_of schema wanted admin none = raise_http 404 "User not found"
update_modules_of schema wanted admin (some target) =
    if target.role == "owner" && not (admin.role == "owner")
    then raise_http 403 "Only the team owner can modify owner modules"
    else (do
      db ← public_tables
      org_modules ← lift (get_org_enabled_modules db.organizations schema)
      let target' = record target { enabled_modules = custom_modules wanted org_modules }
      save_user target'
      commit
      lift (get_user_resolved_modules db.organizations target' schema))

-- `update_user_modules`: here a text that is no UUID is a ValueError.
unfoldable pub update_user_modules :
    Env → Text → Text → Option (List String) → User → Action (List String)
update_user_modules env schema user_id wanted admin = elim (env.uuid.parse user_id) [
  | none ↦ lift (crash "ValueError")
  | some id ↦ do
    t ← tables
    found ←
        lift (scalar_one_or_none (select (λ u. u.id == id && u.team_id == admin.team_id) t.users))
    update_modules_of schema wanted admin found
]
