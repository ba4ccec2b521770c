-- ===== src/Admin/Individuals.antt =====
-- The individual users: `create_individual_user`, `delete_individual_user` and
-- `update_individual_user_modules` of Backend/app/api/admin.py. `alerting` says whether an alert
-- rule or record refers to one of the servers of a team that is deleted.
use server_deck_backend.Base.{
  ℕ, ◌+◌, ◌*◌, Bool, true, false, not, ◌&&◌, List, ◌∷◌, String, ◌==◌, nat_eq, text_eq, Option, none,
  some, select, any, delete_where, update_where, if◌then◌else◌,
}
use server_deck_backend.Base.Text.{Text, codes}
use server_deck_backend.Base.Outcome.{Outcome, ok, http, crash, scalar_one_or_none}
use server_deck_backend.Models.{User, UserInvite, AuditLog}
use server_deck_backend.Database.{
  Action, Tables, ◌>>=◌, ◌>>◌, pure, lift, raise_http, commit, set_search_path, tables, put_tables,
  send_mail, invitation,
}
use server_deck_backend.Tenant.OrgKey.{individual_schema, is_personal_email}
use server_deck_backend.Auth.Env.{Env}
use server_deck_backend.Auth.Login.{find_by_email}
use server_deck_backend.Users.{invite_token}
use server_deck_backend.Admin.Approve.{ensure_individual}

-- `except HTTPException: raise`, and `except Exception` with the 500.
unfoldable pub hidden : {A : Type 0} → String → Outcome A → Outcome A
hidden message (ok a) = ok a
hidden message (http n d) = http n d
hidden message (crash e) = http 500 message

unfoldable pub guarded : {A : Type 0} → String → Action A → Action A
guarded message m s = let (r, s') = m s in (hidden message r, s')

abbrev pub individual_invite : ℕ → ℕ → ℕ → Text → Text → UserInvite
individual_invite now invite_id team_id random email = record {
  id = invite_id;
  email = email;
  role = "owner";
  team_id = team_id;
  token = invite_token random (codes "individual");
  expires_at = now + 7 * 86400;
}

unfoldable pub invite_new : UserInvite → Option User → Option UserInvite → Action Text
invite_new new (some user) existing = raise_http 409 "Email already registered"
invite_new new none (some existing) = raise_http 409 "Invite already sent to this email"
invite_new new none none = do
  t ← tables
  put_tables (record t { invites = new ∷ t.invites })
  commit
  send_mail (invitation new.email new.token)
  pure new.token

unfoldable pub invite_individual : Bool → UserInvite → Action Text
invite_individual migrated new = do
  ensure_individual migrated
  set_search_path individual_schema
  t ← tables
  user ← lift (find_by_email new.email t.users)
  invite ← lift (scalar_one_or_none (select (λ i. i.email == new.email) t.invites))
  invite_new new user invite

unfoldable pub create_individual_user : Bool → ℕ → ℕ → ℕ → Text → Text → Action Text
create_individual_user migrated now invite_id team_id random email =
    if not (is_personal_email email)
    then raise_http 400
        "Use the Organizations section to onboard users with business email domains."
    else guarded "Failed to create user"
        (invite_individual migrated (individual_invite now invite_id team_id random email))

-- The user with a text as id: a text that is no UUID is an error of the driver.
unfoldable pub find_individual : Env → Text → Action (Option User)
find_individual env user_id = elim (env.uuid.parse user_id) [
  | none ↦ lift (crash "DBAPIError")
  | some id ↦ do t ← tables; lift (scalar_one_or_none (select (λ u. u.id == id) t.users))
]

abbrev by_user_of : List User → ℕ → AuditLog → Bool
by_user_of users team_id l = any (λ u. u.team_id == team_id && u.id == l.user_id) users

-- What goes with a team: its users with their entries in the audit log, its servers, folders,
-- invitations and tickets with their messages.
abbrev pub without_team : ℕ → Tables → Tables
without_team team_id t = record {
  users = delete_where (λ u. u.team_id == team_id) t.users;
  invites = delete_where (λ i. i.team_id == team_id) t.invites;
  audit_logs = delete_where (by_user_of t.users team_id) t.audit_logs;
  servers = delete_where (λ v. v.team_id == team_id) t.servers;
  folders = delete_where (λ f. f.team_id == team_id) t.folders;
  tickets = delete_where (λ k. k.team_id == team_id) t.tickets;
  ticket_messages =
      delete_where (λ m. any (λ k. k.team_id == team_id && k.id == m.ticket_id) t.tickets)
        t.ticket_messages;
}

unfoldable pub delete_team_of : Bool → Option User → Action (Unit {0})
delete_team_of alerting none = raise_http 404 "User not found"
delete_team_of true (some user) = lift (crash "IntegrityError")
delete_team_of false (some user) = do t ← tables; put_tables (without_team user.team_id t); commit

unfoldable pub delete_individual : Bool → Env → Text → Action (Unit {0})
delete_individual alerting env user_id = do
  set_search_path individual_schema
  user ← find_individual env user_id
  delete_team_of alerting user

unfoldable pub delete_individual_user : Bool → Env → Text → Action (Unit {0})
delete_individual_user alerting env user_id =
    guarded "Failed to delete user" (delete_individual alerting env user_id)

unfoldable pub update_modules : Option (List String) → Option User → Action User
update_modules modules none = raise_http 404 "User not found"
update_modules modules (some user) = do
  t ← tables
  put_tables (record t {
    users =
        update_where (λ u. u.id == user.id) (λ u. record u { enabled_modules = modules }) t.users;
  })
  commit
  pure (record user { enabled_modules = modules })

-- `uuid.UUID(user_id)` comes first.
unfoldable pub update_individual_user_modules : Env → Text → Option (List String) → Action User
update_individual_user_modules env user_id modules = elim (env.uuid.parse user_id) [
  | none ↦ lift (crash "ValueError")
  | some id ↦ do
    set_search_path individual_schema
    t ← tables
    user ← lift (scalar_one_or_none (select (λ u. u.id == id) t.users))
    update_modules modules user
]
