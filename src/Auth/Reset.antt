-- ===== src/Auth/Reset.antt =====
-- `forgot_password` and `reset_password` of Backend/app/api/auth.py. `token` is what
-- `secrets.token_urlsafe(32)` returns.
pub mod Laws
use server_deck_backend.Base.{
  ℕ, ◌+◌, Bool, true, false, List, [], ◌∷◌, ◌==◌, nat_eq, text_eq, Option, none, some, select,
  delete_where, update_where, if◌then◌else◌, ltb,
}
use server_deck_backend.Base.Text.{Text, codes, strip, lower}
use server_deck_backend.Base.Outcome.{scalar_one_or_none}
use server_deck_backend.Models.{User, Organization, PasswordResetToken}
use server_deck_backend.Database.{
  Action, ◌>>=◌, ◌>>◌, pure, lift, raise_http, commit, tables, put_tables, public_tables,
  put_public, set_search_path, send_mail, password_reset, Tables, Database,
}
use server_deck_backend.Tenant.OrgKey.{get_org_key_from_email, individual, individual_schema}
use server_deck_backend.Tenant.Modules.{find_organization}
use server_deck_backend.Auth.Env.{Env}
use server_deck_backend.Auth.Login.{find_by_email, save_user}

abbrev pub public_schema : Text
public_schema = codes "public"

-- The new token takes the place of the others of the address.
abbrev pub with_reset_token : PasswordResetToken → Database → Database
with_reset_token row db = record db {
  reset_tokens = row ∷ delete_where (λ r. r.email == row.email) db.reset_tokens;
}

unfoldable pub send_reset : ℕ → Text → Text → Text → Option User → Action (Unit {0})
send_reset now token email schema none = pure tt
send_reset now token email schema (some user) = do
  set_search_path public_schema
  db ← public_tables
  put_public (
      with_reset_token
        (record { email = email; schema_name = schema; token = token; expires_at = now + 3600 }) db)
  commit
  send_mail (password_reset email token)

unfoldable pub forgot_in_schema : ℕ → Text → Text → Text → Action (Unit {0})
forgot_in_schema now token email schema = do
  set_search_path schema
  t ← tables
  user ← lift (find_by_email email t.users)
  send_reset now token email schema user

unfoldable pub forgot_in_org : ℕ → Text → Text → Option Organization → Action (Unit {0})
forgot_in_org now token email none = pure tt
forgot_in_org now token email (some org) = forgot_in_schema now token email org.schema_name

unfoldable pub forgot_by_key : ℕ → Text → Text → Option Text → Action (Unit {0})
forgot_by_key now token email none = pure tt
forgot_by_key now token email (some key) =
    if key == []
    then pure tt
    else if key == individual
    then forgot_in_schema now token email individual_schema
    else (do
      set_search_path public_schema
      db ← public_tables
      org ← lift (find_organization db.organizations key)
      forgot_in_org now token email org)

-- The response is always the same.
unfoldable pub forgot_password : ℕ → Text → Text → Action (Unit {0})
forgot_password now token email =
    forgot_by_key now token (lower (strip email)) (get_org_key_from_email (lower (strip email)))

abbrev pub invalid_token : Action (Unit {0})
invalid_token = raise_http 400 "Invalid or expired reset token."

-- `await db.delete(reset_token)` and the commit: the token is unique.
unfoldable pub spend_token : PasswordResetToken → Action (Unit {0})
spend_token row = do
  db ← public_tables
  put_public (record db { reset_tokens = delete_where (λ r. r.token == row.token) db.reset_tokens })
  commit

unfoldable pub reset_user : Env → ℕ → Text → PasswordResetToken → Option User → Action (Unit {0})
reset_user env salt new_password row none = do
  set_search_path public_schema
  spend_token row
  invalid_token
reset_user env salt new_password row (some user) = do
  save_user (record user { password_hash = env.bcrypt.hash salt new_password })
  set_search_path public_schema
  spend_token row

unfoldable pub reset_in_schema : Env → ℕ → Text → PasswordResetToken → Action (Unit {0})
reset_in_schema env salt new_password row = do
  set_search_path row.schema_name
  t ← tables
  user ← lift (find_by_email row.email t.users)
  reset_user env salt new_password row user

unfoldable pub reset_with : Env → ℕ → ℕ → Text → Option PasswordResetToken → Action (Unit {0})
reset_with env now salt new_password none = invalid_token
reset_with env now salt new_password (some row) =
    if ltb row.expires_at now
    then (do spend_token row; invalid_token)
    else reset_in_schema env salt new_password row

unfoldable pub reset_password : Env → ℕ → ℕ → Text → Text → Action (Unit {0})
reset_password env now salt token new_password = do
  set_search_path public_schema
  db ← public_tables
  row ← lift (scalar_one_or_none (select (λ r. r.token == token) db.reset_tokens))
  reset_with env now salt new_password row
