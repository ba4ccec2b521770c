-- ===== src/Admin/Approve.antt =====
-- `approve_waitlist` of Backend/app/api/admin.py. `title` is the name that is made of an address,
-- `hex4` and `hex2` what `secrets.token_hex` and `random` what `secrets.token_urlsafe` draws.
use server_deck_backend.Base.{
  true, false, any, ℕ, ◌+◌, ◌*◌, Bool, false, ◌&&◌, ◌||◌, [], ◌∷◌, ◌++◌, String, ◌==◌, nat_eq,
  string_eq, text_eq, Option, none, some, select, update_where, if◌then◌else◌, leb,
}
use server_deck_backend.Base.Text.{Text, codes, strip, lower, split_char, part}
use server_deck_backend.Base.Outcome.{crash, scalar_one_or_none}
use server_deck_backend.Models.{User, UserInvite, Organization, WaitlistRequest}
use server_deck_backend.Database.{
  Action, Tables, ◌>>=◌, ◌>>◌, pure, lift, raise_http, commit, set_search_path, tables, put_tables,
  public_tables, put_public, send_mail, org_creation, access_approved, invitation,
}
use server_deck_backend.Tenant.OrgKey.{individual_schema}
use server_deck_backend.Auth.Env.{Env}
use server_deck_backend.Auth.Login.{find_by_email}
use server_deck_backend.Users.{add_user, invite_token}
use server_deck_backend.Admin.Organizations.{
  underscored, org_of, add_organization, provision, with_schema, owner_user, NewIds,
}
use server_deck_backend.Admin.Waitlist.{public_schema, find_request, close_request}

-- `re.sub(r"[^a-z0-9_]", "", …)`
abbrev key_char : ℕ → Bool
key_char c = (leb b'a' c && leb c b'z') || ((leb b'0' c && leb c b'9') || c == b'_')

unfoldable pub key_of_name : Text → Text
key_of_name org_name = select key_char (underscored (lower org_name))

-- What is drawn when a request is approved.
pub record Drawn : Type 0 where
  pub ids : NewIds
  pub hex4 : Text
  pub hex2 : Text
  pub random : Text
  pub password_hash : Text

abbrev pub named_key : Drawn → Text → Text
named_key drawn [] = codes "org_" ++ drawn.hex4
named_key drawn (c ∷ cs) = c ∷ cs

abbrev pub free_key : Drawn → Text → Option Organization → Text
free_key drawn org_key none = org_key
free_key drawn org_key (some existing) = org_key ++ b'_' ∷ drawn.hex2

-- Texts that are missing or empty are false.
abbrev pub given : String → Option String → String
given default none = default
given default (some value) = if value == "" then default else value

abbrev pub given_text : Text → Option Text → Text
given_text default none = default
given_text default (some []) = default
given_text default (some (c ∷ cs)) = c ∷ cs

unfoldable pub approve_as :
    Bool → Drawn → String → WaitlistRequest → Organization → Action (Option Text)
approve_as migrated drawn name request org = do
  add_organization org
  provision migrated "Failed to initialize organization schema." org
  set_search_path org.schema_name
  add_user (
      owner_user drawn.ids.user_id drawn.ids.team_id request.email
        (given_text drawn.password_hash request.password_hash) name)
  close_request request
  send_mail (org_creation request.email)
  pure none

unfoldable pub approve_organization :
    Bool → Drawn → String → Text → WaitlistRequest → Option Text → Action (Option Text)
approve_organization migrated drawn name org_name request none = lift (crash "IndexError")
approve_organization migrated drawn name org_name request (some host) = do
  db ← public_tables
  existing ← lift (
      scalar_one_or_none (
        select
          (λ o.
            o.org_key == named_key drawn (key_of_name org_name) || o.domain == lower (strip host))
          db.organizations))
  approve_as migrated drawn name request (
      org_of drawn.ids.org_id (free_key drawn (named_key drawn (key_of_name org_name)) existing)
        (lower (strip host)))

-- `ensure_individual_schema_exists`, whose flag only saves a query.
unfoldable pub ensure_in : Bool → Option Tables → Action (Unit {0})
ensure_in migrated (some t) = pure tt
ensure_in true none = do
  db ← public_tables
  put_public (with_schema individual_schema none db)
  commit
ensure_in false none = lift (crash "Exception")

unfoldable pub ensure_individual : Bool → Action (Unit {0})
ensure_individual migrated = do
  db ← public_tables
  ensure_in migrated (db.tenants individual_schema)

unfoldable pub provision_personal :
    Drawn → String → WaitlistRequest → Text → Option User → Action (Option Text)
provision_personal drawn name request password_hash (some user) = do
  close_request request
  raise_http 400 "User already exists"
provision_personal drawn name request password_hash none = do
  add_user (owner_user drawn.ids.user_id drawn.ids.team_id request.email password_hash name)
  close_request request
  send_mail (access_approved request.email)
  pure none

-- The pending invitation, prolonged or new, is written by the commit, after the path was switched:
-- it refers to a team that is in the other schema.
unfoldable pub flush_invite : ℕ → Option UserInvite → Action (Unit {0})
flush_invite now none = do t ← tables; lift (crash "IntegrityError")
flush_invite now (some invite) = do
  t ← tables
  (if any (λ i. i.id == invite.id) t.invites
      then put_tables (record t {
        invites =
            update_where (λ i. i.id == invite.id) (λ i. record i { expires_at = now + 7 * 86400 })
              t.invites;
      })
      else lift (crash "StaleDataError"))

abbrev token_for : Text → Option UserInvite → Text
token_for random none = invite_token random (codes "individual")
token_for random (some invite) = invite.token

unfoldable pub invite_personal : ℕ → Drawn → WaitlistRequest → Option User → Action (Option Text)
invite_personal now drawn request (some user) = do
  close_request request
  raise_http 400 "User already exists"
invite_personal now drawn request none = do
  t ← tables
  invite ← lift (scalar_one_or_none (select (λ i. i.email == request.email) t.invites))
  set_search_path public_schema
  flush_invite now invite
  commit
  send_mail (invitation request.email (token_for drawn.random invite))
  pure (some (token_for drawn.random invite))

unfoldable pub approve_personal :
    ℕ → Bool → Drawn → String → WaitlistRequest → Option Text → Action (Option Text)
approve_personal now migrated drawn name request password_hash = do
  ensure_individual migrated
  set_search_path individual_schema
  t ← tables
  user ← lift (find_by_email request.email t.users)
  (elim password_hash [
    | some hash ↦ provision_personal drawn name request hash user
    | none ↦ invite_personal now drawn request user
  ])

abbrev pub is_type : String → Option String → Bool
is_type type none = false
is_type type (some t) = t == type

abbrev filled : Option Text → Option Text
filled none = none
filled (some []) = none
filled (some (c ∷ cs)) = some (c ∷ cs)

-- A personal request with a password is provisioned at once, another gets an invitation.
abbrev pub direct_hash : WaitlistRequest → Option Text
direct_hash request =
    if is_type "personal" request.request_type then filled request.password_hash else none

unfoldable pub approve_found :
    ℕ
    → Bool
    → Drawn
    → (Text → String)
    → (String → Text)
    → Option WaitlistRequest
    → Action (Option Text)
approve_found now migrated drawn title default_org none =
    raise_http 404 "Waitlist request not found"
approve_found now migrated drawn title default_org (some request) =
    let name = given (title request.email) request.name in
    if is_type "organization" request.request_type
    then approve_organization migrated drawn name (given_text (default_org name) request.org_name)
        request (part 1 (split_char b'@' request.email))
    else approve_personal now migrated drawn name request (direct_hash request)

-- The token of the invitation, if one was made. `default_org name` is `f"{name}'s Org"`.
unfoldable pub approve_waitlist :
    Env → ℕ → Bool → Drawn → (Text → String) → (String → Text) → Text → Action (Option Text)
approve_waitlist env now migrated drawn title default_org request_id = do
  set_search_path public_schema
  request ← find_request env request_id
  approve_found now migrated drawn title default_org request
