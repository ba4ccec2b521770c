-- ===== src/Admin/Organizations.antt =====
-- The organizations of Backend/app/api/admin.py. `migrated` says whether `create_tenant_schema` and
-- `run_tenant_migrations`, which runs alembic, succeed.
use server_deck_backend.Base.{
  ℕ, Bool, true, false, ◌||◌, List, [], ◌∷◌, ◌++◌, String, ◌==◌, nat_eq, text_eq, Option, none,
  some, select, any, delete_where, update_where, if◌then◌else◌, map,
}
use server_deck_backend.Base.Text.{Text, codes, strip, lower}
use server_deck_backend.Base.Outcome.{ok, http, crash, scalar_one_or_none}
use server_deck_backend.Models.{User, Organization}
use server_deck_backend.Database.{
  Action, Database, Tables, ◌>>=◌, ◌>>◌, pure, lift, raise_http, commit, set_search_path,
  public_tables, put_public, send_mail, org_creation,
}
use server_deck_backend.Tenant.SchemaName.{validate_schema_name}
use server_deck_backend.Auth.Env.{Env}
use server_deck_backend.Users.{add_user}

-- `s.replace(" ", "_")`
unfoldable pub underscored : Text → Text
underscored = map (λ c. if c == b' ' then b'_' else c)

abbrev pub schema_of_org : Text → Text
schema_of_org org_key = codes "tenant_" ++ org_key

-- The columns domain, org_key and schema_name are unique.
abbrev pub clashes : Organization → Organization → Bool
clashes org o =
    o.domain == org.domain || (o.org_key == org.org_key || o.schema_name == org.schema_name)

unfoldable pub add_organization : Organization → Action (Unit {0})
add_organization org = do
  db ← public_tables
  (if any (clashes org) db.organizations
      then lift (crash "IntegrityError")
      else (do put_public (record db { organizations = org ∷ db.organizations }); commit))

abbrev pub no_tables : Tables
no_tables = record {
  users = [];
  invites = [];
  audit_logs = [];
  servers = [];
  folders = [];
  tickets = [];
  ticket_messages = [];
}

-- `CREATE SCHEMA IF NOT EXISTS` and `DROP SCHEMA IF EXISTS … CASCADE`.
abbrev pub with_schema : Text → Option Tables → Database → Database
with_schema schema (some t) db = db
with_schema schema none db = record db {
  tenants = λ name. if name == schema then some no_tables else db.tenants name;
}

abbrev pub without_schema : Text → Database → Database
without_schema schema db = record db {
  tenants = λ name. if name == schema then none else db.tenants name;
}

-- The schema is created and committed; if that or the migration fails, it is dropped again with
-- the organization's row, whether it is new or not.
unfoldable pub provision : Bool → String → Organization → Action (Unit {0})
provision true message org = do
  db ← public_tables
  put_public (with_schema org.schema_name (db.tenants org.schema_name) db)
  commit
provision false message org = do
  db ← public_tables
  put_public (
      without_schema org.schema_name
        (record db { organizations = delete_where (λ o. o.id == org.id) db.organizations }))
  commit
  raise_http 500 message

abbrev pub owner_user : ℕ → ℕ → Text → Text → String → User
owner_user new_id team_id email password_hash name = record {
  id = new_id;
  email = email;
  password_hash = password_hash;
  name = name;
  team_id = team_id;
  role = "owner";
  is_active = true;
  enabled_modules = none;
  two_factor_enabled = false;
  two_factor_method = none;
  two_factor_secret = none;
  two_factor_otp_secret = none;
  two_factor_otp_expires_at = none;
}

pub record OrgCreate : Type 0 where
  pub org_key : Text
  pub domain : Text
  pub admin_name : String
  pub admin_email : Text
  pub admin_password : Text

-- Organization, team and user get new ids.
pub record NewIds : Type 0 where
  pub org_id : ℕ
  pub team_id : ℕ
  pub user_id : ℕ

abbrev pub org_of : ℕ → Text → Text → Organization
org_of id org_key domain = record {
  id = id;
  domain = domain;
  org_key = org_key;
  schema_name = schema_of_org org_key;
  enabled_modules = none;
}

unfoldable pub create_owner : Env → ℕ → NewIds → OrgCreate → Organization → Action Organization
create_owner env salt ids request org = do
  set_search_path org.schema_name
  add_user (
      owner_user ids.user_id ids.team_id request.admin_email
        (env.bcrypt.hash salt request.admin_password) request.admin_name)
  commit
  send_mail (org_creation request.admin_email)
  pure org

unfoldable pub create_unless_taken :
    Bool
    → Env
    → ℕ
    → NewIds
    → OrgCreate
    → Organization
    → Option Organization
    → Option Organization
    → Action Organization
create_unless_taken migrated env salt ids request org (some taken) same_domain =
    raise_http 409 "Organization key already exists"
create_unless_taken migrated env salt ids request org none (some taken) =
    raise_http 409 "Domain already registered"
create_unless_taken migrated env salt ids request org none none = do
  add_organization org
  provision migrated "Failed to initialize organization schema. Please try again later." org
  create_owner env salt ids request org

unfoldable pub create_named :
    Bool → Env → ℕ → NewIds → OrgCreate → Organization → Action Organization
create_named migrated env salt ids request org = do
  db ← public_tables
  same_key ← lift (scalar_one_or_none (select (λ o. o.org_key == org.org_key) db.organizations))
  same_domain ← lift (scalar_one_or_none (select (λ o. o.domain == org.domain) db.organizations))
  create_unless_taken migrated env salt ids request org same_key same_domain

unfoldable pub create_organization : Bool → Env → ℕ → NewIds → OrgCreate → Action Organization
create_organization migrated env salt ids request =
    let org_key = underscored (lower (strip request.org_key)) in
    elim (validate_schema_name (schema_of_org org_key)) [
      | ok schema ↦
          create_named migrated env salt ids request
            (org_of ids.org_id org_key (lower (strip request.domain)))
      | http n d ↦ raise_http n d
      | crash e ↦
          raise_http 400 "org_key may only contain lowercase letters, digits, and underscores."
    ]

-- An id that is no UUID is an error of the driver.
unfoldable pub find_org : Env → Text → Action (Option Organization)
find_org env org_id = elim (env.uuid.parse org_id) [
  | none ↦ lift (crash "DBAPIError")
  | some id ↦ do
    db ← public_tables
    lift (scalar_one_or_none (select (λ o. o.id == id) db.organizations))
]

unfoldable pub delete_org : Option Organization → Action (Unit {0})
delete_org none = raise_http 404 "Organization not found"
delete_org (some org) = do
  schema ← lift (validate_schema_name org.schema_name)
  db ← public_tables
  put_public (
      without_schema schema
        (record db { organizations = delete_where (λ o. o.id == org.id) db.organizations }))
  commit

unfoldable pub delete_organization : Env → Text → Action (Unit {0})
delete_organization env org_id = do org ← find_org env org_id; delete_org org

unfoldable pub update_org : Option (List String) → Option Organization → Action Organization
update_org modules none = raise_http 404 "Organization not found"
update_org modules (some org) = do
  db ← public_tables
  put_public (record db {
    organizations =
        update_where (λ o. o.id == org.id) (λ o. record o { enabled_modules = modules })
          db.organizations;
  })
  commit
  pure (record org { enabled_modules = modules })

unfoldable pub update_organization_modules : Env → Text → Option (List String) → Action Organization
update_organization_modules env org_id modules = do
  org ← find_org env org_id
  update_org modules org
