-- ===== src/Tenant/Modules.antt =====
-- `get_user_resolved_modules` and `get_org_enabled_modules` of Backend/app/services/tenant.py.
pub mod Laws
use server_deck_backend.Base.{
  ℕ, ◌≡◌, refl, Bool, true, false, ◌&&◌, ◌||◌, not, List, [], ◌∷◌, ◌++◌, Option, none, some, ◌==◌,
  text_eq, nat_eq, string_eq, contains, if◌then◌else◌, String, select,
}
use server_deck_backend.Base.Text.{Text, codes, split_text, part, starts_with}
use server_deck_backend.Base.Outcome.{Outcome, ok, crash, ◌>>=◌, scalar_one_or_none}
use server_deck_backend.Models.{User, Organization}
use server_deck_backend.Tenant.OrgKey.{individual_schema}

abbrev pub default_modules : List String
default_modules =
    "dashboard" ∷ "servers" ∷ "tickets" ∷ "settings" ∷ "nginx" ∷ "pm2" ∷ "systemd" ∷ "automation"
    ∷ "firewall" ∷ "processes" ∷ "ssl" ∷ "ssh" ∷ "files" ∷ "luxegenie" ∷ "sql" ∷ []

abbrev pub tenant_prefix : Text
tenant_prefix = codes "tenant_"

-- `tenant_schema_name and tenant_schema_name.startswith("tenant_") and … != "tenant_individual"`;
-- None and the empty text are both false.
unfoldable pub names_organization : Text → Bool
names_organization schema = starts_with schema tenant_prefix && not (schema == individual_schema)

-- `tenant_schema_name.split("tenant_")[1]`
unfoldable pub org_key_of_schema : Text → Outcome Text
org_key_of_schema schema = elim (part 1 (split_text tenant_prefix 0 schema)) [
  | none ↦ crash "IndexError"
  | some key ↦ ok key
]

-- `select(Organization).where(Organization.org_key == org_key)`
unfoldable pub find_organization : List Organization → Text → Outcome (Option Organization)
find_organization orgs key = scalar_one_or_none (select (λ o. o.org_key == key) orgs)

-- `org.enabled_modules if (org and org.enabled_modules is not None) else DEFAULT_MODULES`
unfoldable pub modules_of : Option Organization → List String
modules_of none = default_modules
modules_of (some org) = elim org.enabled_modules [ none ↦ default_modules | some modules ↦ modules ]

unfoldable pub get_org_enabled_modules : List Organization → Text → Outcome (List String)
get_org_enabled_modules orgs schema =
    if names_organization schema
    then (do key ← org_key_of_schema schema; org ← find_organization orgs key; ok (modules_of org))
    else ok default_modules

-- `[m for m in user.enabled_modules if m in org_modules]`
unfoldable pub restrict : List String → List String → List String
restrict org_modules modules = select (λ m. contains m org_modules) modules

-- What the code does with the organization's modules.
unfoldable pub resolve_for : User → List String → List String
resolve_for user org_modules = elim user.enabled_modules [
  | none ↦ org_modules
  | some modules ↦ restrict org_modules modules
]

-- The function repeats the organization's lookup instead of calling `get_org_enabled_modules`.
unfoldable pub get_user_resolved_modules : List Organization → User → Text → Outcome (List String)
get_user_resolved_modules orgs user schema =
    if user.role == "support"
    then ok ("tickets" ∷ "settings" ∷ [])
    else if names_organization schema
    then (do
      key ← org_key_of_schema schema
      org ← find_organization orgs key
      ok (resolve_for user (modules_of org)))
    else ok (resolve_for user default_modules)
