-- ===== src/Tests/TenantTests.antt =====
-- Tests of schema names, organization keys and modules.
use server_deck_backend.Base.{
  ◌≤◌, ◌≡◌, refl, ap, sym, Bool, true, false, Option, none, some, ◌==◌, text_eq, string_eq, List,
  [], ◌∷◌, ◌++◌, arith, length, ◌↔◌, ◌⊎◌, inl, inr, String, ◌≢◌, contains, if◌then◌else◌, eq_of_==,
}
use server_deck_backend.Base.Text.{Text, codes, is_space, lower_char}
use server_deck_backend.Base.Outcome.{ok}
use server_deck_backend.Tenant.SchemaName.{validate_schema_name}
use server_deck_backend.Tenant.SchemaName.Laws.{IsAccepted, validate_schema_name_iff}
use server_deck_backend.Tenant.OrgKey.{individual, get_org_key_from_email, is_personal_email}
use server_deck_backend.Tenant.OrgKey.Laws.{get_org_key-individual_iff, IsNamedIndividual}
use server_deck_backend.Tenant.Modules.{
  tenant_prefix, get_org_enabled_modules, get_user_resolved_modules, find_organization, modules_of,
  names_organization, org_key_of_schema, resolve_for, restrict,
}
use server_deck_backend.Tenant.Modules.Laws.{
  IsEnabled, get_org_enabled_modules-tenant, get_user_resolved_modules-IsWithin, IsWithin,
}
use server_deck_backend.Tests.Samples.{ann, acme, acme_org}

-- The pattern accepts a newline behind the name.
validate_schema_name_iff_example :
    (validate_schema_name (codes "tenant_a\n") ≡ ok (codes "tenant_a\n")) ↔ (
      (length (codes "tenant_a\n") ≤ 63)
      × IsAccepted (codes "tenant_a\n")
      × (codes "tenant_a\n" ≡ codes "tenant_a\n"))
validate_schema_name_iff_example =
    validate_schema_name_iff (codes "tenant_a\n") (codes "tenant_a\n")

get_org_key-individual_iff_example :
    (get_org_key_from_email (codes "eve@individual.com") ≡ some individual) ↔ (
      (is_personal_email (codes "eve@individual.com") ≡ true)
      ⊎ IsNamedIndividual (codes "eve@individual.com"))
get_org_key-individual_iff_example = get_org_key-individual_iff (codes "eve@individual.com")

acme_not_individual : codes "acme" ≢ individual
acme_not_individual e = cc e

get_org_enabled_modules-tenant_example :
    (get_org_enabled_modules (acme_org ∷ []) (tenant_prefix ++ codes "acme")
      ≡ ok ("nginx" ∷ "pm2" ∷ []))
    ↔ IsEnabled (acme_org ∷ []) (codes "acme") ("nginx" ∷ "pm2" ∷ [])
get_org_enabled_modules-tenant_example =
    get_org_enabled_modules-tenant (acme_org ∷ []) (codes "acme") ("nginx" ∷ "pm2" ∷ [])
      acme_not_individual refl

ann_modules : get_user_resolved_modules (acme_org ∷ []) ann acme ≡ ok ("nginx" ∷ [])
unfolding get_user_resolved_modules names_organization org_key_of_schema find_organization
    modules_of resolve_for restrict server_deck_backend.Base.Text.split_text
ann_modules = refl

ann_not_support : ann.role ≢ "support"
ann_not_support e = grind (arith, string_eq.same_iff ann.role "support")

get_user_resolved_modules-IsWithin_example :
    (allowed : List String) × (get_org_enabled_modules (acme_org ∷ []) acme ≡ ok allowed)
    × IsWithin ("nginx" ∷ []) allowed
    × (ann.enabled_modules ≡ none → ("nginx" ∷ []) ≡ allowed)
get_user_resolved_modules-IsWithin_example =
    get_user_resolved_modules-IsWithin (acme_org ∷ []) ann acme ann_not_support ann_modules
