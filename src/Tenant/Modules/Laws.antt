-- ===== src/Tenant/Modules/Laws.antt =====
-- Which modules a user has, and which organization a schema name leads to.
use server_deck_backend.Base.{
  ◌≡◌, refl, sym, subst, ◌∙◌, Bool, true, false, ◌||◌, List, [], ◌∷◌, ◌++◌, Option, none, some,
  text_eq, nat_eq, string_eq, contains, select, ◌==◌, Option-cases, ◌↔◌, String, All, arith, ◌≢◌,
  Bool-cases, inl, inr,
}
use server_deck_backend.Base.Text.{Text, split_text, starts_with}
use server_deck_backend.Base.Outcome.{
  ok, ◌>>=◌, >>=-returned, ok-injective, scalar_one_or_none, scalar_one_or_none-none,
  scalar_one_or_none-some,
}
use server_deck_backend.Models.{User, Organization}
use server_deck_backend.Tenant.OrgKey.{individual}
use server_deck_backend.Tenant.Modules.{
  tenant_prefix, names_organization, org_key_of_schema, restrict, resolve_for,
  get_org_enabled_modules, get_user_resolved_modules, find_organization, modules_of,
  default_modules,
}

-- `sub in s`
abbrev pub occurs : Text → Text → Bool
occurs sub [] = false
occurs sub (c ∷ s) = starts_with (c ∷ s) sub || occurs sub s

split_text-none : (sep s : Text) → occurs sep s ≡ false → split_text sep 0 s ≡ s ∷ []
unfolding split_text
split_text-none sep [] h = refl
split_text-none sep (c ∷ s) h = ground (arith, split_text-none sep s)

split_text-prefix :
    (key : Text)
    → split_text tenant_prefix 0 (tenant_prefix ++ key) ≡ [] ∷ split_text tenant_prefix 0 key
unfolding split_text
split_text-prefix key = refl

-- The schema name "tenant_" ++ key of an organization leads back to its key, if the key does not
-- contain "tenant_" itself.
org_key_of_schema-tenant :
    (key : Text)
    → occurs tenant_prefix key ≡ false
    → org_key_of_schema (tenant_prefix ++ key) ≡ ok key
unfolding org_key_of_schema
org_key_of_schema-tenant key h =
    rw (split_text-prefix key, split_text-none tenant_prefix key h, org_key_of_schema)

names_organization-tenant :
    (key : Text) → key ≢ individual → names_organization (tenant_prefix ++ key) ≡ true
unfolding names_organization
names_organization-tenant key h = ground (arith, text_eq.same_iff key individual)

-- Which list of modules an organization has: its own, and the default list if there is no row with
-- the key or the row has none.
pub data IsEnabled (orgs : List Organization) (key : Text) : List String → Type 0 where
  no_organization : select (λ o. o.org_key == key) orgs ≡ [] → IsEnabled orgs key default_modules
  no_list :
      (org : Organization)
      → select (λ o. o.org_key == key) orgs ≡ org ∷ []
      → org.enabled_modules ≡ none
      → IsEnabled orgs key default_modules
  own_list :
      (org : Organization) (modules : List String)
      → select (λ o. o.org_key == key) orgs ≡ org ∷ []
      → org.enabled_modules ≡ some modules
      → IsEnabled orgs key modules

modules_of-IsEnabled :
    (orgs : List Organization) (key : Text) (found : Option Organization)
    → scalar_one_or_none (select (λ o. o.org_key == key) orgs) ≡ ok found
    → IsEnabled orgs key (modules_of found)
unfolding modules_of
modules_of-IsEnabled orgs key none h = no_organization (scalar_one_or_none-none _ h)
modules_of-IsEnabled orgs key (some org) h = elim (Option-cases org.enabled_modules) [
  | inl e ↦ rw e (no_list org (scalar_one_or_none-some _ h) e)
  | inr (modules, e) ↦ rw e (own_list org modules (scalar_one_or_none-some _ h) e)
]

found_modules :
    (orgs : List Organization) (key : Text) {modules : List String}
    → IsEnabled orgs key modules
    → (find_organization orgs key >>= λ org. ok (modules_of org)) ≡ ok modules
unfolding find_organization modules_of
found_modules orgs key (no_organization none_found) = rw none_found
found_modules orgs key (no_list org found empty) = rw (found, empty)
found_modules orgs key (own_list org modules found list) = rw (found, list)

-- For a key that is not "individual" and does not contain "tenant_", the enabled modules of the
-- schema "tenant_" ++ key are exactly the own list of the one organization with that key, or the
-- default modules if there is none or it has no list of its own_list.
pub get_org_enabled_modules-tenant :
    (orgs : List Organization) (key : Text) (modules : List String)
    → key ≢ individual
    → occurs tenant_prefix key ≡ false
    → (get_org_enabled_modules orgs (tenant_prefix ++ key) ≡ ok modules)
      ↔ IsEnabled orgs key modules
unfolding get_org_enabled_modules find_organization
get_org_enabled_modules-tenant orgs key modules other plain =
    rw (names_organization-tenant key other, org_key_of_schema-tenant key plain)
      (
        (λ h.
            let (found, row, last) =
              >>=-returned (find_organization orgs key) (λ org. ok (modules_of org)) h in
            subst (IsEnabled orgs key) (ok-injective last)
              (modules_of-IsEnabled orgs key found row)),
        found_modules orgs key,
      )

restrict-subset :
    (allowed modules : List String)
    → All (λ m. contains m allowed ≡ true) (restrict allowed modules)
unfolding restrict
restrict-subset allowed [] = tt
restrict-subset allowed (m ∷ ms) = elim (Bool-cases (contains m allowed)) [
  | inl h ↦ rw h (h, restrict-subset allowed ms)
  | inr h ↦ rw h (restrict-subset allowed ms)
]

-- Python's `in` on two lists of modules.
abbrev pub IsWithin : List String → List String → Type 0
IsWithin modules allowed = All (λ m. contains m allowed ≡ true) modules

contains_self :
    (modules allowed : List String)
    → ((m : String) → contains m modules ≡ true → contains m allowed ≡ true)
    → IsWithin modules allowed
contains_self [] allowed h = tt
contains_self (m ∷ ms) allowed h = (
  h m (ground (arith, string_eq.same_iff m m)),
  contains_self ms allowed (λ k hk. h k (ground arith)),
)

resolve_for-IsWithin :
    (user : User) (allowed : List String) → IsWithin (resolve_for user allowed) allowed
unfolding resolve_for
resolve_for-IsWithin user allowed = go user.enabled_modules
  where
    go :
        (own : Option (List String))
        → IsWithin (elim own [ none ↦ allowed | some modules ↦ restrict allowed modules ]) allowed
    go none = contains_self allowed allowed (λ m h. h)
    go (some modules) = restrict-subset allowed modules

resolve_for-unset :
    (user : User) (allowed : List String)
    → user.enabled_modules ≡ none
    → resolve_for user allowed ≡ allowed
unfolding resolve_for
resolve_for-unset user allowed unset = rw unset

by_organization :
    (orgs : List Organization) (user : User) (schema : Text)
    → user.role ≢ "support"
    → get_user_resolved_modules orgs user schema
      ≡ (get_org_enabled_modules orgs schema >>= λ allowed. ok (resolve_for user allowed))
unfolding get_user_resolved_modules get_org_enabled_modules
by_organization orgs user schema other = elim (Bool-cases (names_organization schema)) [
  | inl org ↦ ground (arith, string_eq.same_iff user.role "support")
  | inr no_org ↦ ground (arith, string_eq.same_iff user.role "support")
]

-- A user who is not "support" gets modules only of those that are enabled for the organization of
-- the schema; and all of these, if no list of the user's own is set.
pub get_user_resolved_modules-IsWithin :
    (orgs : List Organization) (user : User) (schema : Text) {modules : List String}
    → user.role ≢ "support"
    → get_user_resolved_modules orgs user schema ≡ ok modules
    → (allowed : List String) × (get_org_enabled_modules orgs schema ≡ ok allowed)
      × IsWithin modules allowed
      × (user.enabled_modules ≡ none → modules ≡ allowed)
get_user_resolved_modules-IsWithin orgs user schema other done =
    let (allowed, found, last) =
      >>=-returned (get_org_enabled_modules orgs schema) (λ ms. ok (resolve_for user ms))
        (sym (by_organization orgs user schema other) ∙ done) in
    let same = sym (ok-injective last) in
    (
      allowed,
      found,
      subst (λ ms. IsWithin ms allowed) (sym same) (resolve_for-IsWithin user allowed),
      λ unset. same ∙ resolve_for-unset user allowed unset,
    )
