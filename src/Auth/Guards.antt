-- ===== src/Auth/Guards.antt =====
-- What the role and module checks of Backend/app/middleware/auth.py let through.
use server_deck_backend.Base.{
  ◌≡◌, sym, subst, ◌≢◌, true, not, String, ◌==◌, string_eq, if◌then◌else◌, List, [], ◌∷◌, contains,
  arith, Bool-cases, eq_of_==, inl, inr,
}
use server_deck_backend.Base.Text.{Text}
use server_deck_backend.Base.Outcome.{Outcome, ok, http, >>=-returned}
use server_deck_backend.Models.{User, Organization}
use server_deck_backend.Tenant.Modules.{get_user_resolved_modules, get_org_enabled_modules}
use server_deck_backend.Tenant.Modules.Laws.{IsWithin, get_user_resolved_modules-IsWithin}
use server_deck_backend.Auth.CurrentUser.{
  require_admin, require_owner, require_support, require_module,
}

-- Whoever passes as owner passes as admin, and whoever passes as admin passes as support; each
-- check returns the user that it was given, or answers 403.
pub role_hierarchy :
    (user : User)
    → (require_owner user ≡ ok user → require_admin user ≡ ok user)
      × (require_admin user ≡ ok user → require_support user ≡ ok user)
      × ((u : User) → require_support user ≡ ok u → (u ≡ user) × (user.role ≢ "member"))
unfolding require_owner require_admin require_support
role_hierarchy user = (λ h. ground arith, λ h. ground arith, λ u h. (ground arith, not_member u h))
  where
    refused : Outcome User → String → Outcome User
    refused answer r =
        if not (contains r ("owner" ∷ "admin" ∷ "support" ∷ [])) then answer else ok user

    not_member : (u : User) → require_support user ≡ ok u → user.role ≢ "member"
    not_member u h e = cc (
        subst
          (λ r. refused (http 403 "You do not have permission to access support features") r ≡ ok u)
          e h)

within_contains :
    (m : String) (modules allowed : List String)
    → IsWithin modules allowed
    → contains m modules ≡ true
    → contains m allowed ≡ true
within_contains m [] allowed h k = cc
within_contains m (n ∷ ns) allowed h k = elim (Bool-cases (m == n)) [
  | inl e ↦ subst (λ j. contains j allowed ≡ true) (sym (eq_of_== m n e)) h.0
  | inr e ↦ within_contains m ns allowed h.1 (ground arith)
]

-- A request gets past `require_module(name)` only if the module is enabled for the organization of
-- the schema, or if the user's role is "support".
require_module-enabled :
    (orgs : List Organization) (schema : Text) (name : String) (user : User) {u : User}
    → user.role ≢ "support"
    → require_module orgs schema name user ≡ ok u
    → (u ≡ user)
      × ((allowed : List String) × (get_org_enabled_modules orgs schema ≡ ok allowed)
          × (contains name allowed ≡ true))
unfolding require_module
require_module-enabled orgs schema name user {u} other h =
    let (modules, found, h1) = >>=-returned (get_user_resolved_modules orgs user schema) _ h in
    let (allowed, enabled, within, _) =
      get_user_resolved_modules-IsWithin orgs user schema other found in
    (ground arith, (allowed, enabled, within_contains name modules allowed within (ground arith)))
