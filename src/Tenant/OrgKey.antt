-- ===== src/Tenant/OrgKey.antt =====
-- `COMMON_DOMAINS`, `INDIVIDUAL_SCHEMA`, `is_personal_email` and `get_org_key_from_email` of
-- Backend/app/services/tenant.py. Email texts are ASCII.
pub mod Laws
use server_deck_backend.Base.{
  ◌≡◌, refl, Bool, true, false, ◌&&◌, ◌||◌, not, List, [], ◌∷◌, map, Option, none, some, ◌==◌,
  text_eq, nat_eq, contains, if◌then◌else◌, String,
}
use server_deck_backend.Base.Text.{Text, codes, strip, lower, split_char, part}

abbrev pub common_domains : List Text
common_domains = map codes (
    "gmail" ∷ "yahoo" ∷ "hotmail" ∷ "outlook" ∷ "icloud" ∷ "aol" ∷ "zoho" ∷ "protonmail" ∷ "proton"
    ∷ "mail" ∷ "live" ∷ "msn" ∷ "googlemail" ∷ "me" ∷ "mac" ∷ "ymail" ∷ "rocketmail" ∷ [])

abbrev pub individual_schema : Text
individual_schema = codes "tenant_individual"

abbrev pub individual : Text
individual = codes "individual"

-- `not email or "@" not in email`
unfoldable pub lacks_domain : Text → Bool
lacks_domain email = email == [] || not (contains b'@' email)

-- `email.split("@")[1].strip().lower().split(".")`: `none` is an IndexError.
unfoldable pub domain_labels : Text → Option (List Text)
domain_labels email = elim (part 1 (split_char b'@' email)) [
  | none ↦ none
  | some domain ↦ some (split_char b'.' (lower (strip domain)))
]

-- `key in COMMON_DOMAINS`
unfoldable pub is_common : Text → Bool
is_common key = contains key common_domains

-- What the two functions make of the labels: `len(parts) >= 2`.
unfoldable pub is_personal_domain : List Text → Bool
is_personal_domain (key ∷ next ∷ rest) = is_common key
is_personal_domain parts = false

unfoldable pub org_key_of_domain : List Text → Option Text
org_key_of_domain (key ∷ next ∷ rest) = if is_common key then some individual else some key
org_key_of_domain parts = none

-- The IndexError is impossible behind the test: `lacks_domain-part` of OrgKey/Laws.antt.
unfoldable pub is_personal_email : Text → Bool
is_personal_email email =
    if lacks_domain email
    then false
    else (elim (domain_labels email) [ none ↦ false | some parts ↦ is_personal_domain parts ])

unfoldable pub get_org_key_from_email : Text → Option Text
get_org_key_from_email email =
    if lacks_domain email
    then none
    else (elim (domain_labels email) [ none ↦ none | some parts ↦ org_key_of_domain parts ])

org_key_tests :
    (get_org_key_from_email (codes "ann@Acme.com") ≡ some (codes "acme"))
    × (get_org_key_from_email (codes "ann@gmail.com") ≡ some individual)
    × (get_org_key_from_email (codes "ann@localhost") ≡ none)
    × (get_org_key_from_email (codes "ann") ≡ none)
unfolding get_org_key_from_email lacks_domain domain_labels org_key_of_domain is_common split_char
    strip lower
org_key_tests = (refl, refl, refl, refl)
