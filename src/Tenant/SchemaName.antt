-- ===== src/Tenant/SchemaName.antt =====
-- `validate_schema_name` of Backend/app/database.py and the pattern `_SCHEMA_NAME_RE`.
pub mod Laws
use server_deck_backend.Base.{
  ℕ, zero, suc, ◌+◌, ◌-◌, ◌≡◌, refl, Bool, true, false, ◌&&◌, ◌||◌, not, List, [], ◌∷◌, arith, leb,
  ◌==◌, nat_eq, length, if◌then◌else◌,
}
use server_deck_backend.Base.Text.{Text, codes}
use server_deck_backend.Base.Outcome.{Outcome, ok, crash}

-- `[a-z_]`
unfoldable pub is_name_start : ℕ → Bool
is_name_start c = (leb b'a' c && leb c b'z') || c == b'_'

-- `[a-z0-9_]`
unfoldable pub is_name_char : ℕ → Bool
is_name_char c = (leb b'a' c && leb c b'z') || (leb b'0' c && leb c b'9') || c == b'_'

-- `[a-z0-9_]*$`: `$` also matches before a newline at the end of the text.
unfoldable pub matches_rest : Text → Bool
unfolding is_name_char
matches_rest [] = true
matches_rest (c ∷ []) = is_name_char c || c == 10
matches_rest (c ∷ s) = is_name_char c && matches_rest s

-- `_SCHEMA_NAME_RE.match(schema)`
unfoldable pub matches_schema_name : Text → Bool
unfolding is_name_start matches_rest
matches_schema_name [] = false
matches_schema_name (c ∷ s) = is_name_start c && matches_rest s

-- The argument is a text, so `isinstance(schema, str)` holds.
unfoldable pub validate_schema_name : Text → Outcome Text
unfolding matches_schema_name
validate_schema_name schema =
    if not (leb (length schema) 63) || not (matches_schema_name schema)
    then crash "ValueError"
    else ok schema

accepts_tenant : validate_schema_name (codes "tenant_acme1") ≡ ok (codes "tenant_acme1")
unfolding validate_schema_name
accepts_tenant = refl

rejects_injection : validate_schema_name (codes "x; drop schema public") ≡ crash "ValueError"
unfolding validate_schema_name
rejects_injection = refl
