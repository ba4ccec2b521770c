-- ===== src/Tenant/Resolve/Laws.antt =====
-- What a request can make `resolve_tenant` choose.
use server_deck_backend.Base.{
  ℕ, ◌≡◌, true, false, [], ◌∷◌, ◌++◌, Option, some, text_eq, nat_eq, contains, arith,
}
use server_deck_backend.Base.Text.{Text, codes, strip}
use server_deck_backend.Base.Text.Laws.{split_char-append, split_char-none}
use server_deck_backend.Base.Outcome.{ok}
use server_deck_backend.Tenant.SchemaName.{validate_schema_name}
use server_deck_backend.Tenant.Modules.{tenant_prefix}
use server_deck_backend.Auth.Env.{Env}
use server_deck_backend.Tenant.Resolve.{
  Body, request, schema_of_invite, schema_of_parts, schema_of_token, schema_or, schema_of, checked,
  resolve_tenant, token_of,
}

schema_of_invite-colon :
    (value key : Text)
    → contains b':' value ≡ false
    → contains b':' key ≡ false
    → schema_of_invite (value ++ b':' ∷ key) ≡ tenant_prefix ++ key
unfolding schema_of_invite schema_of_parts
schema_of_invite-colon value key v k =
    rw (split_char-append b':' value key v, split_char-none b':' key k)

contains-middle : (c : ℕ) (s t : Text) → contains c (s ++ c ∷ t) ≡ true
contains-middle c [] t = ground (arith)
contains-middle c (x ∷ s) t = ground (arith, contains-middle c s t)

schema_of_token-colon :
    (env : Env) (now : ℕ) (c : ℕ) (value key : Text)
    → strip (c ∷ value ++ b':' ∷ key) ≡ c ∷ value ++ b':' ∷ key
    → contains b':' (c ∷ value) ≡ false
    → contains b':' key ≡ false
    → schema_of_token env now (c ∷ value ++ b':' ∷ key) ≡ tenant_prefix ++ key
unfolding schema_of_token
schema_of_token-colon env now c value key stripped v k =
    rw (stripped, schema_of_token, contains-middle b':' (c ∷ value) key)
      (schema_of_invite-colon (c ∷ value) key v k)

-- Any text with one colon that is sent as a bearer token puts the request into the tenant named
-- behind the colon, whatever the secret, the time, the path and the body are, provided that the name
-- is a schema name and that the text has no white space around it.
pub resolve_tenant-unsigned :
    (env : Env) (now : ℕ) (c : ℕ) (value key : Text) (param : Option Text) (path : Text)
    (body : Option Body)
    → strip (c ∷ value ++ b':' ∷ key) ≡ c ∷ value ++ b':' ∷ key
    → contains b':' (c ∷ value) ≡ false
    → contains b':' key ≡ false
    → validate_schema_name (tenant_prefix ++ key) ≡ ok (tenant_prefix ++ key)
    → resolve_tenant env now (request (codes "Bearer " ++ c ∷ value ++ b':' ∷ key) param path body)
      ≡ some (tenant_prefix ++ key)
unfolding resolve_tenant schema_of token_of checked schema_or
resolve_tenant-unsigned env now c value key param path body stripped v k valid =
    rw (schema_of_token-colon env now c value key stripped v k, checked, valid)
