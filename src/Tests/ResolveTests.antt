-- ===== src/Tests/ResolveTests.antt =====
-- Requests and the tenants that they reach.
use server_deck_backend.Base.{◌≡◌, refl, ◌++◌, [], ◌∷◌, none, some}
use server_deck_backend.Base.Text.{codes, strip, strip_left, split_char, lower}
use server_deck_backend.Tenant.SchemaName.{validate_schema_name}
use server_deck_backend.Tenant.Modules.{tenant_prefix}
use server_deck_backend.Tenant.OrgKey.{
  get_org_key_from_email, lacks_domain, domain_labels, org_key_of_domain, is_common,
}
use server_deck_backend.Tenant.Resolve.{
  request, resolve_tenant, schema_of, checked, schema_or, token_of, schema_of_token,
  schema_of_request, schema_of_body, schema_of_email, schema_of_key,
}
use server_deck_backend.Tenant.Resolve.Laws.{resolve_tenant-unsigned}
use server_deck_backend.Tests.Samples.{env, acme}

by_email :
    resolve_tenant env 0 (
      request [] none
        (codes "/api/auth/login")
        (some (record { token = none; email = some (codes "ann@acme.com") })))
    ≡ some acme
unfolding resolve_tenant schema_of checked schema_or token_of schema_of_token schema_of_request
    schema_of_body schema_of_email schema_of_key get_org_key_from_email lacks_domain domain_labels
    org_key_of_domain is_common split_char strip lower validate_schema_name
by_email = refl

resolve_tenant-unsigned_example :
    resolve_tenant env 5 (
      request (codes "Bearer " ++ codes "x" ++ b':' ∷ codes "acme") none (codes "/api/alerts") none)
    ≡ some (tenant_prefix ++ codes "acme")
unfolding strip strip_left validate_schema_name
resolve_tenant-unsigned_example =
    resolve_tenant-unsigned env 5 b'x' [] (codes "acme") none (codes "/api/alerts") none refl refl
      refl refl
