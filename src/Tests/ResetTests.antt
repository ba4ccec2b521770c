-- ===== src/Tests/ResetTests.antt =====
-- A password that is reset with a token.
use server_deck_backend.Base.{◌≡◌, refl, [], ◌∷◌, some, text_eq, nat_eq}
use server_deck_backend.Base.Text.{codes}
use server_deck_backend.Base.Outcome.{ok, http}
use server_deck_backend.Models.{PasswordResetToken}
use server_deck_backend.Database.{Session}
use server_deck_backend.Tenant.SchemaName.{validate_schema_name}
use server_deck_backend.Hub.Client.{new_session}
use server_deck_backend.Auth.Login.{find_by_email}
use server_deck_backend.Auth.Reset.{reset_password}
use server_deck_backend.Auth.Reset.Laws.{reset_password-once, tables_with_hash}
use server_deck_backend.Tests.Samples.{env, ann, acme, acme_tables, database, session}

abbrev row : PasswordResetToken
row = record {
  email = codes "ann@acme.com";
  schema_name = acme;
  token = codes "t0ken";
  expires_at = 4600;
}

abbrev asked : Session
asked = record session {
  committed = record database { reset_tokens = row ∷ [] };
  current = record database { reset_tokens = row ∷ [] };
}

reset_password-once_example :
    ((reset_password env 4600 0 (codes "t0ken") (codes "secret99") asked).0 ≡ ok tt)
    × ((reset_password env 4600 0 (codes "t0ken") (codes "secret99") asked).1.committed.tenants acme
        ≡ some (tables_with_hash env 0 (codes "secret99") ann acme_tables))
    × ((reset_password env 4600 1 (codes "t0ken") (codes "other") (
          new_session
            (reset_password env 4600 0 (codes "t0ken") (codes "secret99") asked).1.committed)).0
        ≡ http 400 "Invalid or expired reset token.")
unfolding validate_schema_name find_by_email
reset_password-once_example =
    reset_password-once env 4600 0 (codes "t0ken") (codes "secret99") asked row acme_tables ann refl
      refl refl refl refl refl 4600 1 (codes "other")
