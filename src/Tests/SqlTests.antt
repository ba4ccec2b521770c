-- ===== src/Tests/SqlTests.antt =====
-- Ann of acme and Zoe of another tenant, with the numbers of a server of acme.
use server_deck_backend.Base.{ℕ, ◌≡◌, refl, false, List, [], ◌∷◌, none, some}
use server_deck_backend.Base.Text.{Text, codes}
use server_deck_backend.Models.{User}
use server_deck_backend.Auth.Tokens.{create_access_token}
use server_deck_backend.Auth.CurrentUser.Laws.{get_current_user-access_token}
use server_deck_backend.Sql.{ConnectionParams, AgentParams, AgentResult, response, execute_sql}
use server_deck_backend.Sql.Laws.{execute_sql-any_caller}
use server_deck_backend.Tests.Samples.{env, ann, acme}

abbrev zoe : User
zoe = record ann { id = 99; team_id = 5; email = codes "zoe@zoo.com" }

abbrev zoo : Text
zoo = codes "tenant_zoo"

abbrev rows : Text → Text → AgentParams → AgentResult (List ℕ)
rows server_id action params = response (1 ∷ 2 ∷ [])

abbrev postgres : ConnectionParams
postgres = record {
  engine = codes "postgres";
  database = some (codes "app");
  path = none;
  user = none;
  password = none;
  host = none;
  port = none;
}

execute_sql-any_caller_example :
    execute_sql env rows 1020
      (zoe ∷ [])
      (create_access_token env zoe zoo false 1010)
      (21 ∷ [])
      postgres
      (codes "SELECT 1")
    ≡ execute_sql env rows 1010
        (ann ∷ [])
        (create_access_token env ann acme false 1000)
        (21 ∷ [])
        postgres
        (codes "SELECT 1")
execute_sql-any_caller_example =
    execute_sql-any_caller env rows 1010 1020 (ann ∷ []) (zoe ∷ [])
      (create_access_token env ann acme false 1000) (create_access_token env zoe zoo false 1010) ann
      zoe (21 ∷ []) postgres (codes "SELECT 1")
      (get_current_user-access_token env 1010 1000 ann (ann ∷ []) acme false refl)
      (get_current_user-access_token env 1020 1010 zoe (zoe ∷ []) zoo false refl)
