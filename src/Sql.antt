-- ===== src/Sql.antt =====
-- The SQL explorer: Backend/app/api/sql.py. Every endpoint depends on `get_current_user` and then
-- passes its parameters on; `send` is what `send_command_to_agent` comes to for a server's id, an
-- action and parameters, and `generate` what the language model answers. `D` is the data of an
-- agent's response.
pub mod Laws
use server_deck_backend.Base.{
  ℕ, Bool, true, false, not, ◌&&◌, List, [], ◌∷◌, ◌++◌, String, ◌==◌, text_eq, Option, none, some,
  if◌then◌else◌, length, ◌-◌,
}
use server_deck_backend.Base.Text.{Text, codes, strip, starts_with, drop}
use server_deck_backend.Base.Outcome.{Outcome, ok, http, crash, ◌>>=◌, ◌>>◌}
use server_deck_backend.Models.{User}
use server_deck_backend.Auth.Env.{Env}
use server_deck_backend.Auth.CurrentUser.{get_current_user}

pub record ConnectionParams : Type 0 where
  pub engine : Text
  pub database : Option Text
  pub path : Option Text
  pub user : Option Text
  pub password : Option Text
  pub host : Option Text
  pub port : Option ℕ

-- `conn.model_dump(exclude_none=True)`, with the key "sql" where one is added: a missing value is
-- a missing key.
pub record AgentParams : Type 0 where
  pub conn : ConnectionParams
  pub sql : Option Text

pub data AgentResult (D : Type 0) : Type 0 where
  connection_error : String → AgentResult D
  timeout_error : String → AgentResult D
  -- Another exception, such as that of a broken websocket.
  broken : String → AgentResult D
  -- A response with the status "error", and any other.
  agent_error : String → AgentResult D
  response : D → AgentResult D

unfoldable pub agent_data : {D : Type 0} → AgentResult D → Outcome D
agent_data (connection_error e) = http 503 e
agent_data (timeout_error e) = http 504 e
agent_data (broken e) = crash e
agent_data (agent_error e) = http 400 e
agent_data (response data_) = ok data_

pub data QueryResponse (D : Type 0) : Type 0 where
  failed : Text → String → QueryResponse D
  answered : Text → D → QueryResponse D

-- As `agent_data`, but an error of the agent is shown with the query.
unfoldable pub query_data : {D : Type 0} → Text → AgentResult D → Outcome (QueryResponse D)
query_data sql (connection_error e) = http 503 e
query_data sql (timeout_error e) = http 504 e
query_data sql (broken e) = crash e
query_data sql (agent_error e) = ok (failed sql e)
query_data sql (response data_) = ok (answered sql data_)

abbrev fence : Text
fence = codes "```"

-- `sql[6:]`, `sql[3:]`
unfoldable pub open_fence : Text → Text
open_fence sql =
    if starts_with sql (codes "```sql")
    then drop 6 sql
    else if starts_with sql fence
    then drop 3 sql
    else sql

-- `sql.endswith("```")` and `sql[:-3]`
unfoldable pub close_fence : Text → Text
close_fence [] = []
close_fence (c ∷ sql) = let rest = close_fence sql in if (c ∷ sql) == fence then [] else c ∷ rest

unfoldable pub unfenced : Text → Text
unfenced sql = strip (close_fence (open_fence (strip sql)))

-- `_nl_to_sql` without its prompt: none is a missing key of the settings.
unfoldable pub nl_to_sql :
    Option (Text → ConnectionParams → Outcome Text) → Text → ConnectionParams → Outcome Text
nl_to_sql none question conn = http 500 "Groq API key not configured"
nl_to_sql (some generate) question conn = do sql ← generate question conn; ok (unfenced sql)

module _ {D : Type 0} (env : Env) (send : Text → Text → AgentParams → AgentResult D) (now : ℕ)
    (users : List User) (token : Text) where
  unfoldable pub call_agent : Text → Text → AgentParams → Outcome D
  call_agent server_id action params = do
    user ← get_current_user env now users token
    agent_data (send server_id action params)

  unfoldable pub list_databases : Text → ConnectionParams → Outcome D
  list_databases server_id conn =
      call_agent server_id (codes "sql.list_databases") (record { conn = conn; sql = none })

  unfoldable pub get_schema : Text → ConnectionParams → Outcome D
  get_schema server_id conn =
      call_agent server_id (codes "sql.get_schema") (record { conn = conn; sql = none })

  unfoldable pub execute_sql : Text → ConnectionParams → Text → Outcome D
  execute_sql server_id conn sql =
      call_agent server_id (codes "sql.execute") (record { conn = conn; sql = some sql })

  unfoldable pub test_connection : Text → ConnectionParams → Outcome D
  test_connection server_id conn =
      call_agent server_id (codes "sql.test_connection") (record { conn = conn; sql = none })

  unfoldable pub natural_language_query :
      Option (Text → ConnectionParams → Outcome Text)
      → Text
      → ConnectionParams
      → Text
      → Outcome (QueryResponse D)
  natural_language_query generate server_id conn question = do
    user ← get_current_user env now users token
    (if strip question == [] then http 400 "Question cannot be empty" else (do
      sql ← nl_to_sql generate question conn
      query_data sql
          (send server_id (codes "sql.execute") (record { conn = conn; sql = some sql }))))
