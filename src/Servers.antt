-- ===== src/Servers.antt =====
-- The servers of a team: Backend/app/api/servers.py. The caller has passed `get_current_user` and
-- `require_module("servers")`. `schema` is the value of `tenant_schema`, and `token` what
-- `secrets.token_urlsafe(32)` returns. Rows stand newest first, as the listing orders them.
pub mod Laws
pub mod Agents
use server_deck_backend.Base.{
  ℕ, Bool, true, false, ◌&&◌, ◌||◌, not, List, [], ◌∷◌, ◌==◌, nat_eq, text_eq, Option, none, some,
  select, any, if◌then◌else◌, update_where, delete_where,
}
use server_deck_backend.Base.Text.{Text, codes}
use server_deck_backend.Base.Outcome.{scalar_one_or_none, crash}
use server_deck_backend.Models.{User, Server, ServerFolder, AgentTokenMapping, AuditLog}
use server_deck_backend.Database.{
  Action, ◌>>=◌, ◌>>◌, pure, lift, raise_http, commit, tables, put_tables, public_tables,
  put_public, Tables,
}
use server_deck_backend.Auth.Env.{Env}
use server_deck_backend.Auth.Login.{record_audit}
use server_deck_backend.Folders.{has_folder}

unfoldable pub list_servers : User → Action (List Server)
list_servers user = do t ← tables; pure (select (λ s. s.team_id == user.team_id) t.servers)

-- The row is new: "agent_token" is unique, and "folder_id" a foreign key.
unfoldable pub add_server : Server → Action (Unit {0})
add_server server = do
  t ← tables
  if any (λ s. s.agent_token == server.agent_token) t.servers
        || not (has_folder server.folder_id t.folders)
      then lift (crash "IntegrityError")
      else put_tables (record t { servers = server ∷ t.servers })

-- "agent_token" is the primary key of the mapping.
unfoldable pub add_mapping : AgentTokenMapping → Action (Unit {0})
add_mapping mapping = do
  db ← public_tables
  if any (λ m. m.agent_token == mapping.agent_token) db.agent_tokens
      then lift (crash "IntegrityError")
      else put_public (record db { agent_tokens = mapping ∷ db.agent_tokens })

abbrev pub new_server : ℕ → Text → Option ℕ → User → Server
new_server new_id token folder_id user = record {
  id = new_id;
  team_id = user.team_id;
  folder_id = folder_id;
  agent_token = token;
  is_online = false;
}

unfoldable pub create_server : ℕ → Text → Text → Option ℕ → User → Action Server
create_server new_id token schema folder_id user = do
  add_server (new_server new_id token folder_id user)
  add_mapping (record { agent_token = token; schema_name = schema })
  record_audit user.id (some new_id) (codes "server.create")
  commit
  pure (new_server new_id token folder_id user)

-- The caller's server: a text that is no UUID is an error of the driver.
unfoldable pub find_server : Env → Text → User → Action (Option Server)
find_server env server_id user = elim (env.uuid.parse server_id) [
  | none ↦ lift (crash "DBAPIError")
  | some id ↦ do
    t ← tables
    lift (scalar_one_or_none (select (λ s. s.id == id && s.team_id == user.team_id) t.servers))
]

unfoldable pub server_or_404 : Option Server → Action Server
server_or_404 none = raise_http 404 "Server not found"
server_or_404 (some server) = pure server

unfoldable pub get_server : Env → Text → User → Action Server
get_server env server_id user = do found ← find_server env server_id user; server_or_404 found

-- The folder of a move: an empty text is none, and another text has to be a UUID.
unfoldable pub folder_of : Env → Option Text → Action (Option ℕ)
folder_of env none = pure none
folder_of env (some []) = pure none
folder_of env (some (c ∷ cs)) = elim (env.uuid.parse (c ∷ cs)) [
  | none ↦ lift (crash "DBAPIError")
  | some id ↦ pure (some id)
]

unfoldable pub move_server : Env → Text → Option Text → User → Action (Unit {0})
move_server env server_id folder_id user = do
  server ← get_server env server_id user
  folder ← folder_of env folder_id
  t ← tables
  if has_folder folder t.folders
      then put_tables (record t {
        servers =
            update_where (λ s. s.id == server.id) (λ s. record s { folder_id = folder }) t.servers;
      })
      else lift (crash "IntegrityError")
  commit

-- "Delete token mapping from public schema"
unfoldable pub delete_mapping : Text → Action (Unit {0})
delete_mapping token = do
  db ← public_tables
  put_public
      (record db { agent_tokens = delete_where (λ m. m.agent_token == token) db.agent_tokens })

-- What is left of the tables: the audit log's entries of the server, the one of the deletion among
-- them, lose their reference.
abbrev pub without_server : User → Server → Tables → Tables
without_server user server t = record t {
  servers = delete_where (λ s. s.id == server.id) t.servers;
  audit_logs =
      record { user_id = user.id; server_id = none; action = codes "server.delete" }
      ∷ update_where (λ l. elim l.server_id [ none ↦ false | some id ↦ id == server.id ])
          (λ l. record l { server_id = none }) t.audit_logs;
}

-- `await db.delete(server)`, the second entry of the audit log and the commit. `alerting` says
-- whether an alert rule or record refers to the server: their column "server_id" may not be NULL,
-- which is what the relationship sets it to.
unfoldable pub delete_row : Bool → User → Server → Action (Unit {0})
delete_row alerting user server = do
  t ← tables
  if alerting then lift (crash "IntegrityError") else put_tables (without_server user server t)
  commit

-- The server that `agent.uninstall` is sent to. `connected` says which servers have an agent.
unfoldable pub told_to_uninstall : Env → (Text → Bool) → Server → List Text
told_to_uninstall env connected server =
    if server.is_online && connected (env.uuid.show server.id)
    then env.uuid.show server.id ∷ []
    else []

unfoldable pub delete_server : Env → (Text → Bool) → Bool → Text → User → Action (List Text)
delete_server env connected alerting server_id user = do
  server ← get_server env server_id user
  record_audit user.id (some server.id) (codes "server.delete")
  delete_mapping server.agent_token
  delete_row alerting user server
  pure (told_to_uninstall env connected server)
