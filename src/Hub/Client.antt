-- ===== src/Hub/Client.antt =====
-- What a browser may do to a server: `client_websocket`, `_authorize` and `_user_owns_server` of
-- Backend/app/ws/client_handler.py.
pub mod Laws
pub mod Modules
pub mod Commands
pub mod Messages
use server_deck_backend.Base.{
  ℕ, Bool, true, false, not, ◌&&◌, ◌||◌, List, [], ◌∷◌, String, ◌==◌, nat_eq, text_eq, string_eq,
  if◌then◌else◌, Option, none, some, select, contains, add,
}
use server_deck_backend.Base.Text.{Text, codes, starts_with}
use server_deck_backend.Base.Outcome.{Outcome, ok, http, crash, ◌>>=◌ as ◌>>=ᵒ◌, scalar_one_or_none}
use server_deck_backend.Models.{Server, User}
use server_deck_backend.Database.{
  Database, Session, Action, ◌>>=◌, ◌>>◌, pure, lift, set_search_path, tables, public_tables,
}
use server_deck_backend.Tenant.Modules.{get_user_resolved_modules}
use server_deck_backend.Auth.Env.{Env, Claims}
use server_deck_backend.Auth.Tokens.{decode_token}
use server_deck_backend.Auth.CurrentUser.{find_user}

pub record Connection : Type 0 where
  pub user_id : Text
  pub team_id : Option Text
  pub schema_name : Text
  pub is_platform_owner : Bool

-- A claim that is missing or empty is false.
abbrev pub is_given : Option Text → Bool
is_given none = false
is_given (some []) = false
is_given (some (c ∷ cs)) = true

abbrev pub text_of : Option Text → Text
text_of none = []
text_of (some s) = s

-- The connection of a payload: `none` is the JWTError.
unfoldable pub connection_of : Claims → Option Connection
connection_of payload =
    if not (is_given payload.sub) || not (is_given payload.tenant_schema)
    then none
    else if not payload.is_platform_owner && not (is_given payload.team_id)
    then none
    else some (record {
      user_id = text_of payload.sub;
      team_id = payload.team_id;
      schema_name = text_of payload.tenant_schema;
      is_platform_owner = payload.is_platform_owner;
    })

-- The beginning of `client_websocket`: a connection, or the code that the socket is closed with.
unfoldable pub accept_client : Env → ℕ → Option Text → Outcome Connection
accept_client env now token =
    if not (is_given token)
    then http 4001 "No authentication token"
    else elim (decode_token env now (text_of token)) [
      | none ↦ http 4003 "Invalid token"
      | some payload ↦ elim (connection_of payload) [
        | none ↦ http 4003 "Invalid token"
        | some conn ↦ ok conn
      ]
    ]

-- `async_session_factory()`
abbrev pub new_session : Database → Session
new_session db = record { committed = db; current = db; search_path = codes "public"; mails = [] }

-- `select(Server).where(Server.id == server_id)` in the caller's schema.
unfoldable pub find_own_server : Text → ℕ → Action (Option Server)
find_own_server schema id = do
  set_search_path schema
  t ← tables
  lift (scalar_one_or_none (select (λ s. s.id == id) t.servers))

-- `str(team_id)`
abbrev pub team_text : Option Text → Text
team_text none = codes "None"
team_text (some team) = team

-- What `_user_owns_server` makes of the query: any exception is a refusal.
unfoldable pub owns_found : Env → Connection → Outcome (Option Server) → Bool
owns_found env conn (http n d) = false
owns_found env conn (crash e) = false
owns_found env conn (ok none) = false
owns_found env conn (ok (some server)) =
    if conn.is_platform_owner then true else env.uuid.show server.team_id == team_text conn.team_id

-- The query is made for a text that is a UUID.
unfoldable pub owns_id : Env → Database → Connection → Option ℕ → Bool
owns_id env db conn none = false
owns_id env db conn (some id) =
    owns_found env conn (find_own_server conn.schema_name id (new_session db)).0

-- `_user_owns_server`
unfoldable pub user_owns_server : Env → Database → Connection → Option Text → Bool
user_owns_server env db conn none = false
user_owns_server env db conn (some []) = false
user_owns_server env db conn (some (c ∷ cs)) = owns_id env db conn (env.uuid.parse (c ∷ cs))

-- `_authorize`, with the set `authorized_servers` of the connection.
unfoldable pub authorize : Env → Database → Connection → Option Text → List Text → Bool × List Text
authorize env db conn server_id cache =
    if is_given server_id && contains (text_of server_id) cache
    then (true, cache)
    else if user_owns_server env db conn server_id
    then (true, add (text_of server_id) cache)
    else (false, cache)
