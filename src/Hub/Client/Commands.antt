-- ===== src/Hub/Client/Commands.antt =====
-- The messages "command", "terminal_open", "terminal_input", "terminal_resize" and
-- "terminal_close" of `client_websocket` in Backend/app/ws/client_handler.py. What
-- `send_command_to_agent` comes to is the argument `send`: what it returns, or the exception.
pub mod Isolation
pub mod Gate
use server_deck_backend.Base.{
  ℕ, Bool, true, false, not, ◌&&◌, ◌||◌, List, [], ◌∷◌, String, ◌==◌, nat_eq, text_eq, string_eq,
  if◌then◌else◌, Option, none, some, select, contains, add,
}
use server_deck_backend.Base.Text.{Text, codes, starts_with}
use server_deck_backend.Base.Outcome.{Outcome, ok, http, crash}
use server_deck_backend.Models.{Server, User}
use server_deck_backend.Database.{
  Database, Session, Action, ◌>>=◌, ◌>>◌, pure, lift, set_search_path, tables, public_tables,
}
use server_deck_backend.Tenant.Modules.{get_user_resolved_modules}
use server_deck_backend.Auth.Env.{Env}
use server_deck_backend.Auth.CurrentUser.{find_user}
use server_deck_backend.Auth.Login.{record_audit}
use server_deck_backend.Hub.Streams.{Streams, subscribe_stream, unsubscribe_stream}
use server_deck_backend.Hub.Client.Modules.{check_action, check_terminal}
use server_deck_backend.Hub.Client.{Connection, is_given, text_of, new_session, authorize}

-- What the client gets back for a message with an id.
pub data Reply (R : Type 0) : Type 0 where
  not_authorized : Text → Reply R
  disabled : Text → String → Reply R
  answer : R → Reply R
  failed : Text → String → Reply R

pub record ClientState : Type 0 where
  pub authorized_servers : List Text
  pub streams : Streams

-- What a message leads to: calls of `send_command_to_agent` by server and action, the replies, and
-- the database afterwards. `crashed` is an exception that ends the connection.
pub record Reaction (R : Type 0) : Type 0 where
  pub sent : List (Text × Text)
  pub replies : List (Reply R)
  pub database : Database
  pub crashed : Bool
  pub state : ClientState

-- The fields of a "command" that are read; a missing text and an empty one are both false.
pub record Command : Type 0 where
  pub server_id : Option Text
  pub action : Option Text
  pub source : Option String
  pub id : Option Text

abbrev pub id_or : Text → Option Text → Text
id_or fresh id = if is_given id then text_of id else fresh

-- `record_audit(session, user_id, server_id, action, …)` in a new session of the tenant.
unfoldable pub parse_id : Env → Text → Action ℕ
parse_id env id = elim (env.uuid.parse id) [ none ↦ lift (crash "ValueError") | some n ↦ pure n ]

unfoldable pub audit_command : Env → Connection → Text → Text → Action (Unit {0})
audit_command env conn server_id action = do
  set_search_path conn.schema_name
  user ← parse_id env conn.user_id
  server ← parse_id env server_id
  record_audit user (some server) action

abbrev pub unsubscribe_if : Bool → Text → Streams → Streams
unsubscribe_if streaming id s = if streaming then unsubscribe_stream id s else s

module _ {R : Type 0} (env : Env) (db : Database) (conn : Connection) (ws : ℕ) where
  -- After the audit entry: an exception leads to a second reply.
  unfoldable pub after_audit :
      Text → Text → Text → Bool → R → ClientState → Outcome (Unit {0}) × Session → Reaction R
  after_audit server_id action id streaming r st (ok _, s) = record {
    sent = (server_id, action) ∷ [];
    replies = answer r ∷ [];
    database = s.committed;
    crashed = false;
    state = st;
  }
  after_audit server_id action id streaming r st (http n d, s) = record {
    sent = (server_id, action) ∷ [];
    replies = answer r ∷ failed id d ∷ [];
    database = s.committed;
    crashed = false;
    state = record st { streams = unsubscribe_if streaming id st.streams };
  }
  after_audit server_id action id streaming r st (crash e, s) = record {
    sent = (server_id, action) ∷ [];
    replies = answer r ∷ failed id e ∷ [];
    database = s.committed;
    crashed = false;
    state = record st { streams = unsubscribe_if streaming id st.streams };
  }

  unfoldable pub after_send :
      Text → Text → Text → Bool → Bool → Outcome R → ClientState → Reaction R
  after_send server_id action id streaming audited (ok r) st =
      after_audit server_id action id streaming r st (
        if audited
        then audit_command env conn server_id action (new_session db)
        else (ok tt, new_session db))
  after_send server_id action id streaming audited (http n d) st = record {
    sent = (server_id, action) ∷ [];
    replies = failed id d ∷ [];
    database = db;
    crashed = false;
    state = record st { streams = unsubscribe_if streaming id st.streams };
  }
  after_send server_id action id streaming audited (crash e) st = record {
    sent = (server_id, action) ∷ [];
    replies = failed id e ∷ [];
    database = db;
    crashed = false;
    state = record st { streams = unsubscribe_if streaming id st.streams };
  }

  abbrev pub only_replies : List (Reply R) → Bool → ClientState → Reaction R
  only_replies replies crashed st = record {
    sent = [];
    replies = replies;
    database = db;
    crashed = crashed;
    state = st;
  }

  -- The subscription comes before the command is sent.
  unfoldable pub dispatch :
      Text → Text → Text → Bool → Outcome R → ClientState → Outcome (Option String) → Reaction R
  dispatch server_id action id streaming send st (http n d) = only_replies [] true st
  dispatch server_id action id streaming send st (crash e) = only_replies [] true st
  dispatch server_id action id streaming send st (ok (some name)) =
      only_replies (disabled id name ∷ []) false st
  dispatch server_id action id streaming send st (ok none) =
      after_send server_id action id streaming (not (action == [])) send
        (if streaming then record st { streams = subscribe_stream ws id st.streams } else st)

  -- The branch "command".
  unfoldable pub on_command : Text → Outcome R → Command → ClientState → Reaction R
  on_command fresh send c st =
      let (allowed, cache) = authorize env db conn c.server_id st.authorized_servers in
      let id : Text = id_or fresh c.id in
      let st' : ClientState = record st { authorized_servers = cache } in
      let action : Text = text_of c.action in
      if not allowed
      then only_replies (not_authorized id ∷ []) false st'
      else dispatch (text_of c.server_id) action id (action == codes "logs.stream") send st'
          (check_action env conn action c.source (new_session db)).0

  -- The branch "terminal_open".
  unfoldable pub on_terminal_open :
      Text → Outcome R → Option Text → Option Text → ClientState → Reaction R
  on_terminal_open fresh send server_id given st =
      let (allowed, cache) = authorize env db conn server_id st.authorized_servers in
      let id : Text = id_or fresh given in
      let st' : ClientState = record st { authorized_servers = cache } in
      if not allowed
      then only_replies (not_authorized id ∷ []) false st'
      else dispatch (text_of server_id) (codes "terminal.open") id true send st'
          (check_terminal env conn (new_session db)).0

  -- "terminal_input", "terminal_resize" and "terminal_close" for a server and a session. `online`
  -- says whether the server's agent is connected; `told` whether the ConnectionError is answered.
  unfoldable pub on_terminal_action :
      Bool → Bool → Text → Option Text → Option Text → ClientState → Reaction R
  on_terminal_action online told action server_id session_id st =
      if not (is_given server_id) || not (is_given session_id)
      then only_replies [] false st
      else (let (allowed, cache) = authorize env db conn server_id st.authorized_servers in
          let st' : ClientState = record st { authorized_servers = cache } in
          if not allowed
          then only_replies [] false st'
          else if online
          then record (only_replies [] false st') { sent = (text_of server_id, action) ∷ [] }
          else if told
          then only_replies (failed (text_of session_id) "ConnectionError" ∷ []) false st'
          else only_replies [] false st')

  unfoldable pub on_terminal_close : Bool → Option Text → Option Text → ClientState → Reaction R
  on_terminal_close online server_id session_id st =
      on_terminal_action online false (codes "terminal.close") server_id session_id (
        if is_given session_id
        then record st { streams = unsubscribe_stream (text_of session_id) st.streams }
        else st)
