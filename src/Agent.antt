-- ===== src/Agent.antt =====
-- The agent on a server: Backend's counterpart at the other end of the websocket. This module is
-- `command_handler` of agent/serverdeck_agent/main.py, and `_listen` with `_handle_terminal` of
-- agent/serverdeck_agent/connection.py while the connection is up. `handlers` stands for the
-- handlers of HANDLERS, whose results have no key "id"; `starts` says which terminals start. What
-- is kept of a reply is its id, its key "type" and its status.
pub mod Portal
pub mod Replies
pub mod Terminals
pub mod Backoff
pub mod Files
use server_deck_backend.Base.{
  ℕ, Bool, true, false, ◌&&◌, ◌||◌, not, List, [], ◌∷◌, ◌++◌, ◌==◌, text_eq, Option, none, some,
  select, delete_where, any, update_where, contains, if◌then◌else◌,
}
use server_deck_backend.Base.Text.{Text, codes, starts_with}

abbrev pub allowed_actions : List Text
allowed_actions =
    codes "nginx.list"
    ∷ codes "nginx.create"
    ∷ codes "nginx.delete"
    ∷ codes "nginx.enable"
    ∷ codes "nginx.disable"
    ∷ codes "nginx.get_config"
    ∷ codes "nginx.update_config"
    ∷ codes "nginx.test"
    ∷ codes "systemd.list"
    ∷ codes "systemd.start"
    ∷ codes "systemd.stop"
    ∷ codes "systemd.restart"
    ∷ codes "systemd.enable"
    ∷ codes "systemd.disable"
    ∷ codes "systemd.create"
    ∷ codes "systemd.status"
    ∷ codes "pm2.list"
    ∷ codes "pm2.start"
    ∷ codes "pm2.stop"
    ∷ codes "pm2.restart"
    ∷ codes "pm2.delete"
    ∷ codes "pm2.create"
    ∷ codes "ssl.list"
    ∷ codes "ssl.list_available"
    ∷ codes "ssl.issue"
    ∷ codes "ssl.renew"
    ∷ codes "logs.fetch"
    ∷ codes "logs.stream"
    ∷ codes "logs.stop_stream"
    ∷ codes "firewall.list"
    ∷ codes "firewall.allow"
    ∷ codes "firewall.deny"
    ∷ codes "firewall.delete"
    ∷ codes "process.list"
    ∷ codes "process.kill"
    ∷ codes "files.list"
    ∷ codes "files.read"
    ∷ codes "files.write"
    ∷ codes "files.delete"
    ∷ codes "files.mkdir"
    ∷ codes "files.download"
    ∷ codes "files.upload"
    ∷ codes "agent.uninstall"
    ∷ codes "automation.run"
    ∷ codes "luxegenie.health"
    ∷ codes "luxegenie.battery"
    ∷ codes "luxegenie.serial"
    ∷ codes "luxegenie.firmware"
    ∷ codes "luxegenie.network"
    ∷ codes "sql.discover"
    ∷ codes "sql.list_databases"
    ∷ codes "sql.get_schema"
    ∷ codes "sql.execute"
    ∷ codes "sql.test_connection"
    ∷ []

pub record Params : Type 0 where
  pub stream_id : Option Text
  pub session_id : Option Text

-- What a handler makes of its parameters: an exception, a dictionary with a key "stream_cmd", one
-- with an error, or another dictionary; the last two with their key "type" if it is a text.
pub data HandlerResult : Type 0 where
  raised : HandlerResult
  stream_cmd : Text → HandlerResult
  error : Option Text → HandlerResult
  done : Option Text → HandlerResult

unfoldable pub command_handler : (Text → Params → HandlerResult) → Text → Params → HandlerResult
command_handler handlers action params =
    if not (contains action allowed_actions) then error none else elim (handlers action params) [
      | raised ↦ error none
      | stream_cmd cmd ↦ stream_cmd cmd
      | error msg_type ↦ error msg_type
      | done msg_type ↦ done msg_type
    ]

pub record AgentCommand : Type 0 where
  pub id : Option Text
  pub action : Option Text
  pub params : Params

-- A text that is no JSON, a JSON value that is no object, and an object.
pub data Message : Type 0 where
  no_json : Message
  no_object : Message
  command : AgentCommand → Message

pub record AgentReply : Type 0 where
  pub id : Option Text
  pub msg_type : Option Text
  pub success : Bool

-- A terminal whose shell has ended is closed, and stays in the dictionary.
pub record TerminalSession : Type 0 where
  pub session_id : Option Text
  pub closed : Bool

-- `bound` says whether `cmd_id` has a value, from this message or an earlier one.
pub record AgentConnection : Type 0 where
  pub active_streams : List (Option Text)
  pub terminal_sessions : List TerminalSession
  pub cmd_id : Option (Option Text)
  pub sent : List AgentReply

abbrev pub same_id : Option Text → Option Text → Bool
same_id none none = true
same_id none (some j) = false
same_id (some i) none = false
same_id (some i) (some j) = i == j

abbrev pub truthy : Option Text → Bool
truthy none = false
truthy (some []) = false
truthy (some (c ∷ cs)) = true

unfoldable pub send : Option Text → Bool → AgentConnection → AgentConnection
send id success a = record a {
  sent = a.sent ++ (record { id = id; msg_type = none; success = success } ∷ []);
}

-- `{"id": cmd_id, **result}` with the status.
unfoldable pub send_response : Option Text → Option Text → Bool → AgentConnection → AgentConnection
send_response id msg_type success a = record a {
  sent = a.sent ++ (record { id = id; msg_type = msg_type; success = success } ∷ []);
}

-- `if cmd_id: await self.send(…)`
unfoldable pub send_if : Option Text → Bool → AgentConnection → AgentConnection
send_if id success a = if truthy id then send id success a else a

unfoldable pub stop_stream : Option Text → Option Text → AgentConnection → AgentConnection
stop_stream cmd_id stream_id a =
    send cmd_id true
      (record a { active_streams = delete_where (same_id stream_id) a.active_streams })

abbrev pub has_session : Option Text → AgentConnection → Bool
has_session id a = any (λ t. same_id id t.session_id) a.terminal_sessions

unfoldable pub open_terminal :
    (Option Text → Bool) → Option Text → Option Text → AgentConnection → AgentConnection
open_terminal starts cmd_id session_id a =
    if has_session session_id a
    then send cmd_id true a
    else if starts session_id
    then send cmd_id true (record a {
      terminal_sessions = record { session_id = session_id; closed = false } ∷ a.terminal_sessions;
    })
    else send cmd_id false a

unfoldable pub close_terminal : Option Text → Option Text → AgentConnection → AgentConnection
close_terminal cmd_id session_id a = send_if cmd_id true (record a {
  terminal_sessions = delete_where (λ t. same_id session_id t.session_id) a.terminal_sessions;
})

-- `params.get("session_id") or cmd_id`
abbrev pub session_of : Option Text → Params → Option Text
session_of cmd_id params = if truthy params.session_id then params.session_id else cmd_id

-- Writing to a terminal and resizing it do not change what is kept here.
unfoldable pub handle_terminal :
    (Option Text → Bool) → Text → Option Text → Params → AgentConnection → AgentConnection
handle_terminal starts action cmd_id params a =
    if action == codes "terminal.open"
    then open_terminal starts cmd_id (session_of cmd_id params) a
    else if action == codes "terminal.input"
    then a
    else if action == codes "terminal.resize"
    then a
    else if action == codes "terminal.close"
    then close_terminal cmd_id (session_of cmd_id params) a
    else send_if cmd_id false a

-- `_read_loop` when the shell has ended.
unfoldable pub end_terminal : Option Text → AgentConnection → AgentConnection
end_terminal id a = record a {
  terminal_sessions =
      update_where (λ t. same_id id t.session_id) (λ t. record t { closed = true })
        a.terminal_sessions;
}

unfoldable pub send_result : Option Text → HandlerResult → AgentConnection → AgentConnection
send_result cmd_id raised a = send_if cmd_id false a
send_result cmd_id (stream_cmd cmd) a =
    let started : AgentConnection = send cmd_id true a in
    record started { active_streams = cmd_id ∷ started.active_streams }
send_result cmd_id (error msg_type) a = send_response cmd_id msg_type false a
send_result cmd_id (done msg_type) a = send_response cmd_id msg_type true a

module _ (handlers : Text → Params → HandlerResult) (starts : Option Text → Bool) where
  unfoldable pub run_action : Option Text → Text → Params → AgentConnection → AgentConnection
  run_action cmd_id action params a =
      if action == codes "logs.stop_stream"
      then stop_stream cmd_id params.stream_id a
      else if starts_with action (codes "terminal.")
      then handle_terminal starts action cmd_id params a
      else send_result cmd_id (command_handler handlers action params) a

  unfoldable pub handle_action :
      Option Text → Option Text → Params → AgentConnection → AgentConnection
  handle_action cmd_id none params a = a
  handle_action cmd_id (some []) params a = a
  handle_action cmd_id (some (c ∷ cs)) params a = run_action cmd_id (c ∷ cs) params a

  -- One round of the loop: none is an UnboundLocalError, which ends the connection. A value that
  -- is no object raises before `cmd_id` is set, so the error goes to the id of an earlier message.
  unfoldable pub listen_one : Message → AgentConnection → Option AgentConnection
  listen_one no_json a = some a
  listen_one no_object a = elim a.cmd_id [ none ↦ none | some id ↦ some (send_if id false a) ]
  listen_one (command c) a =
      some (handle_action c.id c.action c.params (record a { cmd_id = some c.id }))

  unfoldable pub listen : List Message → AgentConnection → Option AgentConnection
  listen [] a = some a
  listen (m ∷ messages) a = elim (listen_one m a) [ none ↦ none | some a1 ↦ listen messages a1 ]
