-- ===== src/Hub/Client/Messages.antt =====
-- The loop of `client_websocket` in Backend/app/ws/client_handler.py: the messages that go to an
-- agent, by their type. The others are in Hub.Watch.
use server_deck_backend.Base.{ℕ, Bool, true, false, Option}
use server_deck_backend.Base.Text.{Text, codes}
use server_deck_backend.Base.Outcome.{Outcome}
use server_deck_backend.Database.{Database}
use server_deck_backend.Auth.Env.{Env}
use server_deck_backend.Hub.Client.{Connection}
use server_deck_backend.Hub.Client.Commands.{
  Command, ClientState, Reaction, on_command, on_terminal_open, on_terminal_action,
  on_terminal_close,
}

-- Each terminal message with its "server_id", and its "id" or "session_id".
pub data ClientMessage : Type 0 where
  command : Command → ClientMessage
  terminal_open : Option Text → Option Text → ClientMessage
  terminal_input : Option Text → Option Text → ClientMessage
  terminal_resize : Option Text → Option Text → ClientMessage
  terminal_close : Option Text → Option Text → ClientMessage

module _ {R : Type 0} (env : Env) (db : Database) (conn : Connection) (ws : ℕ) (fresh : Text) where
  unfoldable pub on_message : Outcome R → Bool → ClientMessage → ClientState → Reaction R
  on_message send online (command c) st = on_command env db conn ws fresh send c st
  on_message send online (terminal_open server_id id) st =
      on_terminal_open env db conn ws fresh send server_id id st
  on_message send online (terminal_input server_id session_id) st =
      on_terminal_action env db conn ws online true (codes "terminal.input") server_id session_id st
  on_message send online (terminal_resize server_id session_id) st =
      on_terminal_action env db conn ws online false (codes "terminal.resize") server_id session_id
        st
  on_message send online (terminal_close server_id session_id) st =
      on_terminal_close env db conn ws online server_id session_id st
