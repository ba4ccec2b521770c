-- ===== src/Hub/Agents.antt =====
-- Agents: Backend/app/ws/agent_handler.py. `agent_websocket` in three parts: who connects
-- (`agent_hello`), each message (`on_agent_message`), and the clean-up (`agent_goodbye`). Of the
-- columns of a server the model keeps `is_online`; telemetry and scans only write others.
pub mod Laws
pub mod Welcome
use server_deck_backend.Base.{
  ℕ, Bool, true, false, not, ◌&&◌, ◌||◌, List, [], ◌∷◌, ◌==◌, nat_eq, text_eq, if◌then◌else◌,
  Option, none, some, select, update_where,
}
use server_deck_backend.Base.Text.{Text, codes, starts_with, strip, drop}
use server_deck_backend.Base.Dicts.{Dict, put, pop}
use server_deck_backend.Base.Outcome.{scalar_one_or_none}
use server_deck_backend.Models.{Server, AgentTokenMapping}
use server_deck_backend.Database.{
  Action, ◌>>=◌, ◌>>◌, pure, lift, commit, set_search_path, tables, put_tables, public_tables,
}
use server_deck_backend.Auth.Env.{Env}
use server_deck_backend.Hub.Watch.{Watch, forward}
use server_deck_backend.Hub.Streams.{Streams, forward_to_stream}
use server_deck_backend.Hub.Bridge.{Bridge, resolve_command}

pub record Agents : Type 0 where
  pub connected_agents : Dict Text ℕ
  pub agent_by_server_id : Dict Text ℕ
  pub server_token_map : Dict Text Text

abbrev pub no_agents : Agents
no_agents = record {
  connected_agents = λ token. none;
  agent_by_server_id = λ server_id. none;
  server_token_map = λ server_id. none;
}

-- The token of the query, else that of the header; an empty one is none.
unfoldable pub agent_token_of : Option Text → Text → Text
agent_token_of none header = if starts_with header (codes "Bearer ") then drop 7 header else []
agent_token_of (some []) header = if starts_with header (codes "Bearer ") then drop 7 header else []
agent_token_of (some (c ∷ token)) header = c ∷ token

-- The connection is closed with a code, or it is that of a server.
pub data Hello : Type 0 where
  closed : ℕ → Hello
  welcome : Text → Text → Text → Hello

unfoldable pub find_mapping : Text → Action (Option AgentTokenMapping)
find_mapping token = do
  db ← public_tables
  lift (scalar_one_or_none (select (λ m. m.agent_token == token) db.agent_tokens))

unfoldable pub find_server_by_token : Text → Action (Option Server)
find_server_by_token token = do
  t ← tables
  lift (scalar_one_or_none (select (λ s. s.agent_token == token) t.servers))

-- `update(Server).where(Server.id == …).values(is_online=…)`
unfoldable pub mark_online : Env → Text → Bool → Action (Unit {0})
mark_online env server_id online = do
  t ← tables
  put_tables (record t {
    servers =
        update_where (λ s. env.uuid.show s.id == server_id) (λ s. record s { is_online = online })
          t.servers;
  })

unfoldable pub welcome_server : Env → Text → Text → Option Server → Action Hello
welcome_server env token schema none = pure (closed 4003)
welcome_server env token schema (some server) = do
  mark_online env (env.uuid.show server.id) true
  commit
  pure (welcome (env.uuid.show server.id) token schema)

unfoldable pub hello_in_schema : Env → Text → Option AgentTokenMapping → Action Hello
hello_in_schema env token none = pure (closed 4003)
hello_in_schema env token (some mapping) = do
  set_search_path mapping.schema_name
  found ← find_server_by_token token
  welcome_server env token mapping.schema_name found

unfoldable pub hello_with : Env → Text → Action Hello
hello_with env [] = pure (closed 4001)
hello_with env (c ∷ cs) = do
  mapping ← find_mapping (strip (c ∷ cs))
  hello_in_schema env (strip (c ∷ cs)) mapping

-- `agent_websocket` up to the registration.
unfoldable pub agent_hello : Env → Option Text → Text → Action Hello
agent_hello env query header = hello_with env (agent_token_of query header)

-- "Register in connected dicts"
unfoldable pub register_agent : ℕ → Text → Text → Agents → Agents
register_agent ws token server_id a = record {
  connected_agents = put a.connected_agents token ws;
  agent_by_server_id = put a.agent_by_server_id server_id ws;
  server_token_map = put a.server_token_map server_id token;
}

-- The dictionaries' part of the `finally`.
unfoldable pub forget_agent : Text → Text → Agents → Agents
forget_agent token server_id a = record {
  connected_agents = pop a.connected_agents token;
  agent_by_server_id = pop a.agent_by_server_id server_id;
  server_token_map = pop a.server_token_map server_id;
}

-- The database's part of the `finally`.
unfoldable pub agent_goodbye : Env → Text → Text → Action (Unit {0})
agent_goodbye env schema server_id = do
  set_search_path schema
  mark_online env server_id false
  commit

-- A message, with the field "id" where it is read.
pub data AgentMessage (R : Type 0) : Type 0 where
  register : AgentMessage R
  telemetry : AgentMessage R
  scan : AgentMessage R
  stream_chunk : Option Text → AgentMessage R
  stream_ended : Option Text → AgentMessage R
  terminal_output : Option Text → AgentMessage R
  terminal_closed : Option Text → AgentMessage R
  response : Option Text → R → AgentMessage R

-- What the messages change in memory.
pub record Channels (R : Type 0) : Type 0 where
  pub watch : Watch
  pub streams : Streams
  pub bridge : Bridge R

-- `if stream_id: delivered = await forward_to_stream(stream_id, payload)`
unfoldable pub deliver : (ℕ → Bool) → Option Text → Streams → Option ℕ × Streams
deliver alive none s = (none, s)
deliver alive (some []) s = (none, s)
deliver alive (some (c ∷ id)) s = forward_to_stream alive (c ∷ id) s

module _ {R : Type 0} (alive : ℕ → Bool) (server_id : Text) where
  -- `forward_to_watchers`
  unfoldable pub broadcast : Channels R → List ℕ × Channels R
  broadcast h =
      let (receivers, watch) = forward alive server_id h.watch in
      (receivers, record h { watch = watch })

  unfoldable pub broadcast_unless : Option ℕ → Channels R → List ℕ × Channels R
  broadcast_unless none h = broadcast h
  broadcast_unless (some ws) h = (ws ∷ [], h)

  -- "stream_chunk" and "stream_ended" go to the watchers when there is no subscriber.
  unfoldable pub on_stream : Option Text → Channels R → List ℕ × Channels R
  on_stream id h =
      let (delivered, streams) = deliver alive id h.streams in
      broadcast_unless delivered (record h { streams = streams })

  -- "terminal_output" and "terminal_closed"
  unfoldable pub on_terminal : Option Text → Channels R → List ℕ × Channels R
  on_terminal id h =
      let (delivered, streams) = deliver alive id h.streams in
      (elim delivered [ none ↦ [] | some ws ↦ ws ∷ [] ], record h { streams = streams })

  unfoldable pub on_response : Option Text → R → Channels R → Channels R
  on_response none r h = h
  on_response (some []) r h = h
  on_response (some (c ∷ id)) r h = record h { bridge = resolve_command (c ∷ id) r h.bridge }

  -- One round of the loop: the websockets of clients that get something, and the new state.
  unfoldable pub on_agent_message : AgentMessage R → Channels R → List ℕ × Channels R
  on_agent_message register h = ([], h)
  on_agent_message telemetry h = broadcast h
  on_agent_message scan h = broadcast h
  on_agent_message (stream_chunk id) h = on_stream id h
  on_agent_message (stream_ended id) h = on_stream id h
  on_agent_message (terminal_output id) h = on_terminal id h
  on_agent_message (terminal_closed id) h = on_terminal id h
  on_agent_message (response id r) h = ([], on_response id r h)
