-- ===== src/Tests/HubTests.antt =====
-- Concrete runs of the hub and of a client's messages.
use server_deck_backend.Base.{
  ℕ, ◌≡◌, ◌≢◌, refl, true, false, List, [], ◌∷◌, ◌++◌, String, none, some, ◌==◌, text_eq, nat_eq,
  if◌then◌else◌, not, ◌&&◌,
}
use server_deck_backend.Base.Text.{Text, codes, strip, split_text}
use server_deck_backend.Base.Outcome.{ok}
use server_deck_backend.Hub.Watch.{Watch, empty, open_client, watch, forward, disconnect}
use server_deck_backend.Hub.Watch.Laws.{watches_key}
use server_deck_backend.Hub.Watch.Disconnect as Watching
use server_deck_backend.Hub.Watch.Disconnect.{disconnect-watches_key, forward-connected}
use server_deck_backend.Hub.Streams.{
  Streams, empty_streams, open_streams, subscribe_stream, close_streams, forward_to_stream,
}
use server_deck_backend.Hub.Streams.Laws as Streaming
use server_deck_backend.Hub.Streams.Laws.{knows_stream, close_streams-subscribers}
use server_deck_backend.Hub.Bridge.{idle, await_result}
use server_deck_backend.Hub.Bridge.Runs.{Event, begins, responds, expires, run}
use server_deck_backend.Hub.Bridge.Commands.{begins-answered, begins-overwritten, future_after}
use server_deck_backend.Hub.Agents.{
  no_agents, forget_agent, agent_hello, hello_with, find_mapping, hello_in_schema,
  find_server_by_token, welcome_server, mark_online, agent_token_of, Channels, on_terminal, deliver,
}
use server_deck_backend.Hub.Agents.Laws.{
  IsAgentOf, agent_hello-IsAgentOf, on_terminal-private, reconnected, forget_agent-reconnected,
}
use server_deck_backend.Hub.Client.{
  Connection, find_own_server, owns_found, owns_id, user_owns_server, authorize,
}
use server_deck_backend.Hub.Client.Commands.{
  ClientState, Command, after_audit, after_send, dispatch, on_command, audit_command, parse_id,
}
use server_deck_backend.Hub.Client.Modules.{
  find_module, blocked_by, check_module, check_prefix, check_source, check_action,
}
use server_deck_backend.Hub.Client.Commands.Gate.{HasModule, on_command-HasModule}
use server_deck_backend.Hub.Client.Commands.Isolation.{IsIsolated, on_message-IsIsolated}
use server_deck_backend.Hub.Client.Messages.{command, on_message}
use server_deck_backend.Tenant.SchemaName.{validate_schema_name, matches_schema_name}
use server_deck_backend.Tenant.Modules.{
  get_user_resolved_modules, names_organization, org_key_of_schema, find_organization, modules_of,
  resolve_for, restrict,
}
use server_deck_backend.Database.{set_search_path, tables, put_tables, public_tables, commit}
use server_deck_backend.Auth.CurrentUser.{find_user}
use server_deck_backend.Auth.Login.{record_audit}
use server_deck_backend.Tests.Samples.{env, database, session, acme}

abbrev key : Text
key = codes "21"

-- Two clients watch one server.
abbrev watched_by_1 : Watch
watched_by_1 = (watch 1 key (open_client 1 empty)).1

watched-IsReachable : Watching.IsReachable watched_by_1
unfolding open_client
watched-IsReachable = Watching.watched 1 key (Watching.connected 1 Watching.started refl) refl

disconnect-watches_key_example :
    watches_key (disconnect 1 watched_by_1) 1 key
    ≡ (not (◌==◌ {A = ℕ} 1 1) && watches_key watched_by_1 1 key)
disconnect-watches_key_example = disconnect-watches_key 1 watched-IsReachable 1 key

forward-connected_example : watched_by_1.watches 1 ≢ none
unfolding watch open_client forward
forward-connected_example = forward-connected watched-IsReachable (λ ws. true) key 1 refl

abbrev stream : Text
stream = codes "s"

abbrev streaming : Streams
streaming = subscribe_stream 1 stream (open_streams 1 empty_streams)

streaming-IsReachable : Streaming.IsReachable streaming
streaming-IsReachable = Streaming.subscribed 1 stream (Streaming.connected 1 Streaming.started refl)

close_streams-subscribers_example :
    ((close_streams 1 streaming).subscribers stream ≢ some 1)
    × ((close_streams 1 streaming).subscribers stream
        ≡ (if knows_stream streaming 1 stream then none else streaming.subscribers stream))
close_streams-subscribers_example = close_streams-subscribers 1 streaming-IsReachable stream

abbrev one_command : List (Event String)
one_command = begins (λ ws. true) (some 9) (codes "a") ∷ []

begins-answered_example :
    await_result (future_after one_command) (
      run
        (begins (λ ws. true) (some 9) (codes "b")
            ∷ (responds (codes "a") "first" ∷ expires (codes "a") ∷ [])
          ++ responds (codes "b") "second" ∷ responds (codes "b") "third" ∷ [])
        (run one_command idle))
    ≡ some "second"
begins-answered_example =
    begins-answered one_command (responds (codes "a") "first" ∷ expires (codes "a") ∷ [])
      (responds (codes "b") "third" ∷ []) (λ ws. true) 9 (codes "b") "second" (refl, (refl, tt))

begins-overwritten_example :
    await_result (future_after one_command) (
      run
        (begins (λ ws. true) (some 9) (codes "b") ∷ []
          ++ begins (λ ws. true) (some 9) (codes "b")
            ∷ responds (codes "b") "one"
            ∷ responds (codes "b") "two"
            ∷ [])
        (run one_command idle))
    ≡ none
begins-overwritten_example =
    begins-overwritten one_command [] (responds (codes "b") "one" ∷ responds (codes "b") "two" ∷ [])
      (λ ws. true) 9 9 (codes "b") tt

agent_hello-IsAgentOf_example :
    IsAgentOf session (codes "agent-1") acme (21 ∷ []) env
    × (strip (agent_token_of none (codes "Bearer agent-1 ")) ≡ codes "agent-1")
unfolding agent_hello hello_with find_mapping hello_in_schema find_server_by_token welcome_server
    mark_online agent_token_of strip set_search_path validate_schema_name matches_schema_name tables
    put_tables public_tables commit
agent_hello-IsAgentOf_example =
    agent_hello-IsAgentOf env none (codes "Bearer agent-1 ") session refl

abbrev channels : Channels String
channels = record { watch = empty; streams = streaming; bridge = idle }

on_terminal-private_example :
    (name : Text) × (some stream ≡ some name) × (streaming.subscribers name ≡ some 1)
unfolding on_terminal deliver forward_to_stream subscribe_stream open_streams
on_terminal-private_example = on_terminal-private (λ ws. true) key (some stream) channels 1 refl

forget_agent-reconnected_example :
    ((reconnected 3 4 (codes "agent-1") key no_agents).agent_by_server_id key ≡ some 4)
    × ((forget_agent
            (codes "agent-1")
            key
            (reconnected 3 4 (codes "agent-1") key no_agents)).agent_by_server_id
          key
        ≡ none)
forget_agent-reconnected_example = forget_agent-reconnected 3 4 (codes "agent-1") key no_agents

abbrev ann_online : Connection
ann_online = record {
  user_id = 7 ∷ [];
  team_id = some (1 ∷ []);
  schema_name = acme;
  is_platform_owner = false;
}

abbrev reload : Command
reload = record {
  server_id = some (21 ∷ []);
  action = some (codes "nginx.reload");
  source = none;
  id = some (codes "c1");
}

abbrev connected_state : ClientState
connected_state = record { authorized_servers = []; streams = empty_streams }

on_message-IsIsolated_example : IsIsolated {R = String} env database ann_online 1 (
    on_message env database ann_online 1
      (codes "fresh")
      (ok "done")
      true
      (command reload)
      connected_state)
on_message-IsIsolated_example =
    on_message-IsIsolated {R = String} env database ann_online 1 (codes "fresh") (ok "done") true
      (command reload) connected_state tt

on_command-HasModule_example : HasModule env database ann_online "nginx"
unfolding find_own_server owns_found owns_id user_owns_server authorize find_module blocked_by
    check_module check_prefix check_source check_action after_audit after_send dispatch on_command
    audit_command parse_id set_search_path validate_schema_name matches_schema_name tables
    put_tables public_tables commit find_user record_audit get_user_resolved_modules
    names_organization org_key_of_schema find_organization modules_of resolve_for restrict
    split_text
on_command-HasModule_example =
    on_command-HasModule {R = String} env database ann_online 1 (codes "fresh") (ok "done") reload
      connected_state "nginx" {d = (21 ∷ [], codes "nginx.reload")} {ds = []} refl refl refl
