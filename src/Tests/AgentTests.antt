-- ===== src/Tests/AgentTests.antt =====
-- An agent with one terminal, and a server whose /lib is a link to /usr/lib.
use server_deck_backend.Base.{
  ◌≤◌, ◌≡◌, refl, List, Bool, true, false, [], ◌∷◌, ◌++◌, ◌==◌, text_eq, Option, none, some, All,
  contains, if◌then◌else◌, ◌⊎◌,
}
use server_deck_backend.Base.Text.{Text, codes, starts_with}
use server_deck_backend.Hub.Bridge.{idle, await_result}
use server_deck_backend.Hub.Bridge.Runs.{Event, begins, expires, run}
use server_deck_backend.Hub.Bridge.Commands.{future_after}
use server_deck_backend.Agent.{
  Params, AgentCommand, command, AgentReply, AgentConnection, HandlerResult, done, listen_one,
  command_handler,
}
use server_deck_backend.Hub.Watch.{empty}
use server_deck_backend.Hub.Streams.{empty_streams}
use server_deck_backend.Hub.Agents.{Channels, on_agent_message}
use server_deck_backend.Agent.Portal.{message_of}
use server_deck_backend.Agent.Replies.{listen_one-awaited}
use server_deck_backend.Agent.Backoff.{refused, lost, connect, doubling, connect-IsBounded}
use server_deck_backend.Agent.Files.{Os, erase, handle_delete, protected_paths}
use server_deck_backend.Agent.Files.Guards.{handle_delete-guarded}

-- A site is created, and its type is told.
abbrev creates : Text → Params → HandlerResult
creates action params = done (some (codes "static"))

abbrev all_start : Option Text → Bool
all_start id = true

abbrev plain : Params
plain = record { stream_id = none; session_id = some (codes "t1") }

abbrev agent : AgentConnection
agent = record {
  active_streams = [];
  terminal_sessions = record { session_id = some (codes "t1"); closed = false } ∷ [];
  cmd_id = none;
  sent = [];
}

abbrev create_site : AgentCommand
create_site = record {
  id = some (codes "c1");
  action = some (codes "nginx.create");
  params = plain;
}

abbrev history : List (Event AgentReply)
history = begins (λ ws. true) (some 3) (codes "c0") ∷ []

abbrev meanwhile : List (Event AgentReply)
meanwhile = expires (codes "c0") ∷ []

-- The portal once the command has been begun and an older one has timed out.
abbrev channels : Channels AgentReply
channels = record {
  watch = empty;
  streams = empty_streams;
  bridge = run (begins (λ ws. true) (some 3) (codes "c1") ∷ meanwhile) (run history idle);
}

listen_one-awaited_example :
    (reply : AgentReply) × (a' : AgentConnection) × (listen_one creates all_start
        (command create_site)
        agent
      ≡ some a')
    × (a'.sent ≡ agent.sent ++ (reply ∷ []))
    × (reply.id ≡ some (codes "c1"))
    × (await_result
          (future_after history)
          (run [] (on_agent_message (λ ws. true) [] (message_of reply) channels).1.bridge)
        ≡ some reply)
unfolding command_handler
listen_one-awaited_example =
    listen_one-awaited creates all_start agent history meanwhile [] (λ ws. true) (λ ws. true) 3 b'c'
      (codes "1") [] (some (codes "nginx.create")) plain channels refl refl (refl, tt) refl

connect-IsBounded_example :
    All (λ s. (5 ≤ s) × (s ≤ 60)) (connect (refused ∷ refused ∷ lost ∷ refused ∷ []) 5)
connect-IsBounded_example = connect-IsBounded (refused ∷ refused ∷ lost ∷ refused ∷ [])

sleeps_test : doubling 5 6 ≡ 5 ∷ 10 ∷ 20 ∷ 40 ∷ 60 ∷ 60 ∷ []
sleeps_test = refl

-- The state is whether /usr/lib is there.
abbrev merged : Os Bool
merged = record {
  isabs = λ p. starts_with p (codes "/");
  isdir = λ p there. p == codes "/lib/";
  isfile = λ p there. p == codes "/etc/hosts";
  realpath = λ p there. if p == codes "/lib/" then codes "/usr/lib" else p;
  dirname = λ p. codes "/";
  join = λ p name. p ++ name;
  getsize = λ p there. some 9;
  read = λ p there. some (codes "localhost");
  rmtree = λ p there. (true, false);
  remove = λ p there. (true, there);
  makedirs = λ p there. (true, there);
  write = λ p text there. (true, there);
}

handle_delete-guarded_example :
    ((handle_delete merged (some (codes "/lib/")) true).1 ≡ true)
    ⊎ ((p : Text) × (some (codes "/lib/") ≡ some p)
        × (merged.isabs p ≡ true)
        × (contains (merged.realpath p true) protected_paths ≡ false)
        × (handle_delete merged (some (codes "/lib/")) true ≡ erase merged p true))
handle_delete-guarded_example = handle_delete-guarded merged (some (codes "/lib/")) true
