-- ===== src/Agent/Replies.antt =====
-- Every command that reaches the agent and waits for an answer gets one.
use server_deck_backend.Base.{
  ℕ, ◌≡◌, refl, sym, ap, ◌∙◌, Bool, true, false, ◌&&◌, not, List, [], ◌∷◌, ◌++◌, ◌==◌, text_eq,
  Option, none, some, Bool-cases, inl, inr, arith,
}
use server_deck_backend.Base.Text.{Text, codes, starts_with}
use server_deck_backend.Hub.Bridge.{idle, await_result}
use server_deck_backend.Hub.Bridge.Runs.{Event, begins, responds, run, step, run-append, IsWithout}
use server_deck_backend.Hub.Bridge.Commands.{begins-answered, future_after}
use server_deck_backend.Hub.Agents.{Channels, on_agent_message, on_response}
use server_deck_backend.Agent.Portal.{message_of, message_of-response, is_reserved}
use server_deck_backend.Agent.{
  send_response, Params, AgentCommand, command, AgentReply, AgentConnection, HandlerResult, raised,
  stream_cmd, error, done, command_handler, truthy, send, send_if, stop_stream, has_session,
  open_terminal, close_terminal, session_of, handle_terminal, send_result, run_action,
  handle_action, listen_one,
}

-- The actions that are answered: not a missing one, and neither input nor the size of a terminal.
abbrev pub expects_reply : Option Text → Bool
expects_reply none = false
expects_reply (some []) = false
expects_reply (some (c ∷ cs)) =
    not ((c ∷ cs) == codes "terminal.input") && not ((c ∷ cs) == codes "terminal.resize")

-- One reply under the id is sent after what was sent before, of a type that the portal takes for a
-- response.
abbrev pub Answered : Option Text → AgentConnection → AgentConnection → Type 0
Answered id a a' =
    (reply : AgentReply) × (a'.sent ≡ a.sent ++ (reply ∷ []))
    × (reply.id ≡ id)
    × (is_reserved reply.msg_type ≡ false)

-- The key "type" of what a handler has returned.
abbrev pub type_of : HandlerResult → Option Text
type_of raised = none
type_of (stream_cmd cmd) = none
type_of (error msg_type) = msg_type
type_of (done msg_type) = msg_type

-- The handler of the action sets no key "type" that the portal takes for something else.
abbrev pub IsUntyped : (Text → Params → HandlerResult) → Option Text → Params → Type 0
IsUntyped handlers none params = Unit {0}
IsUntyped handlers (some action) params =
    is_reserved (type_of (command_handler handlers action params)) ≡ false

module _ (id : Option Text) (wants : truthy id ≡ true) (a : AgentConnection) where
  send_if-Answered :
      (success : Bool) (b : AgentConnection)
      → b.sent ≡ a.sent
      → Answered id a (send_if id success b)
  unfolding send_if send
  send_if-Answered success b same = rw wants (
    record { id = id; msg_type = none; success = success },
    ap (λ l. l ++ (record { id = id; msg_type = none; success = success } ∷ [])) same,
    refl,
    refl,
  )

  plain : (success : Bool) → Answered id a (send id success a)
  unfolding send
  plain success = (record { id = id; msg_type = none; success = success }, refl, refl, refl)

  open_terminal-Answered :
      (starts : Option Text → Bool) (session_id : Option Text)
      → Answered id a (open_terminal starts id session_id a)
  unfolding open_terminal send
  open_terminal-Answered starts session_id = elim (Bool-cases (has_session session_id a)) [
    | inl e ↦ rw e (plain true)
    | inr e ↦ elim (Bool-cases (starts session_id)) [
      | inl d ↦ rw (e, d) (plain true)
      | inr d ↦ rw (e, d) (plain false)
    ]
  ]

  handle_terminal-Answered :
      (starts : Option Text → Bool) (action : Text) (params : Params)
      → (action == codes "terminal.input") ≡ false
      → (action == codes "terminal.resize") ≡ false
      → Answered id a (handle_terminal starts action id params a)
  unfolding handle_terminal close_terminal
  handle_terminal-Answered starts action params input resize =
      elim (Bool-cases (action == codes "terminal.open")) [
        | inl e ↦ rw e (open_terminal-Answered starts (session_of id params))
        | inr e ↦ elim (Bool-cases (action == codes "terminal.close")) [
          | inl d ↦ rw (e, input, resize, d) (send_if-Answered true _ refl)
          | inr d ↦ rw (e, input, resize, d) (send_if-Answered false a refl)
        ]
      ]

  send_result-Answered :
      (result : HandlerResult)
      → is_reserved (type_of result) ≡ false
      → Answered id a (send_result id result a)
  unfolding send_result send send_response
  send_result-Answered raised h = send_if-Answered false a refl
  send_result-Answered (stream_cmd cmd) h =
      (record { id = id; msg_type = none; success = true }, refl, refl, refl)
  send_result-Answered (error msg_type) h =
      (record { id = id; msg_type = msg_type; success = false }, refl, refl, h)
  send_result-Answered (done msg_type) h =
      (record { id = id; msg_type = msg_type; success = true }, refl, refl, h)

  run_action-Answered :
      (handlers : Text → Params → HandlerResult) (starts : Option Text → Bool) (action : Text)
      (params : Params)
      → (not (action == codes "terminal.input") && not (action == codes "terminal.resize")) ≡ true
      → is_reserved (type_of (command_handler handlers action params)) ≡ false
      → Answered id a (run_action handlers starts id action params a)
  unfolding run_action stop_stream send
  run_action-Answered handlers starts action params h untyped =
      elim (Bool-cases (action == codes "logs.stop_stream")) [
        | inl e ↦ rw e (plain true)
        | inr e ↦ elim (Bool-cases (starts_with action (codes "terminal."))) [
          | inl d ↦
              rw (e, d)
                (handle_terminal-Answered starts action params (ground arith) (ground arith))
          | inr d ↦
              rw (e, d) (send_result-Answered (command_handler handlers action params) untyped)
        ]
      ]

  handle_action-Answered :
      (handlers : Text → Params → HandlerResult) (starts : Option Text → Bool)
      (action : Option Text) (params : Params)
      → expects_reply action ≡ true
      → IsUntyped handlers action params
      → Answered id a (handle_action handlers starts id action params a)
  unfolding handle_action
  handle_action-Answered handlers starts none params h untyped = cc
  handle_action-Answered handlers starts (some []) params h untyped = cc
  handle_action-Answered handlers starts (some (c ∷ cs)) params h untyped =
      run_action-Answered handlers starts (c ∷ cs) params h untyped

-- A command with an id whose action is neither missing nor input or size of a terminal is answered:
-- whatever the handlers do but set a type, the connection goes on, and exactly one reply is sent,
-- under the id.
listen_one-Answered :
    (handlers : Text → Params → HandlerResult) (starts : Option Text → Bool) (c : AgentCommand)
    (a : AgentConnection)
    → truthy c.id ≡ true
    → expects_reply c.action ≡ true
    → IsUntyped handlers c.action c.params
    → (a' : AgentConnection) × (listen_one handlers starts (command c) a ≡ some a')
      × Answered c.id a a'
unfolding listen_one
listen_one-Answered handlers starts c a wants expected untyped = (
  _,
  refl,
  handle_action-Answered c.id wants (record a { cmd_id = some c.id }) handlers starts c.action
      c.params expected untyped,
)

-- The portal resolves the command with a reply of an id that it takes for a response.
resolves :
    (portal : ℕ → Bool) (server_id : Text) (c : ℕ) (cs : Text) (reply : AgentReply)
    (h : Channels AgentReply)
    → reply.id ≡ some (c ∷ cs)
    → is_reserved reply.msg_type ≡ false
    → (on_agent_message portal server_id (message_of reply) h).1.bridge
      ≡ step (responds (c ∷ cs) reply) h.bridge
unfolding on_agent_message on_response step
resolves portal server_id c cs reply h named untyped =
    rw (message_of-response reply untyped, named) refl

-- A command that the portal has begun in any history of its bridge, and that reaches the agent in
-- any state, is answered, if its action is neither missing nor input or size of a terminal and its
-- handler sets no key "type" that the portal takes for something else: the agent sends one reply,
-- and when the portal's handler of agents gets this reply, whatever has happened to other ids
-- meanwhile, the caller gets it, whatever comes after.
pub listen_one-awaited :
    (handlers : Text → Params → HandlerResult) (starts : Option Text → Bool) (a : AgentConnection)
    (history meanwhile later : List (Event AgentReply)) (alive portal : ℕ → Bool) (ws c : ℕ)
    (cs server_id : Text) (action : Option Text) (params : Params) (h : Channels AgentReply)
    → expects_reply action ≡ true
    → IsUntyped handlers action params
    → IsWithout (c ∷ cs) meanwhile
    → h.bridge ≡ run (begins alive (some ws) (c ∷ cs) ∷ meanwhile) (run history idle)
    → (reply : AgentReply) × (a' : AgentConnection) × (listen_one handlers starts
          (command (record { id = some (c ∷ cs); action = action; params = params }))
          a
        ≡ some a')
      × (a'.sent ≡ a.sent ++ (reply ∷ []))
      × (reply.id ≡ some (c ∷ cs))
      × (await_result
            (future_after history)
            (run later (on_agent_message portal server_id (message_of reply) h).1.bridge)
          ≡ some reply)
unfolding run
listen_one-awaited handlers starts a history meanwhile later alive portal ws c cs server_id action
      params h expected untyped without reached =
    let (a', handled, (reply, sent, named, response_type)) =
      listen_one-Answered handlers starts
        (record { id = some (c ∷ cs); action = action; params = params }) a refl expected untyped in
    (
      reply,
      a',
      handled,
      sent,
      named,
      ap (λ b. await_result (future_after history) (run later b))
            (resolves portal server_id c cs reply h named response_type
              ∙ ap (step (responds (c ∷ cs) reply)) reached)
          ∙ ap (await_result (future_after history)) (
              sym (
                run-append meanwhile (responds (c ∷ cs) reply ∷ later)
                  (step (begins alive (some ws) (c ∷ cs)) (run history idle))))
          ∙ begins-answered history meanwhile later alive ws (c ∷ cs) reply without,
    )
