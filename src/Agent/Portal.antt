-- ===== src/Agent/Portal.antt =====
-- What the portal takes a reply of the agent for: the dispatch of `agent_websocket` in
-- Backend/app/ws/agent_handler.py on the key "type", which a handler of the agent may set.
use server_deck_backend.Base.{
  ◌≡◌, refl, Bool, false, ◌||◌, ◌==◌, text_eq, Option, none, some, if◌then◌else◌, arith,
}
use server_deck_backend.Base.Text.{Text, codes}
use server_deck_backend.Hub.Agents.{
  AgentMessage, register, telemetry, scan, stream_chunk, stream_ended, terminal_output,
  terminal_closed, response,
}
use server_deck_backend.Agent.{AgentReply}

unfoldable pub message_of_type : Text → AgentReply → AgentMessage AgentReply
message_of_type msg_type r =
    if msg_type == codes "register"
    then register
    else if msg_type == codes "telemetry"
    then telemetry
    else if msg_type == codes "scan"
    then scan
    else if msg_type == codes "stream_chunk"
    then stream_chunk r.id
    else if msg_type == codes "stream_ended"
    then stream_ended r.id
    else if msg_type == codes "terminal_output"
    then terminal_output r.id
    else if msg_type == codes "terminal_closed"
    then terminal_closed r.id
    else response r.id r

unfoldable pub message_of : AgentReply → AgentMessage AgentReply
message_of r = elim r.msg_type [ none ↦ response r.id r | some t ↦ message_of_type t r ]

-- The types that the portal does not take for a response.
abbrev pub is_reserved : Option Text → Bool
is_reserved none = false
is_reserved (some t) =
    t == codes "register"
    || t == codes "telemetry"
    || t == codes "scan"
    || t == codes "stream_chunk"
    || t == codes "stream_ended"
    || t == codes "terminal_output"
    || t == codes "terminal_closed"

message_of_type-response :
    (t : Text) (r : AgentReply)
    → is_reserved (some t) ≡ false
    → message_of_type t r ≡ response r.id r
unfolding message_of_type
message_of_type-response t r h = ground arith

go-response :
    (msg_type : Option Text) (r : AgentReply)
    → is_reserved msg_type ≡ false
    → elim msg_type [ none ↦ response r.id r | some t ↦ message_of_type t r ] ≡ response r.id r
go-response none r h = refl
go-response (some t) r h = message_of_type-response t r h

pub message_of-response :
    (r : AgentReply) → is_reserved r.msg_type ≡ false → message_of r ≡ response r.id r
unfolding message_of
message_of-response r h = go-response r.msg_type r h
