-- ===== src/Agent/Terminals.antt =====
-- A terminal whose shell has ended, in agent/serverdeck_agent/connection.py.
use server_deck_backend.Base.{
  ◌≡◌, refl, Bool, true, false, ◌&&◌, not, List, [], ◌∷◌, ◌++◌, text_eq, Option, none, any,
  update_where, arith, Bool-cases, inl, inr,
}
use server_deck_backend.Base.Text.{Text, codes}
use server_deck_backend.Agent.{
  Params, AgentConnection, TerminalSession, has_session, session_of, same_id, handle_terminal,
  open_terminal, end_terminal, send,
}

abbrev is_live : Option Text → TerminalSession → Bool
is_live id t = same_id id t.session_id && not t.closed

closed-any :
    (id : Option Text) (terminals : List TerminalSession)
    → any
        (is_live id)
        (update_where (λ t. same_id id t.session_id) (λ t. record t { closed = true }) terminals)
      ≡ false
closed-any id [] = refl
closed-any id (t ∷ terminals) = elim (Bool-cases (same_id id t.session_id)) [
  | inl e ↦ rw (e, closed-any id terminals) (ground arith)
  | inr e ↦ rw (e, e) (closed-any id terminals)
]

known-any :
    (id : Option Text) (terminals : List TerminalSession)
    → any
        (λ t. same_id id t.session_id)
        (update_where (λ t. same_id id t.session_id) (λ t. record t { closed = true }) terminals)
      ≡ any (λ t. same_id id t.session_id) terminals
known-any id [] = refl
known-any id (t ∷ terminals) = elim (Bool-cases (same_id id t.session_id)) [
  | inl e ↦ rw (e, e) refl
  | inr e ↦ rw (e, e) (known-any id terminals)
]

-- Opening a terminal again after its shell has ended is answered with success, but no shell is
-- started: no terminal of the session is live, and it stays so.
handle_terminal-ended :
    (starts : Option Text → Bool) (cmd_id : Option Text) (params : Params) (a : AgentConnection)
    → has_session (session_of cmd_id params) a ≡ true
    → ((handle_terminal starts
          (codes "terminal.open")
          cmd_id
          params
          (end_terminal (session_of cmd_id params) a)).sent
        ≡ a.sent ++ (record { id = cmd_id; msg_type = none; success = true } ∷ []))
      × (any
            (is_live (session_of cmd_id params))
            (handle_terminal starts
              (codes "terminal.open")
              cmd_id
              params
              (end_terminal (session_of cmd_id params) a)).terminal_sessions
          ≡ false)
unfolding handle_terminal open_terminal end_terminal send
handle_terminal-ended starts cmd_id params a known =
    rw (known-any (session_of cmd_id params) a.terminal_sessions, known)
      (refl, closed-any (session_of cmd_id params) a.terminal_sessions)
