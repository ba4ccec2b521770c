-- ===== src/Hub/Client/Commands/Isolation.antt =====
-- No message of a client reaches a server that is not its own, whatever the message says.
use server_deck_backend.Base.{
  ℕ, ◌≡◌, refl, ap, sym, subst, Bool, true, false, not, ◌||◌, List, [], ◌∷◌, String, ◌==◌, nat_eq,
  text_eq, string_eq, if◌then◌else◌, Option, none, some, All, arith,
}
use server_deck_backend.Base.Text.{Text}
use server_deck_backend.Base.Outcome.{Outcome, ok, http, crash}
use server_deck_backend.Database.{Database, Session}
use server_deck_backend.Auth.Env.{Env}
use server_deck_backend.Hub.Client.{Connection, is_given, text_of, new_session, authorize}
use server_deck_backend.Hub.Client.Laws.{
  IsOwnServer, IsOwnCache, authorize-IsOwnCache, authorize-owned, user_owns_server-IsOwnServer,
}
use server_deck_backend.Hub.Client.Commands.{
  ClientState, Reaction, Command, after_audit, after_send, dispatch, on_command, on_terminal_open,
  on_terminal_action, on_terminal_close, audit_command,
}
use server_deck_backend.Hub.Client.Messages.{
  ClientMessage, command, terminal_open, terminal_input, terminal_resize, terminal_close,
  on_message,
}

-- An authorized server is the caller's own.
authorize-IsOwnServer :
    (env : Env) (db : Database) (conn : Connection) (server_id : Option Text) (cache : List Text)
    → IsOwnCache env db conn cache
    → (authorize env db conn server_id cache).0 ≡ true
    → IsOwnServer env db conn (text_of server_id)
authorize-IsOwnServer env db conn server_id cache cached allowed =
    let (name, e, owned) = authorize-owned env db conn server_id cache cached allowed in
    subst (IsOwnServer env db conn) (ap text_of (sym e))
      (user_owns_server-IsOwnServer env db conn name owned)

module _ {R : Type 0} (env : Env) (db : Database) (conn : Connection) (ws : ℕ) where
  -- What a message may lead to: commands to own servers, and a cache of own servers.
  pub record IsIsolated (reaction : Reaction R) : Type 0 where
    pub own_servers : All (λ d. IsOwnServer env db conn d.0) reaction.sent
    pub own_cache : IsOwnCache env db conn reaction.state.authorized_servers

  module _ (server_id action id : Text) (streaming : Bool) (st : ClientState)
      (own : IsOwnServer env db conn server_id)
      (cached : IsOwnCache env db conn st.authorized_servers) where
    after_audit-IsIsolated :
        (r : R) (o : Outcome (Unit {0})) (s : Session)
        → IsIsolated (after_audit env db conn ws server_id action id streaming r st (o, s))
    unfolding after_audit
    after_audit-IsIsolated r (ok u) s = record { own_servers = (own, tt); own_cache = cached }
    after_audit-IsIsolated r (http n d) s = record { own_servers = (own, tt); own_cache = cached }
    after_audit-IsIsolated r (crash e) s = record { own_servers = (own, tt); own_cache = cached }

    after_send-IsIsolated :
        (audited : Bool) (send : Outcome R)
        → IsIsolated (after_send env db conn ws server_id action id streaming audited send st)
    unfolding after_send
    after_send-IsIsolated audited (ok r) =
        let entry : Outcome (Unit {0}) × Session =
          (if audited
            then audit_command env conn server_id action (new_session db)
            else (ok tt, new_session db)) in
        after_audit-IsIsolated r entry.0 entry.1
    after_send-IsIsolated audited (http n d) = record {
      own_servers = (own, tt);
      own_cache = cached;
    }
    after_send-IsIsolated audited (crash e) = record { own_servers = (own, tt); own_cache = cached }

  dispatch-IsIsolated :
      (server_id action id : Text) (streaming : Bool) (send : Outcome R) (st : ClientState)
      (gate : Outcome (Option String))
      → IsOwnServer env db conn server_id
      → IsOwnCache env db conn st.authorized_servers
      → IsIsolated (dispatch env db conn ws server_id action id streaming send st gate)
  unfolding dispatch
  dispatch-IsIsolated server_id action id streaming send st (http n d) own cached = record {
    own_servers = tt;
    own_cache = cached;
  }
  dispatch-IsIsolated server_id action id streaming send st (crash e) own cached = record {
    own_servers = tt;
    own_cache = cached;
  }
  dispatch-IsIsolated server_id action id streaming send st (ok (some name)) own cached = record {
    own_servers = tt;
    own_cache = cached;
  }
  dispatch-IsIsolated server_id action id true send st (ok none) own cached =
      after_send-IsIsolated server_id action id true _ own cached (not (action == [])) send
  dispatch-IsIsolated server_id action id false send st (ok none) own cached =
      after_send-IsIsolated server_id action id false st own cached (not (action == [])) send

  if-IsIsolated :
      (b : Bool) {x y : Reaction R}
      → (b ≡ true → IsIsolated x)
      → (b ≡ false → IsIsolated y)
      → IsIsolated (if b then x else y)
  if-IsIsolated true yes_x no_y = yes_x refl
  if-IsIsolated false yes_x no_y = no_y refl

  on_command-IsIsolated :
      (fresh : Text) (send : Outcome R) (c : Command) (st : ClientState)
      → IsOwnCache env db conn st.authorized_servers
      → IsIsolated (on_command env db conn ws fresh send c st)
  unfolding on_command
  on_command-IsIsolated fresh send c st cached =
      let kept = authorize-IsOwnCache env db conn c.server_id st.authorized_servers cached in
      if-IsIsolated (not (authorize env db conn c.server_id st.authorized_servers).0)
        (λ _. record { own_servers = tt; own_cache = kept })
        (λ a.
          dispatch-IsIsolated _ _ _ _ send _ _
            (authorize-IsOwnServer env db conn c.server_id st.authorized_servers cached
              (ground (arith, a)))
            kept)

  on_terminal_open-IsIsolated :
      (fresh : Text) (send : Outcome R) (server_id id : Option Text) (st : ClientState)
      → IsOwnCache env db conn st.authorized_servers
      → IsIsolated (on_terminal_open env db conn ws fresh send server_id id st)
  unfolding on_terminal_open
  on_terminal_open-IsIsolated fresh send server_id id st cached =
      let kept = authorize-IsOwnCache env db conn server_id st.authorized_servers cached in
      if-IsIsolated (not (authorize env db conn server_id st.authorized_servers).0)
        (λ _. record { own_servers = tt; own_cache = kept })
        (λ a.
          dispatch-IsIsolated _ _ _ _ send _ _
            (authorize-IsOwnServer env db conn server_id st.authorized_servers cached
              (ground (arith, a)))
            kept)

  on_terminal_action-IsIsolated :
      (online told : Bool) (action : Text) (server_id session_id : Option Text) (st : ClientState)
      → IsOwnCache env db conn st.authorized_servers
      → IsIsolated (on_terminal_action env db conn ws online told action server_id session_id st)
  unfolding on_terminal_action
  on_terminal_action-IsIsolated online told action server_id session_id st cached =
      let kept = authorize-IsOwnCache env db conn server_id st.authorized_servers cached in
      if-IsIsolated (not (is_given server_id) || not (is_given session_id))
        (λ _. record { own_servers = tt; own_cache = cached })
        (λ _.
          if-IsIsolated (not (authorize env db conn server_id st.authorized_servers).0)
            (λ _. record { own_servers = tt; own_cache = kept })
            (λ a.
              if-IsIsolated online
                (λ _. record {
                  own_servers = (
                    authorize-IsOwnServer env db conn server_id st.authorized_servers cached
                        (ground (arith, a)),
                    tt,
                  );
                  own_cache = kept;
                })
                (λ _.
                  if-IsIsolated told (λ _. record { own_servers = tt; own_cache = kept })
                    (λ _. record { own_servers = tt; own_cache = kept }))))

  -- With a cache of own servers, a message leads only to commands to servers in the caller's own
  -- schema, of the caller's team unless a platform owner is calling, and leaves such a cache.
  pub on_message-IsIsolated :
      (fresh : Text) (send : Outcome R) (online : Bool) (message : ClientMessage) (st : ClientState)
      → IsOwnCache env db conn st.authorized_servers
      → IsIsolated (on_message env db conn ws fresh send online message st)
  unfolding on_message on_terminal_close
  on_message-IsIsolated fresh send online (command c) st cached =
      on_command-IsIsolated fresh send c st cached
  on_message-IsIsolated fresh send online (terminal_open server_id id) st cached =
      on_terminal_open-IsIsolated fresh send server_id id st cached
  on_message-IsIsolated fresh send online (terminal_input server_id session_id) st cached =
      on_terminal_action-IsIsolated online true _ server_id session_id st cached
  on_message-IsIsolated fresh send online (terminal_resize server_id session_id) st cached =
      on_terminal_action-IsIsolated online false _ server_id session_id st cached
  on_message-IsIsolated fresh send online (terminal_close server_id none) st cached =
      on_terminal_action-IsIsolated online false _ server_id none _ cached
  on_message-IsIsolated fresh send online (terminal_close server_id (some [])) st cached =
      on_terminal_action-IsIsolated online false _ server_id (some []) _ cached
  on_message-IsIsolated fresh send online (terminal_close server_id (some (c ∷ cs))) st cached =
      on_terminal_action-IsIsolated online false _ server_id (some (c ∷ cs)) _ cached
