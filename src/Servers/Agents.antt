-- ===== src/Servers/Agents.antt =====
-- Servers and their agents: what `create_server` and `delete_server` mean for `agent_websocket`.
use server_deck_backend.Base.{
  ℕ, ◌≡◌, refl, ap, sym, subst, ◌∙◌, Bool, true, false, ◌&&◌, List, [], ◌∷◌, ◌==◌, nat_eq, text_eq,
  Option, some, select, any, delete_where, ==-refl,
}
use server_deck_backend.Base.Rows.{select-first, select-delete_where_self}
use server_deck_backend.Base.Text.{Text, codes, strip}
use server_deck_backend.Base.Outcome.{Outcome, ok, crash, scalar_one_or_none}
use server_deck_backend.Models.{User, Server}
use server_deck_backend.Database.{
  Session, Tables, proceed, ◌>>=◌, pure, commit, tables, put_tables, public_tables, put_public,
}
use server_deck_backend.Database.Laws.{>>=-ok, tables-read}
use server_deck_backend.Tenant.SchemaName.{validate_schema_name}
use server_deck_backend.Auth.Env.{Env}
use server_deck_backend.Auth.Login.{record_audit}
use server_deck_backend.Folders.{has_folder}
use server_deck_backend.Hub.Client.{new_session}
use server_deck_backend.Hub.Agents.{agent_hello, welcome, closed}
use server_deck_backend.Hub.Agents.Welcome.{agent_hello-known, agent_hello-unknown}
use server_deck_backend.Servers.{
  new_server, create_server, find_server, get_server, server_or_404, delete_mapping, delete_row,
  delete_server, told_to_uninstall, without_server,
}
use server_deck_backend.Servers.Laws.{
  create_server-run, record_audit-run, audited, committed_with, tables_after, IsWithout,
  without_server-IsWithout,
}

-- A server that is created under a token that no server and no mapping has exists at once, and an
-- agent that connects with the token is welcomed as the agent of that server.
pub create_server-welcome :
    (env : Env) (new_id c : ℕ) (cs : Text) (folder_id : Option ℕ) (user : User) (header : Text)
    (s : Session) (t : Tables)
    → s.current.tenants s.search_path ≡ some t
    → any (λ v. v.agent_token == c ∷ cs) t.servers ≡ false
    → any (λ m. m.agent_token == c ∷ cs) s.current.agent_tokens ≡ false
    → has_folder folder_id t.folders ≡ true
    → strip (c ∷ cs) ≡ c ∷ cs
    → validate_schema_name s.search_path ≡ ok s.search_path
    → ((create_server new_id (c ∷ cs) s.search_path folder_id user s).0
        ≡ ok (new_server new_id (c ∷ cs) folder_id user))
      × ((agent_hello env (some (c ∷ cs)) header (
            new_session
              (create_server new_id (c ∷ cs) s.search_path folder_id user s).1.committed)).0
          ≡ ok (welcome (env.uuid.show new_id) (c ∷ cs) s.search_path))
create_server-welcome env new_id c cs folder_id user header s t seen fresh unmapped folder stripped
      valid =
    let run =
      create_server-run new_id (c ∷ cs) s.search_path folder_id user s t seen fresh unmapped
        folder in
    (
      ap (λ r. r.0) run,
      subst
          (λ db.
            (agent_hello env (some (c ∷ cs)) header (new_session db)).0
            ≡ ok (welcome (env.uuid.show new_id) (c ∷ cs) s.search_path))
          (ap (λ r. r.1.committed) (sym run))
          (agent_hello-known env _ c cs stripped header
            (record { agent_token = c ∷ cs; schema_name = s.search_path })
            (tables_after new_id (c ∷ cs) s.search_path folder_id user s t seen fresh unmapped
              folder)
            (new_server new_id (c ∷ cs) folder_id user)
            (select-first (λ m. m.agent_token == c ∷ cs) _ s.current.agent_tokens (==-refl (c ∷ cs))
              unmapped)
            valid (rw (==-refl s.search_path))
            (select-first (λ v. v.agent_token == c ∷ cs) _ t.servers (==-refl (c ∷ cs)) fresh)),
    )

module _ (env : Env) (connected : Text → Bool) (server_id : Text) (user : User) (s : Session)
    (t : Tables) (id : ℕ) (server : Server) (seen : s.current.tenants s.search_path ≡ some t)
    (parsed : env.uuid.parse server_id ≡ some id)
    (row : select (λ v. v.id == id && v.team_id == user.team_id) t.servers ≡ server ∷ []) where
  find_server-run : find_server env server_id user s ≡ (ok (some server), s)
  unfolding find_server
  find_server-run =
      rw (parsed, find_server)
        (>>=-ok tables _ s (tables-read s seen) ∙ ap (λ l. (scalar_one_or_none l, s)) row)

  get_server-run : get_server env server_id user s ≡ (ok server, s)
  unfolding get_server server_or_404
  get_server-run = >>=-ok (find_server env server_id user) server_or_404 s find_server-run

  abbrev logged_tables : Tables
  logged_tables = audited user.id (some server.id) (codes "server.delete") t

  abbrev logged : Session
  logged = committed_with s logged_tables

  abbrev unmapped : Session
  unmapped = record logged {
    current = record logged.current {
      agent_tokens = delete_where (λ m. m.agent_token == server.agent_token) s.current.agent_tokens;
    };
  }

  delete_mapping-run : delete_mapping server.agent_token logged ≡ (ok tt, unmapped)
  unfolding delete_mapping public_tables put_public
  delete_mapping-run = refl

  -- The deletion comes down to that of the row, after the first entry of the audit log.
  delete_server-run :
      (alerting : Bool)
      → delete_server env connected alerting server_id user s
        ≡ (delete_row alerting user server >>= λ _. pure (told_to_uninstall env connected server))
            unmapped
  unfolding delete_server
  delete_server-run alerting =
      >>=-ok (get_server env server_id user) (λ _. _) s get_server-run
      ∙ >>=-ok (record_audit user.id (some server.id) (codes "server.delete")) (λ _. _) s
          (record_audit-run user.id (some server.id) (codes "server.delete") s t seen)
      ∙ >>=-ok (delete_mapping server.agent_token) (λ _. _) logged delete_mapping-run

  abbrev deleted : Session
  deleted = committed_with unmapped (without_server user server logged_tables)

  logged_seen : unmapped.current.tenants s.search_path ≡ some logged_tables
  logged_seen = rw (==-refl s.search_path)

  delete_row-run : delete_row false user server unmapped ≡ (ok tt, deleted)
  unfolding delete_row put_tables commit
  delete_row-run = >>=-ok tables _ unmapped (tables-read unmapped logged_seen)

  delete_row-refused : delete_row true user server unmapped ≡ (crash "IntegrityError", unmapped)
  unfolding delete_row
  delete_row-refused = >>=-ok tables _ unmapped (tables-read unmapped logged_seen)

  delete_server-done :
      delete_server env connected false server_id user s
      ≡ (ok (told_to_uninstall env connected server), deleted)
  delete_server-done =
      delete_server-run false
      ∙ >>=-ok (delete_row false user server) (λ _. pure (told_to_uninstall env connected server))
          unmapped delete_row-run

  -- The deletion of a server of the caller's team to which no alert refers succeeds. It commits
  -- tables that have neither the server nor a reference to it in the audit log, but all other
  -- servers, all entries of the audit log with two of the deletion, and the other tables as they
  -- were. From then on an agent that connects with the server's token is refused.
  pub delete_server-closed :
      (c : ℕ) (cs header : Text)
      → server.agent_token ≡ c ∷ cs
      → strip (c ∷ cs) ≡ c ∷ cs
      → ((delete_server env connected false server_id user s).0
          ≡ ok (told_to_uninstall env connected server))
        × (t' : Tables) × ((delete_server env connected false server_id user s).1.committed.tenants
              s.search_path
            ≡ some t')
        × IsWithout user server t t'
        × ((agent_hello env
              (some (c ∷ cs))
              header
              (new_session (delete_server env connected false server_id user s).1.committed)).0
            ≡ ok (closed 4003))
  delete_server-closed c cs header token stripped =
      subst
        (λ (r : Outcome (List Text) × Session).
          (r.0 ≡ ok (told_to_uninstall env connected server))
          × (t' : Tables) × (r.1.committed.tenants s.search_path ≡ some t')
          × IsWithout user server t t'
          × ((agent_hello env (some (c ∷ cs)) header (new_session r.1.committed)).0
              ≡ ok (closed 4003)))
        (sym delete_server-done)
        (
          refl,
          without_server user server logged_tables,
          rw (==-refl s.search_path),
          without_server-IsWithout user server t,
          agent_hello-unknown env (new_session deleted.committed) c cs stripped header (
              subst
                (λ (u : Text).
                  select (λ m. m.agent_token == u)
                    (delete_where (λ m. m.agent_token == server.agent_token) s.current.agent_tokens)
                  ≡ [])
                token
                (select-delete_where_self (λ m. m.agent_token == server.agent_token)
                  s.current.agent_tokens)),
        )

  -- The deletion of a server to which an alert rule or record refers fails after the audit log has
  -- recorded it: the entry is committed, and the server is still there.
  delete_server-alerting :
      ((delete_server env connected true server_id user s).0 ≡ crash "IntegrityError")
      × ((delete_server env connected true server_id user s).1.committed.tenants s.search_path
          ≡ some logged_tables)
  delete_server-alerting =
      subst
        (λ (r : Outcome (List Text) × Session).
          (r.0 ≡ crash "IntegrityError")
          × (r.1.committed.tenants s.search_path ≡ some logged_tables))
        (sym (
          delete_server-run true
          ∙ ap (λ r. proceed r.0 (λ _. pure (told_to_uninstall env connected server)) r.1)
              delete_row-refused))
        (refl, rw (==-refl s.search_path))
