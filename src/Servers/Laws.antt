-- ===== src/Servers/Laws.antt =====
-- The agent of a server that was created.
use server_deck_backend.Base.{
  ℕ, ◌≡◌, ◌≢◌, refl, ap, ◌∙◌, true, false, not, List, [], ◌∷◌, ◌==◌, nat_eq, text_eq, Option, none,
  some, any, ==-refl, All, select, update_where, Option-cases, Bool-cases, inl, inr, arith, map,
}
use server_deck_backend.Base.Rows.{select-delete_where_self, select-delete_where_other}
use server_deck_backend.Base.Text.{Text, codes}
use server_deck_backend.Base.Outcome.{ok}
use server_deck_backend.Models.{User, Server, AgentTokenMapping, AuditLog}
use server_deck_backend.Database.{
  Session, Tables, ◌>>◌, commit, tables, put_tables, public_tables, put_public, with_tables,
}
use server_deck_backend.Database.Laws.{>>=-ok, tables-read}
use server_deck_backend.Auth.Login.{record_audit}
use server_deck_backend.Folders.{has_folder}
use server_deck_backend.Servers.{add_server, add_mapping, new_server, create_server, without_server}

-- What `record_audit` leaves: the entry is in the tables, and everything is committed.
abbrev pub audited : ℕ → Option ℕ → Text → Tables → Tables
audited user_id server_id action t = record t {
  audit_logs = record { user_id = user_id; server_id = server_id; action = action } ∷ t.audit_logs;
}

abbrev pub committed_with : Session → Tables → Session
committed_with s t = record s {
  current = with_tables s.current s.search_path t;
  committed = with_tables s.current s.search_path t;
}

pub record_audit-run :
    (user_id : ℕ) (server_id : Option ℕ) (action : Text) (s : Session) (t : Tables)
    → s.current.tenants s.search_path ≡ some t
    → record_audit user_id server_id action s
      ≡ (ok tt, committed_with s (audited user_id server_id action t))
unfolding record_audit put_tables commit
record_audit-run user_id server_id action s t seen =
    >>=-ok tables (λ t. put_tables (audited user_id server_id action t) >> commit) s
      (tables-read s seen)

add_server-run :
    (server : Server) (s : Session) (t : Tables)
    → s.current.tenants s.search_path ≡ some t
    → any (λ v. v.agent_token == server.agent_token) t.servers ≡ false
    → has_folder server.folder_id t.folders ≡ true
    → add_server server s ≡ (
      ok tt,
      record s {
        current = with_tables s.current s.search_path (record t { servers = server ∷ t.servers });
      },
    )
unfolding add_server put_tables
add_server-run server s t seen fresh folder =
    >>=-ok tables _ s (tables-read s seen) ∙ rw (fresh, folder)

add_mapping-run :
    (mapping : AgentTokenMapping) (s : Session)
    → any (λ m. m.agent_token == mapping.agent_token) s.current.agent_tokens ≡ false
    → add_mapping mapping s ≡ (
      ok tt,
      record s { current = record s.current { agent_tokens = mapping ∷ s.current.agent_tokens } },
    )
unfolding add_mapping public_tables put_public
add_mapping-run mapping s fresh = rw fresh

module _ (new_id : ℕ) (token schema : Text) (folder_id : Option ℕ) (user : User) (s : Session)
    (t : Tables) (seen : s.current.tenants s.search_path ≡ some t)
    (fresh : any (λ v. v.agent_token == token) t.servers ≡ false)
    (unmapped : any (λ m. m.agent_token == token) s.current.agent_tokens ≡ false)
    (folder : has_folder folder_id t.folders ≡ true) where
  abbrev pub server : Server
  server = new_server new_id token folder_id user

  abbrev pub mapping : AgentTokenMapping
  mapping = record { agent_token = token; schema_name = schema }

  abbrev pub tables_after : Tables
  tables_after =
      audited user.id (some new_id) (codes "server.create")
        (record t { servers = server ∷ t.servers })

  abbrev pub with_server : Session
  with_server = record s {
    current = with_tables s.current s.search_path (record t { servers = server ∷ t.servers });
  }

  abbrev pub with_mapping : Session
  with_mapping = record with_server {
    current = record with_server.current { agent_tokens = mapping ∷ s.current.agent_tokens };
  }

  pub create_server-run :
      create_server new_id token schema folder_id user s
      ≡ (ok server, committed_with with_mapping tables_after)
  unfolding create_server commit
  create_server-run =
      >>=-ok (add_server server) (λ _. _) s (add_server-run server s t seen fresh folder)
      ∙ >>=-ok (add_mapping mapping) (λ _. _) with_server
          (add_mapping-run mapping with_server unmapped)
      ∙ >>=-ok (record_audit user.id (some new_id) (codes "server.create")) (λ _. _) with_mapping
          (record_audit-run user.id (some new_id) (codes "server.create") with_mapping
            (record t { servers = server ∷ t.servers }) (rw (==-refl s.search_path)))

-- An entry of the audit log without its reference to a server.
abbrev pub entry_of : AuditLog → ℕ × Text
entry_of l = (l.user_id, l.action)

abbrev unreferenced : Server → List AuditLog → List AuditLog
unreferenced server logs =
    update_where (λ l. elim l.server_id [ none ↦ false | some id ↦ id == server.id ])
      (λ l. record l { server_id = none }) logs

module _ (user : User) (server : Server) where
  -- The entries of the audit log lose the reference to a deleted server, and nothing else.
  logs-unreferenced :
      (logs : List AuditLog) → All (λ l. l.server_id ≢ some server.id) (unreferenced server logs)
  logs-unreferenced [] = tt
  logs-unreferenced (l ∷ logs) = elim (Option-cases l.server_id) [
    | inl e ↦ rw e ((λ h. cc h), logs-unreferenced logs)
    | inr (id, e) ↦ elim (Bool-cases (id == server.id)) [
      | inl same ↦ rw (e, same) ((λ h. cc h), logs-unreferenced logs)
      | inr other ↦
          rw (e, other) ((λ h. ground (arith, h, ==-refl server.id)), logs-unreferenced logs)
    ]
  ]

  logs-actions :
      (logs : List AuditLog) → map entry_of (unreferenced server logs) ≡ map entry_of logs
  logs-actions [] = refl
  logs-actions (l ∷ logs) = ground (arith, logs-actions logs)

  -- What a deletion has to leave of the tables: neither the server nor a reference to it, the other
  -- servers, all entries of the audit log with two more of the deletion, and the other tables.
  pub record IsWithout (t t' : Tables) : Type 0 where
    pub gone : select (λ v. v.id == server.id) t'.servers ≡ []
    pub others :
        select (λ v. not (v.id == server.id)) t'.servers
        ≡ select (λ v. not (v.id == server.id)) t.servers
    pub no_reference : All (λ l. l.server_id ≢ some server.id) t'.audit_logs
    pub logged :
        map entry_of t'.audit_logs
        ≡ (user.id, codes "server.delete")
          ∷ (user.id, codes "server.delete")
          ∷ map entry_of t.audit_logs
    pub rest : t' ≡ record t { servers = t'.servers; audit_logs = t'.audit_logs }

  pub without_server-IsWithout :
      (t : Tables)
      → IsWithout t
          (without_server user server (audited user.id (some server.id) (codes "server.delete") t))
  without_server-IsWithout t = record {
    gone = select-delete_where_self (λ v. v.id == server.id) t.servers;
    others = select-delete_where_other (λ v. v.id == server.id) t.servers;
    no_reference = (
      (λ h. cc h),
      logs-unreferenced (
          record { user_id = user.id; server_id = some server.id; action = codes "server.delete" }
          ∷ t.audit_logs),
    );
    logged =
        ap (λ l. (user.id, codes "server.delete") ∷ l)
          (logs-actions (
            record { user_id = user.id; server_id = some server.id; action = codes "server.delete" }
            ∷ t.audit_logs));
    rest = refl;
  }
