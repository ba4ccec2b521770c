-- ===== src/Hub/Agents/Welcome.antt =====
-- Who is let in: the other direction of `agent_hello-IsAgentOf`.
use server_deck_backend.Base.{
  ℕ, ◌≡◌, ap, ◌∙◌, Bool, true, [], ◌∷◌, ◌==◌, nat_eq, text_eq, Option, some, select,
}
use server_deck_backend.Base.Text.{Text, strip}
use server_deck_backend.Base.Outcome.{ok, scalar_one_or_none}
use server_deck_backend.Models.{Server, AgentTokenMapping}
use server_deck_backend.Database.{
  Session, Tables, commit, tables, put_tables, public_tables, set_search_path,
}
use server_deck_backend.Database.Laws.{>>=-ok, tables-read}
use server_deck_backend.Tenant.SchemaName.{validate_schema_name}
use server_deck_backend.Auth.Env.{Env}
use server_deck_backend.Hub.Agents.{
  closed, welcome, find_mapping, find_server_by_token, mark_online, welcome_server, hello_in_schema,
  hello_with, agent_hello, agent_token_of,
}

module _ (env : Env) (s : Session) (c : ℕ) (cs : Text) (stripped : strip (c ∷ cs) ≡ c ∷ cs) where
  abbrev token : Text
  token = c ∷ cs

  find_mapping-run :
      {mapping : Option AgentTokenMapping}
      → scalar_one_or_none (select (λ m. m.agent_token == token) s.current.agent_tokens)
        ≡ ok mapping
      → find_mapping token s ≡ (ok mapping, s)
  unfolding find_mapping public_tables
  find_mapping-run e = ap (λ o. (o, s)) e

  -- A token without a row in the mapping is refused.
  pub agent_hello-unknown :
      (header : Text)
      → select (λ m. m.agent_token == token) s.current.agent_tokens ≡ []
      → (agent_hello env (some token) header s).0 ≡ ok (closed 4003)
  unfolding agent_hello hello_with hello_in_schema agent_token_of
  agent_hello-unknown header gone = rw stripped (
      ap (λ r. r.0)
        (>>=-ok (find_mapping token) (hello_in_schema env token) s
          (find_mapping-run (ap scalar_one_or_none gone))))

  set_search_path-run :
      (schema : Text)
      → validate_schema_name schema ≡ ok schema
      → set_search_path schema s ≡ (ok tt, record s { search_path = schema })
  unfolding set_search_path
  set_search_path-run schema valid = rw (valid, set_search_path)

  mark_online-run :
      (server_id : Text) (online : Bool) (u : Session) (t : Tables)
      → u.current.tenants u.search_path ≡ some t
      → (mark_online env server_id online u).0 ≡ ok tt
  unfolding mark_online put_tables
  mark_online-run server_id online u t seen = ap (λ r. r.0) (>>=-ok tables _ u (tables-read u seen))

  welcome_server-run :
      (schema : Text) (server : Server) (u : Session) (t : Tables)
      → u.current.tenants u.search_path ≡ some t
      → (welcome_server env token schema (some server) u).0
        ≡ ok (welcome (env.uuid.show server.id) token schema)
  unfolding welcome_server commit
  welcome_server-run schema server u t seen =
      ap (λ r. r.0)
        (>>=-ok (mark_online env (env.uuid.show server.id) true) (λ _. _) u
          (ap (λ o. (o, (mark_online env (env.uuid.show server.id) true u).1))
            (mark_online-run (env.uuid.show server.id) true u t seen)))

  -- A token of one row of the mapping and of one server in that row's schema is welcomed as the
  -- agent of that server.
  pub agent_hello-known :
      (header : Text) (mapping : AgentTokenMapping) (t : Tables) (server : Server)
      → select (λ m. m.agent_token == token) s.current.agent_tokens ≡ mapping ∷ []
      → validate_schema_name mapping.schema_name ≡ ok mapping.schema_name
      → s.current.tenants mapping.schema_name ≡ some t
      → select (λ v. v.agent_token == token) t.servers ≡ server ∷ []
      → (agent_hello env (some token) header s).0
        ≡ ok (welcome (env.uuid.show server.id) token mapping.schema_name)
  unfolding agent_hello hello_with hello_in_schema agent_token_of find_server_by_token
  agent_hello-known header mapping t server mapped valid seen row = rw stripped (
      ap (λ r. r.0)
        (>>=-ok (find_mapping token) (hello_in_schema env token) s
            (find_mapping-run (ap scalar_one_or_none mapped))
          ∙ >>=-ok (set_search_path mapping.schema_name) (λ _. _) s
              (set_search_path-run mapping.schema_name valid)
          ∙ >>=-ok (find_server_by_token token) (welcome_server env token mapping.schema_name)
              in_schema
              (>>=-ok tables _ in_schema (tables-read in_schema seen)
                ∙ ap (λ l. (scalar_one_or_none l, in_schema)) row))
      ∙ welcome_server-run mapping.schema_name server in_schema t seen)
    where
      in_schema : Session
      in_schema = record s { search_path = mapping.schema_name }
