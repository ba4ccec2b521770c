-- ===== src/Hub/Agents/Laws.antt =====
-- Who may be an agent, who gets what it sends, and what a second connection does.
use server_deck_backend.Base.{
  ℕ, ◌≡◌, refl, ap, ◌∙◌, subst, Bool, true, [], ◌∷◌, ◌==◌, nat_eq, text_eq, Option, none, some,
  select, contains, arith, ==-refl, eq_of_==,
}
use server_deck_backend.Base.Text.{Text, strip}
use server_deck_backend.Base.Outcome.{ok, scalar_one_or_none, scalar_one_or_none-some}
use server_deck_backend.Models.{Server, AgentTokenMapping}
use server_deck_backend.Database.{Session, Tables, commit, set_search_path, tables, public_tables}
use server_deck_backend.Database.Laws.{>>=-returned, set_search_path-path, tables-current}
use server_deck_backend.Auth.Env.{Env}
use server_deck_backend.Hub.Streams.{forward_to_stream}
use server_deck_backend.Hub.Agents.{
  Agents, welcome, find_mapping, find_server_by_token, mark_online, welcome_server, hello_in_schema,
  hello_with, agent_hello, register_agent, forget_agent, agent_token_of, Channels, on_terminal,
  deliver,
}

-- The token is that of one row of the public mapping, and of one server in the schema of that row.
pub record IsAgentOf (s : Session) (token schema server_id : Text) (env : Env) : Type 0 where
  pub mapping : AgentTokenMapping
  pub mapped : select (λ m. m.agent_token == token) s.current.agent_tokens ≡ mapping ∷ []
  pub schema_of : mapping.schema_name ≡ schema
  pub tenant : Tables
  pub tenant_of : s.current.tenants schema ≡ some tenant
  pub server : Server
  pub row : select (λ v. v.agent_token == token) tenant.servers ≡ server ∷ []
  pub id_of : env.uuid.show server.id ≡ server_id

module _ (env : Env) where
  welcome_server-some :
      (token schema : Text) (found : Option Server) (s : Session) {server_id t n : Text}
      → (welcome_server env token schema found s).0 ≡ ok (welcome server_id t n)
      → (server : Server) × (found ≡ some server)
        × (env.uuid.show server.id ≡ server_id)
        × (token ≡ t)
        × (schema ≡ n)
  unfolding welcome_server
  welcome_server-some token schema none s h = cc
  welcome_server-some token schema (some server) s h =
      let (_, _, h1) = >>=-returned (mark_online env (env.uuid.show server.id) true) (λ _. _) s h in
      let (_, _, h2) = >>=-returned commit (λ _. _) _ h1 in (server, refl, cc, cc, cc)

  find_server_by_token-some :
      (token : Text) (s : Session) {server : Server}
      → (find_server_by_token token s).0 ≡ ok (some server)
      → (t : Tables) × (s.current.tenants s.search_path ≡ some t)
        × (select (λ v. v.agent_token == token) t.servers ≡ server ∷ [])
  unfolding find_server_by_token
  find_server_by_token-some token s h =
      let (t, found, h1) = >>=-returned tables _ s h in
      (t, (tables-current s found).0, scalar_one_or_none-some _ h1)

  hello_in_schema-some :
      (token : Text) (mapping : Option AgentTokenMapping) (s : Session) {server_id t n : Text}
      → scalar_one_or_none (select (λ m. m.agent_token == token) s.current.agent_tokens)
        ≡ ok mapping
      → (hello_in_schema env token mapping s).0 ≡ ok (welcome server_id t n)
      → IsAgentOf s token n server_id env × (token ≡ t)
  unfolding hello_in_schema
  hello_in_schema-some token none s mapped h = cc
  hello_in_schema-some token (some mapping) s mapped h =
      let (_, path, h1) = >>=-returned (set_search_path mapping.schema_name) (λ _. _) s h in
      let (found, searched, h2) = >>=-returned (find_server_by_token token) _ _ h1 in
      let (server, e, id_of, same, schema_of) = welcome_server-some token _ found _ h2 in
      let in_schema : Session = record s { search_path = mapping.schema_name } in
      let read : (find_server_by_token token in_schema).0 ≡ ok (some server) =
        subst (λ u. (find_server_by_token token u).0 ≡ ok (some server))
          (set_search_path-path mapping.schema_name s path) (searched ∙ ap ok e) in
      let (tenant, tenant_of, row) = find_server_by_token-some token in_schema read in
      (
        record {
          mapping = mapping;
          mapped = scalar_one_or_none-some _ mapped;
          schema_of = schema_of;
          tenant = tenant;
          tenant_of = subst (λ name. s.current.tenants name ≡ some tenant) schema_of tenant_of;
          server = server;
          row = row;
          id_of = id_of;
        },
        same,
      )

  -- A connection that is accepted as the agent of a server has shown, but for white space around
  -- it, the token of one row of the mapping, and of one server in the schema of that row.
  pub agent_hello-IsAgentOf :
      (query : Option Text) (header : Text) (s : Session) {server_id token schema : Text}
      → (agent_hello env query header s).0 ≡ ok (welcome server_id token schema)
      → IsAgentOf s token schema server_id env × (strip (agent_token_of query header) ≡ token)
  unfolding agent_hello hello_with find_mapping public_tables
  agent_hello-IsAgentOf query header s {server_id} {token} {schema} h =
      go (agent_token_of query header) h
    where
      go :
          (shown : Text)
          → (hello_with env shown s).0 ≡ ok (welcome server_id token schema)
          → IsAgentOf s token schema server_id env × (strip shown ≡ token)
      go [] e = cc
      go (c ∷ cs) e =
          let (mapping, found, h1) = >>=-returned (find_mapping (strip (c ∷ cs))) _ s e in
          let (is_agent, same) = hello_in_schema-some (strip (c ∷ cs)) mapping s found h1 in
          (subst (λ t. IsAgentOf s t schema server_id env) same is_agent, same)

-- What a terminal shows goes to the subscriber of its id, and to nobody else.
pub on_terminal-private :
    {R : Type 0} (alive : ℕ → Bool) (server_id : Text) (id : Option Text) (h : Channels R) (ws : ℕ)
    → contains ws (on_terminal alive server_id id h).0 ≡ true
    → (name : Text) × (id ≡ some name) × (h.streams.subscribers name ≡ some ws)
unfolding on_terminal deliver forward_to_stream
on_terminal-private alive server_id none h ws m = cc
on_terminal-private alive server_id (some []) h ws m = cc
on_terminal-private alive server_id (some (c ∷ id)) h ws m =
    (c ∷ id, refl, go (h.streams.subscribers (c ∷ id)) refl)
  where
    go :
        (o : Option ℕ)
        → h.streams.subscribers (c ∷ id) ≡ o
        → h.streams.subscribers (c ∷ id) ≡ some ws
    go none e = cc (rw (e, on_terminal, deliver, forward_to_stream) at m)
    go (some x) e = ground (arith, e, m, eq_of_== ws x)

-- The connection `new` of an agent whose connection `old` has not been cleaned up.
abbrev pub reconnected : ℕ → ℕ → Text → Text → Agents → Agents
reconnected old new token server_id a =
    register_agent new token server_id (register_agent old token server_id a)

-- The clean-up of an old connection takes the registration of a new one of the same agent along:
-- commands no longer reach the server although its agent is connected.
pub forget_agent-reconnected :
    (old new : ℕ) (token server_id : Text) (a : Agents)
    → ((reconnected old new token server_id a).agent_by_server_id server_id ≡ some new)
      × ((forget_agent token server_id (reconnected old new token server_id a)).agent_by_server_id
            server_id
          ≡ none)
unfolding forget_agent register_agent
forget_agent-reconnected old new token server_id a =
    (ground (arith, ==-refl server_id), ground (arith, ==-refl server_id))
