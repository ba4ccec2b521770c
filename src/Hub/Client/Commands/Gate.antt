-- ===== src/Hub/Client/Commands/Gate.antt =====
-- The modules of a user and the commands that they let through.
use server_deck_backend.Base.{
  ℕ, ◌≡◌, refl, ap, ◌∙◌, sym, subst, Bool, true, false, ◌||◌, List, [], ◌∷◌, String, ◌==◌, nat_eq,
  text_eq, string_eq, if◌then◌else◌, Option, none, some, contains, arith, Bool-cases, inl, inr,
}
use server_deck_backend.Base.Text.{Text}
use server_deck_backend.Base.Outcome.{Outcome, ok, http, crash}
use server_deck_backend.Models.{User}
use server_deck_backend.Database.{
  Database, Tables, Session, Action, pure, ◌>>=◌, lift, set_search_path, tables, public_tables,
}
use server_deck_backend.Database.Laws.{>>=-returned, >>=-ok, set_search_path-path, tables-current}
use server_deck_backend.Tenant.SchemaName.{validate_schema_name}
use server_deck_backend.Tenant.Modules.{get_user_resolved_modules}
use server_deck_backend.Auth.Env.{Env}
use server_deck_backend.Auth.CurrentUser.{find_user}
use server_deck_backend.Hub.Client.{Connection, text_of, new_session, authorize}
use server_deck_backend.Hub.Client.Commands.{ClientState, Command, dispatch, on_command}
use server_deck_backend.Hub.Client.Modules.{
  action_modules, find_module, blocked_by, check_module, check_prefix, check_source, check_action,
}

if_false {ℓ} : {A : Type ℓ} (b : Bool) (x y : A) → b ≡ false → (if b then x else y) ≡ y
if_false true x y e = cc
if_false false x y e = refl

or_nil : (b : Bool) (c : ℕ) (cs : Text) → b ≡ false → (b || (c ∷ cs) == []) ≡ false
or_nil true c cs e = cc
or_nil false c cs e = refl

module _ (env : Env) (db : Database) (conn : Connection) where
  -- The module is among those that the user's resolve to; a missing user has every module.
  abbrev pub IsEnabledFor : String → Option User → Type 0
  IsEnabledFor name none = Unit
  IsEnabledFor name (some user) =
      (modules : List String) × (get_user_resolved_modules db.organizations user conn.schema_name
        ≡ ok modules)
      × (contains name modules ≡ true)

  -- The user of the connection, if the row is there, has the module.
  pub record HasModule (name : String) : Type 0 where
    pub tenant : Tables
    pub tenant_of : db.tenants conn.schema_name ≡ some tenant
    pub found : Option User
    pub found_of : find_user env tenant.users conn.user_id ≡ ok found
    pub enabled : IsEnabledFor name found

  blocked_by-none :
      (name : String) (found : Option User) (s : Session)
      → s.current.organizations ≡ db.organizations
      → (blocked_by env conn name found s).0 ≡ ok none
      → IsEnabledFor name found
  unfolding blocked_by public_tables
  blocked_by-none name none s same h = tt
  blocked_by-none name (some user) s same h =
      let (modules, got, h1) =
        >>=-returned
          (lift (get_user_resolved_modules s.current.organizations user conn.schema_name)) _ s h in
      (
        modules,
        subst (λ o. get_user_resolved_modules o user conn.schema_name ≡ ok modules) same got,
        ground (arith, h1),
      )

  check_module-none :
      (name : String) → (check_module env conn name (new_session db)).0 ≡ ok none → HasModule name
  unfolding check_module
  check_module-none name h =
      let (_, path, h1) =
        >>=-returned (set_search_path conn.schema_name) (λ _. _) (new_session db) h in
      let (t, read, h2) = >>=-returned tables _ _ h1 in
      let moved =
        subst (λ s. (tables s).0 ≡ ok t)
          (set_search_path-path conn.schema_name (new_session db) path) read in
      let (found, found_of, h3) = >>=-returned (lift (find_user env t.users conn.user_id)) _ _ h2 in
      record {
        tenant = t;
        tenant_of = (tables-current _ moved).0;
        found = found;
        found_of = found_of;
        enabled =
            blocked_by-none name found _
              (ap (λ u. u.current.organizations)
                ((tables-current _ read).1
                  ∙ set_search_path-path conn.schema_name (new_session db) path))
              h3;
      }

  check_source-none :
      (action : Text) (source blocked : Option String) (s : Session)
      → (check_source env conn action source blocked s).0 ≡ ok none
      → blocked ≡ none
  unfolding check_source
  check_source-none action source none s h = refl
  check_source-none action source (some name) s h = cc

  check_prefix-none :
      (action : Text) (name : String)
      → find_module action_modules action ≡ some name
      → (check_prefix env conn action (new_session db)).0 ≡ ok none
      → HasModule name
  unfolding check_prefix
  check_prefix-none action name e h = check_module-none name (rw (e, check_prefix) at h)

  check_action-none :
      (action : Text) (source : Option String) (name : String)
      → conn.is_platform_owner ≡ false
      → find_module action_modules action ≡ some name
      → (check_action env conn action source (new_session db)).0 ≡ ok none
      → HasModule name
  unfolding check_action find_module
  check_action-none [] source name user e h = cc
  check_action-none (c ∷ cs) source name user e h =
      let chain : Action (Option String) =
        check_prefix env conn (c ∷ cs) >>= check_source env conn (c ∷ cs) source in
      let gated : (chain (new_session db)).0 ≡ ok none =
        ap (λ (m : Action (Option String)). (m (new_session db)).0)
          (sym (
            if_false (conn.is_platform_owner || (c ∷ cs) == []) (pure none) chain
              (or_nil _ c cs user)))
        ∙ h in
      let (blocked, got, h1) =
        >>=-returned (check_prefix env conn (c ∷ cs)) (check_source env conn (c ∷ cs) source)
          (new_session db) gated in
      let open_gate = check_source-none (c ∷ cs) source blocked _ h1 in
      check_prefix-none (c ∷ cs) name e (got ∙ ap ok open_gate)

dispatch-gate :
    {R : Type 0} (env : Env) (db : Database) (conn : Connection) (ws : ℕ)
    (server_id action id : Text) (streaming : Bool) (send : Outcome R) (st : ClientState)
    (gate : Outcome (Option String)) {d : Text × Text} {ds : List (Text × Text)}
    → (dispatch env db conn ws server_id action id streaming send st gate).sent ≡ d ∷ ds
    → gate ≡ ok none
unfolding dispatch
dispatch-gate env db conn ws server_id action id streaming send st (http n x) h = cc
dispatch-gate env db conn ws server_id action id streaming send st (crash e) h = cc
dispatch-gate env db conn ws server_id action id streaming send st (ok (some name)) h = cc
dispatch-gate env db conn ws server_id action id streaming send st (ok none) h = refl

-- A command whose action has the prefix of a module goes to an agent only if the caller is a
-- platform owner, or the user of the connection has the module, or there is no row of that user.
pub on_command-HasModule :
    {R : Type 0} (env : Env) (db : Database) (conn : Connection) (ws : ℕ) (fresh : Text)
    (send : Outcome R) (c : Command) (st : ClientState) (name : String) {d : Text × Text}
    {ds : List (Text × Text)}
    → conn.is_platform_owner ≡ false
    → find_module action_modules (text_of c.action) ≡ some name
    → (on_command env db conn ws fresh send c st).sent ≡ d ∷ ds
    → HasModule env db conn name
unfolding on_command
on_command-HasModule env db conn ws fresh send c st name user e h =
    elim (Bool-cases (authorize env db conn c.server_id st.authorized_servers).0) [
      | inl a ↦
          check_action-none env db conn (text_of c.action) c.source name user e
            (dispatch-gate env db conn ws _ _ _ _ send _ _ (rw (a, on_command) at h))
      | inr a ↦ cc (rw (a, on_command) at h)
    ]

-- A user whose row is gone passes every check of a module, with a connection that was made before.
check_module-deleted :
    (env : Env) (db : Database) (conn : Connection) (name : String) {tenant : Tables}
    → validate_schema_name conn.schema_name ≡ ok conn.schema_name
    → db.tenants conn.schema_name ≡ some tenant
    → find_user env tenant.users conn.user_id ≡ ok none
    → (check_module env conn name (new_session db)).0 ≡ ok none
unfolding check_module set_search_path tables blocked_by
check_module-deleted env db conn name {tenant} valid tenant_of found =
    let moved : set_search_path conn.schema_name (new_session db) ≡ (ok tt, in_schema) =
      rw (valid, set_search_path) in
    let read : tables in_schema ≡ (ok tenant, in_schema) = rw (tenant_of, tables) in
    let search : lift (find_user env tenant.users conn.user_id) in_schema ≡ (ok none, in_schema) =
      rw found in
    ap (λ p. p.0)
      (>>=-ok (set_search_path conn.schema_name) (λ _. _) (new_session db) moved
        ∙ >>=-ok tables _ in_schema read
        ∙ >>=-ok (lift (find_user env tenant.users conn.user_id)) _ in_schema search)
  where
    in_schema : Session
    in_schema = record (new_session db) { search_path = conn.schema_name }
