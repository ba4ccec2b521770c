-- ===== src/Hub/Client/Laws.antt =====
-- Which servers a client may act on.
use server_deck_backend.Base.{
  ℕ, ◌≡◌, refl, sym, subst, Bool, true, false, List, [], ◌∷◌, ◌==◌, nat_eq, text_eq, string_eq,
  if◌then◌else◌, Option, none, some, select, All, contains, add, arith, eq_of_==, Bool-cases, inl,
  inr, ◌⊎◌,
}
use server_deck_backend.Base.Text.{Text}
use server_deck_backend.Base.Outcome.{Outcome, ok, http, crash, scalar_one_or_none-some}
use server_deck_backend.Models.{Server}
use server_deck_backend.Database.{Database, Tables, set_search_path, tables}
use server_deck_backend.Database.Laws.{>>=-returned, set_search_path-path, tables-current}
use server_deck_backend.Auth.Env.{Env}
use server_deck_backend.Hub.Client.{
  Connection, team_text, new_session, find_own_server, owns_found, owns_id, user_owns_server,
  authorize,
}

-- The server is the one row of its id in the caller's schema, and is of the caller's team unless a
-- platform owner is calling.
pub record IsOwnServer (env : Env) (db : Database) (conn : Connection) (server_id : Text)
    : Type 0 where
  pub id : ℕ
  pub parsed : env.uuid.parse server_id ≡ some id
  pub tenant : Tables
  pub tenant_of : db.tenants conn.schema_name ≡ some tenant
  pub server : Server
  pub row : select (λ s. s.id == id) tenant.servers ≡ server ∷ []
  pub team :
      (conn.is_platform_owner ≡ true) ⊎ (env.uuid.show server.team_id ≡ team_text conn.team_id)

module _ (env : Env) (db : Database) (conn : Connection) where
  find_own_server-some :
      (id : ℕ) {server : Server}
      → (find_own_server conn.schema_name id (new_session db)).0 ≡ ok (some server)
      → (t : Tables) × (db.tenants conn.schema_name ≡ some t)
        × (select (λ s. s.id == id) t.servers ≡ server ∷ [])
  unfolding find_own_server
  find_own_server-some id {server} h =
      let (_, path, h1) =
        >>=-returned (set_search_path conn.schema_name) (λ _. _) (new_session db) h in
      let (t, found, h2) = >>=-returned tables _ _ h1 in
      let moved : (tables (record (new_session db) { search_path = conn.schema_name })).0 ≡ ok t =
        subst (λ s. (tables s).0 ≡ ok t)
          (set_search_path-path conn.schema_name (new_session db) path) found in
      (t, (tables-current _ moved).0, scalar_one_or_none-some _ h2)

  owns_found-true :
      (r : Outcome (Option Server))
      → owns_found env conn r ≡ true
      → (server : Server) × (r ≡ ok (some server))
        × ((conn.is_platform_owner ≡ true)
            ⊎ (env.uuid.show server.team_id ≡ team_text conn.team_id))
  unfolding owns_found
  owns_found-true (http n d) h = cc
  owns_found-true (crash e) h = cc
  owns_found-true (ok none) h = cc
  owns_found-true (ok (some server)) h = (
    server,
    refl,
    elim (Bool-cases conn.is_platform_owner) [
      | inl owner ↦ inl owner
      | inr other ↦ inr (eq_of_== _ _ (ground (arith, h, other)))
    ],
  )

  owns_id-true :
      (o : Option ℕ)
      → owns_id env db conn o ≡ true
      → (id : ℕ) × (o ≡ some id)
        × (owns_found env conn (find_own_server conn.schema_name id (new_session db)).0 ≡ true)
  unfolding owns_id
  owns_id-true none h = cc
  owns_id-true (some id) h = (id, refl, h)

  -- What a server that the caller may act on is.
  pub user_owns_server-IsOwnServer :
      (server_id : Text)
      → user_owns_server env db conn (some server_id) ≡ true
      → IsOwnServer env db conn server_id
  unfolding user_owns_server
  user_owns_server-IsOwnServer [] h = cc
  user_owns_server-IsOwnServer (c ∷ cs) h =
      let (id, parsed, h1) = owns_id-true (env.uuid.parse (c ∷ cs)) h in
      let (server, found, team) = owns_found-true _ h1 in
      let (t, tenant_of, row) = find_own_server-some id found in
      record {
        id = id;
        parsed = parsed;
        tenant = t;
        tenant_of = tenant_of;
        server = server;
        row = row;
        team = team;
      }

  -- The cache has only servers that the caller owns.
  abbrev pub IsOwnCache : List Text → Type 0
  IsOwnCache cache = All (λ server_id. user_owns_server env db conn (some server_id) ≡ true) cache

  IsOwnCache-contains :
      (server_id : Text) (cache : List Text)
      → IsOwnCache cache
      → contains server_id cache ≡ true
      → user_owns_server env db conn (some server_id) ≡ true
  IsOwnCache-contains server_id [] h m = cc
  IsOwnCache-contains server_id (x ∷ xs) (own, h) m = elim (Bool-cases (server_id == x)) [
    | inl e ↦
        subst (λ v. user_owns_server env db conn (some v) ≡ true) (sym (eq_of_== server_id x e)) own
    | inr e ↦ IsOwnCache-contains server_id xs h (ground (arith, m, e))
  ]

  add-IsOwnCache :
      (server_id : Text) (cache : List Text)
      → user_owns_server env db conn (some server_id) ≡ true
      → IsOwnCache cache
      → IsOwnCache (add server_id cache)
  add-IsOwnCache server_id cache own h = elim (Bool-cases (contains server_id cache)) [
    | inl m ↦ rw m h
    | inr m ↦ rw m (own, h)
  ]

  pub authorize-IsOwnCache :
      (server_id : Option Text) (cache : List Text)
      → IsOwnCache cache
      → IsOwnCache (authorize env db conn server_id cache).1
  unfolding authorize user_owns_server
  authorize-IsOwnCache none cache h = h
  authorize-IsOwnCache (some []) cache h = h
  authorize-IsOwnCache (some (c ∷ cs)) cache h =
      go (contains (c ∷ cs) cache) (user_owns_server env db conn (some (c ∷ cs))) refl
    where
      go :
          (known owned : Bool)
          → user_owns_server env db conn (some (c ∷ cs)) ≡ owned
          → IsOwnCache
              (if◌then◌else◌ {A = Bool × List Text} known
                (true, cache)
                (if owned then (true, add (c ∷ cs) cache) else (false, cache))).1
      go true owned e = h
      go false true e = add-IsOwnCache (c ∷ cs) cache e h
      go false false e = h

  pub authorize-owned :
      (server_id : Option Text) (cache : List Text)
      → IsOwnCache cache
      → (authorize env db conn server_id cache).0 ≡ true
      → (name : Text) × (server_id ≡ some name) × (user_owns_server env db conn (some name) ≡ true)
  unfolding authorize user_owns_server
  authorize-owned none cache h m = cc
  authorize-owned (some []) cache h m = cc
  authorize-owned (some (c ∷ cs)) cache h m =
      (c ∷ cs, refl, ground (arith, IsOwnCache-contains (c ∷ cs) cache h, m))
