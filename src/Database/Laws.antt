-- ===== src/Database/Laws.antt =====
-- Laws of actions on a database session.
use server_deck_backend.Base.{
  String, ◌≡◌, refl, ap, sym, subst, [], ◌≢◌, some, arith, ==-refl, text_eq,
}
use server_deck_backend.Base.Text.{Text}
use server_deck_backend.Base.Outcome.{Outcome, ok, http, crash}
use server_deck_backend.Database.{
  Database, Tables, set_search_path, tables, put_tables, Session, Action, ◌>>=◌, proceed,
  run_request, close_session,
}
use server_deck_backend.Tenant.SchemaName.{validate_schema_name}

-- A chain that returned: its first action returned, and the rest returned from there.
pub >>=-returned {ℓ κ} :
    {A : Type ℓ} {B : Type κ} (m : Action A) (f : A → Action B) (s : Session) {b : B}
    → ((m >>= f) s).0 ≡ ok b
    → (a : A) × ((m s).0 ≡ ok a) × ((f a (m s).1).0 ≡ ok b)
>>=-returned {A} {B} m f s {b} h = go (m s).0 (m s).1 h
  where
    go :
        (r : Outcome A) (s' : Session)
        → (proceed r f s').0 ≡ ok b
        → (a : A) × (r ≡ ok a) × ((f a s').0 ≡ ok b)
    go (ok a) s' e = (a, refl, e)
    go (http n d) s' e = cc
    go (crash x) s' e = cc

-- A chain whose first action returned goes on from there.
pub >>=-ok {ℓ κ} :
    {A : Type ℓ} {B : Type κ} (m : Action A) (f : A → Action B) (s : Session) {a : A} {s' : Session}
    → m s ≡ (ok a, s')
    → (m >>= f) s ≡ f a s'
>>=-ok m f s e = ap (λ p. proceed p.0 f p.1) e

-- A chain whose first action raised an exception ends with it.
pub >>=-crash {ℓ κ} :
    {A : Type ℓ} {B : Type κ} (m : Action A) (f : A → Action B) (s : Session) {e : String}
    {s' : Session}
    → m s ≡ (crash e, s')
    → (m >>= f) s ≡ (crash e, s')
>>=-crash m f s e = ap (λ p. proceed p.0 f p.1) e

-- A request that raised before it committed leaves the database as it was, and sends no mail.
pub run_request-raised {ℓ} :
    {A : Type ℓ} (handler : Action A) (schema : Text) (db : Database)
    → ((handler
          (record { committed = db; current = db; search_path = schema; mails = [] })).1.committed
        ≡ db)
    → ((a : A) → (run_request handler schema db).0 ≢ ok a)
    → (run_request handler schema db).1 ≡ db
unfolding run_request close_session
run_request-raised {A} handler schema db h bad = go (handler _).0 (handler _).1 h bad
  where
    go :
        (r : Outcome A) (s' : Session)
        → s'.committed ≡ db
        → ((a : A) → (close_session (r, s')).0 ≢ ok a)
        → (close_session (r, s')).1 ≡ db
    go (ok a) s' e never = absurd (never a refl)
    go (http n d) s' e never = e
    go (crash x) s' e never = e

-- A search path that was set is the name that was given.
pub set_search_path-path :
    (schema : Text) (s : Session) {a : Unit {0}}
    → (set_search_path schema s).0 ≡ ok a
    → (set_search_path schema s).1 ≡ record s { search_path = schema }
unfolding set_search_path validate_schema_name
set_search_path-path schema s h = ground arith

pub tables-current :
    (s : Session) {t : Tables}
    → (tables s).0 ≡ ok t
    → (s.current.tenants s.search_path ≡ some t) × ((tables s).1 ≡ s)
unfolding tables
tables-current s h = (ground arith, ground arith)

-- Reading the tables of a tenant, and reading what was written.
pub tables-read :
    (s : Session) {t : Tables} → s.current.tenants s.search_path ≡ some t → tables s ≡ (ok t, s)
unfolding tables
tables-read s seen = rw (seen, tables)

pub put_tables-read :
    (t : Tables) (s : Session)
    → (put_tables t s).1.current.tenants (put_tables t s).1.search_path ≡ some t
unfolding put_tables
put_tables-read t s = rw (==-refl s.search_path)

-- What holds after a chain that returned, from what holds after its second half.
pub >>=-keeps {ℓ κ μ} :
    {A : Type ℓ} {B : Type κ} (Q : Session → Type μ) (m : Action A) (f : A → Action B) (s : Session)
    {b : B}
    → ((m >>= f) s).0 ≡ ok b
    → ((a : A) → (m s).0 ≡ ok a → (f a (m s).1).0 ≡ ok b → Q (f a (m s).1).1)
    → Q ((m >>= f) s).1
>>=-keeps Q m f s h k =
    let (a, e, h1) = >>=-returned m f s h in
    subst (λ r. Q r.1) (sym (>>=-ok m f s (ap (λ r. (r, (m s).1)) e))) (k a e h1)
