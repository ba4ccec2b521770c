-- ===== src/Database.antt =====
-- A request's database session: `get_db`, `tenant_session` and `set_search_path` of
-- Backend/app/database.py. A handler is an action on the session. What it writes is seen by its
-- later queries, becomes durable when it commits, and is rolled back if it raises before that.
-- Mails are background tasks, which run only after a response without an exception.
pub mod Laws
pub mod Commits
use server_deck_backend.Base.{
  ℕ, ◌≡◌, refl, Bool, true, false, Option, none, some, List, [], ◌∷◌, String, ◌==◌, text_eq,
  if◌then◌else◌,
}
use server_deck_backend.Base.Text.{Text}
use server_deck_backend.Base.Outcome.{Outcome, ok, http, crash}
use server_deck_backend.Models.{
  User, UserInvite, AuditLog, Organization, PlatformUser, WaitlistRequest, PasswordResetToken,
  Server, ServerFolder, AgentTokenMapping, Ticket, TicketMessage,
}
use server_deck_backend.Tenant.SchemaName.{validate_schema_name}

-- The tables of one tenant's schema.
pub record Tables : Type 0 where
  pub users : List User
  pub invites : List UserInvite
  pub audit_logs : List AuditLog
  pub servers : List Server
  pub folders : List ServerFolder
  pub tickets : List Ticket
  pub ticket_messages : List TicketMessage

-- The tables of the schema "public", and the tenants' schemas by name.
pub record Database : Type 0 where
  pub organizations : List Organization
  pub platform_users : List PlatformUser
  pub waitlist : List WaitlistRequest
  pub reset_tokens : List PasswordResetToken
  pub agent_tokens : List AgentTokenMapping
  pub tenants : Text → Option Tables

-- The mails that are sent, with the texts that the recipient gets.
pub data Mail : Type 0 where
  otp : Text → Text → Mail
  password_reset : Text → Text → Mail
  invitation : Text → Text → Mail
  org_creation : Text → Mail
  access_approved : Text → Mail

pub record Session : Type 0 where
  pub committed : Database
  pub current : Database
  pub search_path : Text
  pub mails : List Mail

abbrev pub Action {ℓ} : Type ℓ → Type ℓ
Action A = Session → Outcome A × Session

abbrev pub proceed {ℓ κ} :
    {A : Type ℓ} {B : Type κ} → Outcome A → (A → Action B) → Session → Outcome B × Session
proceed (ok a) f s = f a s
proceed (http n d) f s = (http n d, s)
proceed (crash e) f s = (crash e, s)

infixl 5 ◌>>=◌ ◌>>◌
abbrev pub ◌>>=◌ {ℓ κ} : {A : Type ℓ} {B : Type κ} → Action A → (A → Action B) → Action B
◌>>=◌ m f s = let (r, s') = m s in proceed r f s'

abbrev pub ◌>>◌ {ℓ} : {B : Type ℓ} → Action (Unit {0}) → Action B → Action B
◌>>◌ m k s = let (r, s') = m s in proceed r (λ _. k) s'

abbrev pub pure {ℓ} : {A : Type ℓ} → A → Action A
pure a s = (ok a, s)

abbrev pub lift {ℓ} : {A : Type ℓ} → Outcome A → Action A
lift r s = (r, s)

abbrev pub raise_http {ℓ} : {A : Type ℓ} → ℕ → String → Action A
raise_http n d s = (http n d, s)

-- `await db.commit()`
unfoldable pub commit : Action (Unit {0})
commit s = (ok tt, record s { committed = s.current })

-- `await set_search_path(db, schema)`: a name that is refused raises a ValueError.
unfoldable pub set_search_path : Text → Action (Unit {0})
set_search_path schema s = elim (validate_schema_name schema) [
  | ok name ↦ (ok tt, record s { search_path = name })
  | http n d ↦ (http n d, s)
  | crash e ↦ (crash e, s)
]

-- The tenant tables that the search path shows: without the schema there are none.
unfoldable pub tables : Action Tables
tables s = elim (s.current.tenants s.search_path) [
  | none ↦ (crash "ProgrammingError", s)
  | some t ↦ (ok t, s)
]

-- The database with other tables in one schema.
abbrev pub with_tables : Database → Text → Tables → Database
with_tables db schema t = record db {
  tenants = λ name. if name == schema then some t else db.tenants name;
}

unfoldable pub put_tables : Tables → Action (Unit {0})
put_tables t s = (ok tt, record s { current = with_tables s.current s.search_path t })

unfoldable pub public_tables : Action Database
public_tables s = (ok s.current, s)

unfoldable pub put_public : Database → Action (Unit {0})
put_public db s = (ok tt, record s { current = db })

-- `background_tasks.add_task(send_…_email, …)`
unfoldable pub send_mail : Mail → Action (Unit {0})
send_mail mail s = (ok tt, record s { mails = mail ∷ s.mails })

-- `get_db` around a handler: commit after a return, roll back after an exception.
unfoldable pub close_session {ℓ} :
    {A : Type ℓ} → Outcome A × Session → Outcome A × Database × List Mail
close_session (ok a, s) = (ok a, s.current, s.mails)
close_session (http n d, s) = (http n d, s.committed, [])
close_session (crash e, s) = (crash e, s.committed, [])

-- A request on a database, in the schema that `resolve_tenant` has found.
unfoldable pub run_request {ℓ} :
    {A : Type ℓ} → Action A → Text → Database → Outcome A × Database × List Mail
unfolding close_session
run_request handler schema db =
    close_session
      (handler (record { committed = db; current = db; search_path = schema; mails = [] }))
