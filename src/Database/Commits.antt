-- ===== src/Database/Commits.antt =====
-- Actions that commit nothing: when they raise, the request leaves the database as it was.
use server_deck_backend.Base.{◌≡◌, ◌≢◌, refl, ◌∙◌, Bool, true, false, if◌then◌else◌, arith}
use server_deck_backend.Base.Text.{Text}
use server_deck_backend.Base.Outcome.{Outcome, ok, http, crash}
use server_deck_backend.Database.{
  Session, Database, Action, Tables, proceed, ◌>>=◌, tables, put_tables, run_request,
}
use server_deck_backend.Database.Laws.{run_request-raised}

abbrev pub CommitsNothing {ℓ} : {A : Type ℓ} → Action A → Type 0
CommitsNothing m = (s : Session) → (m s).1.committed ≡ s.committed

pub >>=-CommitsNothing {ℓ κ} :
    {A : Type ℓ} {B : Type κ} (m : Action A) (f : A → Action B)
    → CommitsNothing m
    → ((a : A) → CommitsNothing (f a))
    → CommitsNothing (m >>= f)
>>=-CommitsNothing {A} m f first next s = go (m s).0 (m s).1 (first s)
  where
    go :
        (r : Outcome A) (s' : Session)
        → s'.committed ≡ s.committed
        → (proceed r f s').1.committed ≡ s.committed
    go (ok a) s' e = next a s' ∙ e
    go (http n d) s' e = e
    go (crash x) s' e = e

pub tables-CommitsNothing : CommitsNothing tables
unfolding tables
tables-CommitsNothing s = ground arith

pub put_tables-CommitsNothing : (t : Tables) → CommitsNothing (put_tables t)
unfolding put_tables
put_tables-CommitsNothing t s = refl

pub if-CommitsNothing {ℓ} :
    {A : Type ℓ} (b : Bool) (m n : Action A)
    → CommitsNothing m
    → CommitsNothing n
    → CommitsNothing (if b then m else n)
if-CommitsNothing true m n first second = first
if-CommitsNothing false m n first second = second

-- A request that raises changes nothing, if its handler commits nothing.
pub run_request-refused {ℓ} :
    {A : Type ℓ} (handler : Action A) (schema : Text) (db : Database)
    → CommitsNothing handler
    → ((a : A) → (run_request handler schema db).0 ≢ ok a)
    → (run_request handler schema db).1 ≡ db
run_request-refused handler schema db keeps never =
    run_request-raised handler schema db (keeps _) never
