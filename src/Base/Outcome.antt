-- ===== src/Base/Outcome.antt =====
-- What a handler returns, and handlers as actions on a state. What was written before a raise
-- stays written in the state; `Database.Session` adds the rollback.
use Prim.Native.Nat.{ℕ}
use Prim.Native.String.{String}
use mathlib.Core.Path.{◌≡◌, refl}
use mathlib.Core.Option.{Option, none, some}
use mathlib.Core.Bool.{Bool, true, false}
use mathlib.Core.List.{List, [], ◌∷◌}

-- `raise_http` is FastAPI's HTTPException; `crash` is any other exception, by its class.
pub data Outcome {ℓ} (A : Type ℓ) : Type ℓ where
  ok : A → Outcome A
  http : ℕ → String → Outcome A
  crash : String → Outcome A

-- SQLAlchemy's `scalar_one_or_none` on the rows of a query.
abbrev pub scalar_one_or_none {ℓ} : {A : Type ℓ} → List A → Outcome (Option A)
scalar_one_or_none [] = ok none
scalar_one_or_none (x ∷ []) = ok (some x)
scalar_one_or_none (x ∷ y ∷ xs) = crash "MultipleResultsFound"

infixl 5 ◌>>=◌ ◌>>◌
abbrev pub ◌>>=◌ {ℓ κ} : {A : Type ℓ} {B : Type κ} → Outcome A → (A → Outcome B) → Outcome B
ok a >>= f = f a
http n d >>= f = http n d
crash e >>= f = crash e

abbrev pub ◌>>◌ {ℓ} : {B : Type ℓ} → Outcome (Unit {0}) → Outcome B → Outcome B
m >> k = m >>= λ _. k

-- An early `raise HTTPException` unless the test holds.
abbrev pub require : Bool → ℕ → String → Outcome (Unit {0})
require true n d = ok tt
require false n d = http n d

-- A chain that returned: both of its halves did.
pub >>=-returned {ℓ κ} :
    {B : Type κ} {b : B} {A : Type ℓ} (first : Outcome A) (second : A → Outcome B)
    → (first >>= second) ≡ ok b
    → (value : A) × (first ≡ ok value) × (second value ≡ ok b)
>>=-returned (crash e) second h = cc
>>=-returned (http n d) second h = cc
>>=-returned (ok value) second h = (value, refl, h)

pub >>=_assoc {ℓ κ μ} :
    {A : Type ℓ} {B : Type κ} {C : Type μ} (m : Outcome A) (f : A → Outcome B) (g : B → Outcome C)
    → (m >>= f >>= g) ≡ (m >>= λ a. f a >>= g)
>>=_assoc (ok a) f g = refl
>>=_assoc (http n d) f g = refl
>>=_assoc (crash e) f g = refl

pub ok-injective {ℓ} : {A : Type ℓ} {a b : A} → ok a ≡ ok b → a ≡ b
ok-injective h = cc

pub scalar_one_or_none-some {ℓ} :
    {A : Type ℓ} (rows : List A) {x : A} → scalar_one_or_none rows ≡ ok (some x) → rows ≡ x ∷ []
scalar_one_or_none-some [] h = cc
scalar_one_or_none-some (y ∷ []) h = cc
scalar_one_or_none-some (y ∷ z ∷ rows) h = cc

pub scalar_one_or_none-none {ℓ} :
    {A : Type ℓ} (rows : List A) → scalar_one_or_none rows ≡ ok none → rows ≡ []
scalar_one_or_none-none [] h = refl
scalar_one_or_none-none (y ∷ []) h = cc
scalar_one_or_none-none (y ∷ z ∷ rows) h = cc
