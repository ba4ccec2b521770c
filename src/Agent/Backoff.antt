-- ===== src/Agent/Backoff.antt =====
-- `AgentConnection.connect` of agent/serverdeck_agent/connection.py: how long the agent waits
-- between its attempts to reach the portal. The clean end of a connection (close codes 1000 and 1001), after which
-- `_listen` returns without an exception and `asyncio.gather` waits for the other two loops, which
-- catch theirs, is the end of the attempts.
use server_deck_backend.Base.{
  ℕ, zero, suc, ◌*◌, ◌≤◌, ◌≡◌, refl, ap, ◌∙◌, List, [], ◌∷◌, if◌then◌else◌, leb, All, arith,
}

pub data Attempt : Type 0 where
  refused lost closed_ok : Attempt

abbrev pub initial_backoff : ℕ
initial_backoff = 5

abbrev pub max_backoff : ℕ
max_backoff = 60

abbrev pub cap : ℕ → ℕ
cap n = if leb n max_backoff then n else max_backoff

-- `self._backoff = min(self._backoff * 2, self._max_backoff)`
unfoldable pub next_backoff : ℕ → ℕ
next_backoff backoff = cap (backoff * 2)

-- The seconds of the sleeps, in order.
unfoldable pub connect : List Attempt → ℕ → List ℕ
connect [] backoff = []
connect (refused ∷ attempts) backoff = backoff ∷ connect attempts (next_backoff backoff)
connect (lost ∷ attempts) backoff =
    initial_backoff ∷ connect attempts (next_backoff initial_backoff)
connect (closed_ok ∷ attempts) backoff = []

-- The sleeps of a row of refused attempts.
abbrev refusals : ℕ → List Attempt
refusals zero = []
refusals (suc n) = refused ∷ refusals n

abbrev pub doubling : ℕ → ℕ → List ℕ
doubling start zero = []
doubling start (suc n) = cap start ∷ doubling (start * 2) n

next-bounds : (backoff : ℕ) → 5 ≤ backoff → (5 ≤ next_backoff backoff) × (next_backoff backoff ≤ 60)
unfolding next_backoff
next-bounds backoff h = ground arith

connect-bounds :
    (attempts : List Attempt) (backoff : ℕ)
    → 5 ≤ backoff
    → backoff ≤ 60
    → All (λ s. (5 ≤ s) × (s ≤ 60)) (connect attempts backoff)
unfolding connect
connect-bounds [] backoff low high = tt
connect-bounds (refused ∷ attempts) backoff low high =
    let (low', high') = next-bounds backoff low in
    ((low, high), connect-bounds attempts (next_backoff backoff) low' high')
connect-bounds (lost ∷ attempts) backoff low high =
    let (low', high') = next-bounds 5 (omega arith) in
    ((omega arith, omega arith), connect-bounds attempts (next_backoff 5) low' high')
connect-bounds (closed_ok ∷ attempts) backoff low high = tt

-- However the attempts to connect end, the agent sleeps between 5 and 60 seconds before the next.
pub connect-IsBounded :
    (attempts : List Attempt) → All (λ s. (5 ≤ s) × (s ≤ 60)) (connect attempts initial_backoff)
connect-IsBounded attempts = connect-bounds attempts 5 (omega arith) (omega arith)

next-cap : (n : ℕ) → next_backoff (cap n) ≡ cap (n * 2)
unfolding next_backoff
next-cap n = ground arith

connect-doubling : (n start : ℕ) → connect (refusals n) (cap start) ≡ doubling start n
unfolding connect
connect-doubling zero start = refl
connect-doubling (suc n) start =
    ap (λ l. cap start ∷ l)
      (ap (connect (refusals n)) (next-cap start) ∙ connect-doubling n (start * 2))

-- The sleeps of a row of refused attempts are 5, 10, 20, … seconds, doubled each time, and each cut
-- to 60 by itself: the loop that cuts what it doubles next agrees with cutting at the end.
connect-refused : (n : ℕ) → connect (refusals n) initial_backoff ≡ doubling initial_backoff n
connect-refused n = connect-doubling n 5
