-- ===== src/Hub/Watch/Disconnect.antt =====
-- The clean-up of a client that has gone, and the runs of the two dictionaries: each websocket is
-- opened once, and only an opened one sends messages.
use server_deck_backend.Base.{
  ℕ, ◌≡◌, refl, ap, Bool, true, List, [], ◌∷◌, ◌==◌, nat_eq, text_eq, contains, discard, Option,
  none, some, arith, eq_of_==, ==-sym, not, ◌&&◌, ◌≢◌,
}
use server_deck_backend.Base.Text.{Text}
use server_deck_backend.Base.Dicts.{Dict, get_set}
use server_deck_backend.Hub.Watch.{
  Watch, empty, open_client, watch, unwatch, forward, leave, leave_all, disconnect,
}
use server_deck_backend.Hub.Watch.Laws.{
  IsTracked, watches_key, knows_key, contains-discard, contains-put, get_set-pop, contains-select,
  open_client-IsTracked, watch-IsTracked, unwatch-IsTracked, forward-IsTracked,
}

-- One round takes `ws` out of the one set.
leave-contains :
    (ws : ℕ) (key : Text) (d : Dict Text (List ℕ)) (other : ℕ) (j : Text)
    → contains other (get_set (leave ws key d) j)
      ≡ (not (ws == other && j == key) && contains other (get_set d j))
unfolding leave
leave-contains ws key d other j = go (d key) refl
  where
    in_set :
        (set : List ℕ)
        → d key ≡ some set
        → (left : List ℕ) → discard ws set ≡ left
        → contains other (get_set (leave ws key d) j)
          ≡ (not (ws == other && j == key) && contains other (get_set d j))
    in_set set e [] f = ground (
      arith,
      e,
      f,
      get_set-pop d key j,
      ap (contains other) f,
      contains-discard ws other set,
      eq_of_== j key,
    )
    in_set set e (x ∷ xs) f = ground (
      arith,
      e,
      f,
      contains-put d key (x ∷ xs) other j,
      ap (contains other) f,
      contains-discard ws other set,
      eq_of_== j key,
    )

    go :
        (o : Option (List ℕ))
        → d key ≡ o
        → contains other (get_set (leave ws key d) j)
          ≡ (not (ws == other && j == key) && contains other (get_set d j))
    go none e = ground (arith, eq_of_== j key, e)
    go (some set) e = in_set set e (discard ws set) refl

leave_all-contains :
    (ws : ℕ) (keys : List Text) (d : Dict Text (List ℕ)) (other : ℕ) (j : Text)
    → contains other (get_set (leave_all ws keys d) j)
      ≡ (not (ws == other && contains j keys) && contains other (get_set d j))
unfolding leave_all
leave_all-contains ws [] d other j = ground arith
leave_all-contains ws (key ∷ keys) d other j =
    ground
      (arith, leave_all-contains ws keys (leave ws key d) other j, leave-contains ws key d other j)

disconnect-watches :
    (ws : ℕ) (w : Watch) (other : ℕ) (j : Text)
    → watches_key (disconnect ws w) other j
      ≡ (not (ws == other && knows_key w ws j) && watches_key w other j)
unfolding disconnect
disconnect-watches ws w other j = leave_all-contains ws (get_set w.watches ws) w.watchers other j

disconnect-knows :
    (ws : ℕ) (w : Watch) (other : ℕ) (j : Text)
    → knows_key (disconnect ws w) other j ≡ (not (other == ws) && knows_key w other j)
unfolding disconnect
disconnect-knows ws w other j = ground (arith, get_set-pop w.watches ws other)

disconnect-IsTracked : (ws : ℕ) (w : Watch) → IsTracked w → IsTracked (disconnect ws w)
disconnect-IsTracked ws w h other j m = ground (
  arith,
  h other j,
  disconnect-watches ws w other j,
  disconnect-knows ws w other j,
  eq_of_== ws other,
  eq_of_== other ws,
)

-- What a process goes through: a websocket connects once at a time, and sends while it is open.
pub data IsReachable : Watch → Type 0 where
  started : IsReachable empty
  connected :
      {w : Watch} (ws : ℕ) → IsReachable w → w.watches ws ≡ none → IsReachable (open_client ws w)
  watched :
      {w : Watch} (ws : ℕ) (key : Text) {keys : List Text}
      → IsReachable w
      → w.watches ws ≡ some keys
      → IsReachable (watch ws key w).1
  unwatched :
      {w : Watch} (ws : ℕ) (key : Text) {keys : List Text}
      → IsReachable w
      → w.watches ws ≡ some keys
      → IsReachable (unwatch ws key w).1
  forwarded :
      {w : Watch} (alive : ℕ → Bool) (key : Text)
      → IsReachable w
      → IsReachable (forward alive key w).1
  disconnected : {w : Watch} (ws : ℕ) → IsReachable w → IsReachable (disconnect ws w)

pub IsReachable-IsTracked : {w : Watch} → IsReachable w → IsTracked w
IsReachable-IsTracked started = λ ws key m. ground (arith, m)
IsReachable-IsTracked (connected {w} ws r fresh) =
    open_client-IsTracked ws w fresh (IsReachable-IsTracked r)
IsReachable-IsTracked (watched {w} ws key r opened) =
    watch-IsTracked ws key w opened (IsReachable-IsTracked r)
IsReachable-IsTracked (unwatched {w} ws key r opened) =
    unwatch-IsTracked ws key w opened (IsReachable-IsTracked r)
IsReachable-IsTracked (forwarded {w} alive key r) =
    forward-IsTracked alive key w (IsReachable-IsTracked r)
IsReachable-IsTracked (disconnected {w} ws r) = disconnect-IsTracked ws w (IsReachable-IsTracked r)

-- After any run of the process, the clean-up of a websocket takes it out of every set and leaves
-- the other websockets where they are.
pub disconnect-watches_key :
    {w : Watch} (ws : ℕ)
    → IsReachable w
    → (other : ℕ) (key : Text)
    → watches_key (disconnect ws w) other key ≡ (not (other == ws) && watches_key w other key)
disconnect-watches_key {w} ws r other key = ground (
  arith,
  IsReachable-IsTracked r ws key,
  disconnect-watches ws w other key,
  ==-sym ws other,
  eq_of_== other ws,
)

-- A message for `key` is delivered to the living websockets that watch it, and to no other.
pub forward-delivered :
    (alive : ℕ → Bool) (key : Text) (w : Watch) (ws : ℕ)
    → contains ws (forward alive key w).0 ≡ (alive ws && watches_key w ws key)
unfolding forward
forward-delivered alive key w ws = go (w.watchers key) refl
  where
    go :
        (o : Option (List ℕ))
        → w.watchers key ≡ o
        → contains ws (forward alive key w).0 ≡ (alive ws && watches_key w ws key)
    go none e = ground (arith, e)
    go (some set) e = ground (arith, e, contains-select alive ws set)

-- After any run of the process, whoever gets a message for `key` is a connected websocket.
pub forward-connected :
    {w : Watch}
    → IsReachable w
    → (alive : ℕ → Bool) (key : Text) (ws : ℕ) → contains ws (forward alive key w).0 ≡ true
    → w.watches ws ≢ none
forward-connected {w} r alive key ws m closed =
    ground (arith, m, closed, forward-delivered alive key w ws, IsReachable-IsTracked r ws key)
