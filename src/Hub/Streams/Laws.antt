-- ===== src/Hub/Streams/Laws.antt =====
-- The invariant of the subscriptions: whoever is subscribed is found by the clean-up.
use server_deck_backend.Base.{
  ℕ, ◌≡◌, refl, sym, subst, Bool, true, false, List, [], ◌∷◌, ◌==◌, nat_eq, text_eq, if◌then◌else◌,
  contains, contains-add, add, discard, Option, none, some, arith, Bool-cases, inl, inr, ◌⊎◌,
  eq_of_==, ==-sym, ==-refl, ◌≢◌,
}
use server_deck_backend.Base.Text.{Text}
use server_deck_backend.Base.Dicts.{Dict, pop, get_set}
use server_deck_backend.Hub.Watch.Laws.{contains-discard, get_set-put, get_set-pop}
use server_deck_backend.Hub.Streams.{
  Streams, empty_streams, open_streams, subscribe_stream, unsubscribe_stream, forget_stream,
  forward_to_stream, drop_all, close_streams,
}

abbrev pub knows_stream : Streams → ℕ → Text → Bool
knows_stream s ws id = contains id (get_set s.streams ws)

-- The clean-up of a websocket finds every stream that goes to it.
abbrev pub IsOwned : Streams → Type 0
IsOwned s = (ws : ℕ) (id : Text) → s.subscribers id ≡ some ws → knows_stream s ws id ≡ true

open_streams-IsOwned :
    (ws : ℕ) (s : Streams) → s.streams ws ≡ none → IsOwned s → IsOwned (open_streams ws s)
unfolding open_streams
open_streams-IsOwned ws s fresh h = λ other j m.
    ground (arith, eq_of_== other ws, h other j m, get_set-put s.streams ws [] other, fresh)

subscribe_stream-IsOwned :
    (ws : ℕ) (id : Text) (s : Streams) → IsOwned s → IsOwned (subscribe_stream ws id s)
unfolding subscribe_stream
subscribe_stream-IsOwned ws id s h = λ other j m. ground (
  arith,
  m,
  h other j,
  eq_of_== other ws,
  ==-refl ws,
  get_set-put s.streams ws (add id (get_set s.streams ws)) other,
  contains-add id j (get_set s.streams ws),
)

forget_stream-contains :
    (o : Option ℕ) (id : Text) (streams : Dict ℕ (List Text)) (other : ℕ) (j : Text)
    → (j == id) ≡ false
    → contains j (get_set (forget_stream o id streams) other) ≡ contains j (get_set streams other)
unfolding forget_stream
forget_stream-contains none id streams other j apart = refl
forget_stream-contains (some ws) id streams other j apart = go (streams ws) refl
  where
    go :
        (o : Option (List Text))
        → streams ws ≡ o
        → contains j (get_set (forget_stream (some ws) id streams) other)
          ≡ contains j (get_set streams other)
    go none e = ground (arith, e)
    go (some ids) e = ground (
      arith,
      e,
      apart,
      eq_of_== other ws,
      ==-sym id j,
      get_set-put streams ws (discard id ids) other,
      contains-discard id j ids,
    )

unsubscribe_stream-IsOwned :
    (id : Text) (s : Streams) → IsOwned s → IsOwned (unsubscribe_stream id s)
unfolding unsubscribe_stream
unsubscribe_stream-IsOwned id s h = λ other j m.
    ground (arith, m, h other j, forget_stream-contains (s.subscribers id) id s.streams other j)

-- A send that fails takes the one subscription away, and touches nothing else.
forward_to_stream-state :
    (alive : ℕ → Bool) (id : Text) (s : Streams)
    → ((forward_to_stream alive id s).1 ≡ s)
      ⊎ ((forward_to_stream alive id s).1 ≡ record s { subscribers = pop s.subscribers id })
unfolding forward_to_stream
forward_to_stream-state alive id s = go (s.subscribers id) refl
  where
    go :
        (o : Option ℕ)
        → s.subscribers id ≡ o
        → ((forward_to_stream alive id s).1 ≡ s)
          ⊎ ((forward_to_stream alive id s).1 ≡ record s { subscribers = pop s.subscribers id })
    go none e = inl (rw (e, forward_to_stream))
    go (some ws) e = elim (Bool-cases (alive ws)) [
      | inl a ↦ inl (rw (e, forward_to_stream, a))
      | inr a ↦ inr (rw (e, forward_to_stream, a))
    ]

pop-IsOwned :
    (id : Text) (s : Streams)
    → IsOwned s
    → IsOwned (record s { subscribers = pop s.subscribers id })
pop-IsOwned id s h = λ other j m. ground (arith, m, h other j)

forward_to_stream-IsOwned :
    (alive : ℕ → Bool) (id : Text) (s : Streams)
    → IsOwned s
    → IsOwned (forward_to_stream alive id s).1
forward_to_stream-IsOwned alive id s h = elim (forward_to_stream-state alive id s) [
  | inl e ↦ subst IsOwned (sym e) h
  | inr e ↦ subst IsOwned (sym e) (pop-IsOwned id s h)
]

drop_all-get :
    (ids : List Text) (d : Dict Text ℕ) (j : Text)
    → drop_all ids d j ≡ (if contains j ids then none else d j)
unfolding drop_all
drop_all-get [] d j = refl
drop_all-get (id ∷ ids) d j = ground (arith, drop_all-get ids (pop d id) j)

close_streams-IsOwned : (ws : ℕ) (s : Streams) → IsOwned s → IsOwned (close_streams ws s)
unfolding close_streams
close_streams-IsOwned ws s h = λ other j m. ground (
  arith,
  m,
  h other j,
  eq_of_== other ws,
  drop_all-get (get_set s.streams ws) s.subscribers j,
  get_set-pop s.streams ws other,
)

-- What a process goes through: a websocket connects once at a time.
pub data IsReachable : Streams → Type 0 where
  started : IsReachable empty_streams
  connected :
      {s : Streams} (ws : ℕ) → IsReachable s → s.streams ws ≡ none → IsReachable (open_streams ws s)
  subscribed :
      {s : Streams} (ws : ℕ) (id : Text) → IsReachable s → IsReachable (subscribe_stream ws id s)
  unsubscribed : {s : Streams} (id : Text) → IsReachable s → IsReachable (unsubscribe_stream id s)
  forwarded :
      {s : Streams} (alive : ℕ → Bool) (id : Text)
      → IsReachable s
      → IsReachable (forward_to_stream alive id s).1
  closed : {s : Streams} (ws : ℕ) → IsReachable s → IsReachable (close_streams ws s)

pub IsReachable-IsOwned : {s : Streams} → IsReachable s → IsOwned s
IsReachable-IsOwned started = λ ws id m. cc
IsReachable-IsOwned (connected {s} ws r fresh) =
    open_streams-IsOwned ws s fresh (IsReachable-IsOwned r)
IsReachable-IsOwned (subscribed {s} ws id r) =
    subscribe_stream-IsOwned ws id s (IsReachable-IsOwned r)
IsReachable-IsOwned (unsubscribed {s} id r) =
    unsubscribe_stream-IsOwned id s (IsReachable-IsOwned r)
IsReachable-IsOwned (forwarded {s} alive id r) =
    forward_to_stream-IsOwned alive id s (IsReachable-IsOwned r)
IsReachable-IsOwned (closed {s} ws r) = close_streams-IsOwned ws s (IsReachable-IsOwned r)

-- After any run of the process, the clean-up of a websocket ends the subscriptions to the ids that
-- it took, those that go to it among them, and leaves the others as they are.
pub close_streams-subscribers :
    {s : Streams} (ws : ℕ)
    → IsReachable s
    → (id : Text)
    → ((close_streams ws s).subscribers id ≢ some ws)
      × ((close_streams ws s).subscribers id
          ≡ (if knows_stream s ws id then none else s.subscribers id))
unfolding close_streams
close_streams-subscribers {s} ws r id = (
  λ m.
      ground (
        arith,
        m,
        drop_all-get (get_set s.streams ws) s.subscribers id,
        IsReachable-IsOwned r ws id,
      ),
  drop_all-get (get_set s.streams ws) s.subscribers id,
)

-- An id that two clients use one after the other: the one who came first takes the subscription
-- of the other along when it goes.
close_streams-taken_over :
    (s : Streams) (ws other : ℕ) (id : Text)
    → (ws == other) ≡ false
    → ((subscribe_stream other id (subscribe_stream ws id s)).subscribers id ≡ some other)
      × ((close_streams ws (subscribe_stream other id (subscribe_stream ws id s))).subscribers id
          ≡ none)
unfolding close_streams subscribe_stream
close_streams-taken_over s ws other id apart = (
  ground (arith, ==-refl id),
  ground (
    arith,
    apart,
    ==-refl ws,
    ==-refl id,
    contains-add id id (get_set s.streams ws),
    drop_all-get (get_set (subscribe_stream other id (subscribe_stream ws id s)).streams ws)
        (subscribe_stream other id (subscribe_stream ws id s)).subscribers id,
  ),
)
