-- ===== src/Hub/Watch.antt =====
-- Who watches what: `server_watchers` with `client_watches`, and `ticket_watchers` with
-- `client_ticket_watches`, of Backend/app/ws/client_handler.py. The code treats both pairs alike:
-- by key the set of websockets, and by websocket the set of keys, for the clean-up.
pub mod Laws
pub mod Disconnect
use server_deck_backend.Base.{
  ℕ, Bool, true, false, List, [], ◌∷◌, ◌==◌, nat_eq, text_eq, if◌then◌else◌, contains, add, discard,
  select, Option, none, some,
}
use server_deck_backend.Base.Text.{Text}
use server_deck_backend.Base.Dicts.{Dict, put, pop, get_set}

pub record Watch : Type 0 where
  pub watchers : Dict Text (List ℕ)
  pub watches : Dict ℕ (List Text)

abbrev pub empty : Watch
empty = record { watchers = λ key. none; watches = λ ws. none }

-- `client_watches[websocket] = set()` when a client connects.
unfoldable pub open_client : ℕ → Watch → Watch
open_client ws w = record w { watches = put w.watches ws [] }

-- The branches "watch" and "subscribe_ticket": the result is false on a KeyError, which is raised
-- after the first set has changed.
unfoldable pub watch : ℕ → Text → Watch → Bool × Watch
watch ws key w =
    let watchers' : Dict Text (List ℕ) = put w.watchers key (add ws (get_set w.watchers key)) in
    elim (w.watches ws) [
      | none ↦ (false, record w { watchers = watchers' })
      | some keys ↦
          (true, record { watchers = watchers'; watches = put w.watches ws (add key keys) })
    ]

-- The branches "unwatch" and "unsubscribe_ticket", for a key that is not empty.
unfoldable pub unwatch : ℕ → Text → Watch → Bool × Watch
unwatch ws key w = elim (w.watchers key) [
  | none ↦ (true, w)
  | some set ↦
      let watchers' : Dict Text (List ℕ) = put w.watchers key (discard ws set) in
      elim (w.watches ws) [
        | none ↦ (false, record w { watchers = watchers' })
        | some keys ↦
            (true, record { watchers = watchers'; watches = put w.watches ws (discard key keys) })
      ]
]

-- One round of the clean-up: the set is deleted when it is empty.
unfoldable pub leave : ℕ → Text → Dict Text (List ℕ) → Dict Text (List ℕ)
leave ws key watchers = elim (watchers key) [
  | none ↦ watchers
  | some set ↦ elim (discard ws set) [ [] ↦ pop watchers key | x ∷ xs ↦ put watchers key (x ∷ xs) ]
]

unfoldable pub leave_all : ℕ → List Text → Dict Text (List ℕ) → Dict Text (List ℕ)
leave_all ws [] watchers = watchers
leave_all ws (key ∷ keys) watchers = leave_all ws keys (leave ws key watchers)

-- The clean-up in `finally`, when a client has gone.
unfoldable pub disconnect : ℕ → Watch → Watch
disconnect ws w = record {
  watchers = leave_all ws (get_set w.watches ws) w.watchers;
  watches = pop w.watches ws;
}

-- `forward_to_watchers` and `forward_to_ticket_watchers`: `alive` says on which websockets a send
-- succeeds. The result has those that got the message; the others are discarded.
unfoldable pub forward : (ℕ → Bool) → Text → Watch → List ℕ × Watch
forward alive key w = elim (w.watchers key) [
  | none ↦ ([], w)
  | some set ↦ (select alive set, record w { watchers = put w.watchers key (select alive set) })
]
