-- ===== src/Hub/Streams.antt =====
-- Who gets the output of a stream or a terminal: `stream_subscribers` and `client_streams` of
-- Backend/app/ws/client_handler.py, by the id of the command that opened it.
pub mod Laws
use server_deck_backend.Base.{
  ℕ, Bool, true, false, List, [], ◌∷◌, ◌==◌, nat_eq, text_eq, if◌then◌else◌, add, discard, Option,
  none, some,
}
use server_deck_backend.Base.Text.{Text}
use server_deck_backend.Base.Dicts.{Dict, put, pop, get_set}

pub record Streams : Type 0 where
  pub subscribers : Dict Text ℕ
  pub streams : Dict ℕ (List Text)

abbrev pub empty_streams : Streams
empty_streams = record { subscribers = λ id. none; streams = λ ws. none }

-- `client_streams[websocket] = set()` when a client connects.
unfoldable pub open_streams : ℕ → Streams → Streams
open_streams ws s = record s { streams = put s.streams ws [] }

-- `_subscribe_stream`
unfoldable pub subscribe_stream : ℕ → Text → Streams → Streams
subscribe_stream ws id s = record {
  subscribers = put s.subscribers id ws;
  streams = put s.streams ws (add id (get_set s.streams ws));
}

-- `streams.discard(stream_id)` for the one who was subscribed.
unfoldable pub forget_stream : Option ℕ → Text → Dict ℕ (List Text) → Dict ℕ (List Text)
forget_stream none id streams = streams
forget_stream (some ws) id streams = elim (streams ws) [
  | none ↦ streams
  | some ids ↦ put streams ws (discard id ids)
]

-- `_unsubscribe_stream`
unfoldable pub unsubscribe_stream : Text → Streams → Streams
unsubscribe_stream id s = record {
  subscribers = pop s.subscribers id;
  streams = forget_stream (s.subscribers id) id s.streams;
}

-- `forward_to_stream`: the websocket that got the message, if any. `alive` says on which
-- websockets a send succeeds.
unfoldable pub forward_to_stream : (ℕ → Bool) → Text → Streams → Option ℕ × Streams
forward_to_stream alive id s = elim (s.subscribers id) [
  | none ↦ (none, s)
  | some ws ↦
      if alive ws then (some ws, s) else (none, record s { subscribers = pop s.subscribers id })
]

unfoldable pub drop_all : List Text → Dict Text ℕ → Dict Text ℕ
drop_all [] subscribers = subscribers
drop_all (id ∷ ids) subscribers = drop_all ids (pop subscribers id)

-- The clean-up in `finally`, when a client has gone.
unfoldable pub close_streams : ℕ → Streams → Streams
close_streams ws s = record {
  subscribers = drop_all (get_set s.streams ws) s.subscribers;
  streams = pop s.streams ws;
}
