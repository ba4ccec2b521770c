-- ===== src/Hub/Bridge/Laws.antt =====
-- What becomes of a command's future.
use server_deck_backend.Base.{
  ℕ, ◌<◌, ◌≤◌, ◌≡◌, sym, subst, Bool, nat_eq, text_eq, Option, none, some, arith, eq_of_==, ==-refl,
  inl, inr, Option-cases,
}
use server_deck_backend.Base.Text.{Text}
use server_deck_backend.Base.Dicts.{put, pop}
use server_deck_backend.Hub.Bridge.{Bridge, set_result, resolve_command, begin_command, time_out}

-- Futures are used once: those that are pending or set have been created, those that are pending
-- are not set, and two commands do not share one.
pub record IsFresh {R : Type 0} (b : Bridge R) : Type 0 where
  pub pending_below :
      (id : Text) (future : ℕ) → b.pending_commands id ≡ some future → future < b.next_future
  pub unset_above : (future : ℕ) → b.next_future ≤ future → b.results future ≡ none
  pub pending_unset :
      (id : Text) (future : ℕ) → b.pending_commands id ≡ some future → b.results future ≡ none
  pub apart :
      (id other : Text) (future : ℕ)
      → b.pending_commands id ≡ some future
      → b.pending_commands other ≡ some future
      → id ≡ other

module _ {R : Type 0} where
  pub begin_command-IsFresh :
      (alive : ℕ → Bool) (agent : Option ℕ) (id : Text) (b : Bridge R)
      → IsFresh b
      → IsFresh (begin_command alive agent id b).1
  unfolding begin_command
  begin_command-IsFresh alive none id b h = h
  begin_command-IsFresh alive (some ws) id b h = record {
    pending_below = λ j f e. ground (arith, e, h.pending_below j f);
    unset_above = λ f le. h.unset_above f (omega (arith, le));
    pending_unset = λ j f e. ground (arith, e, h.pending_unset j f, h.unset_above f);
    apart = λ j k f e e'. ground (
      arith,
      e,
      e',
      h.apart j k f,
      h.pending_below j f,
      h.pending_below k f,
      eq_of_== j id,
      eq_of_== k id,
    );
  }

  pub time_out-IsFresh : (id : Text) (b : Bridge R) → IsFresh b → IsFresh (time_out {A = R} id b).1
  unfolding time_out
  time_out-IsFresh id b h = record {
    pending_below = λ j f e. ground (arith, e, h.pending_below j f);
    unset_above = h.unset_above;
    pending_unset = λ j f e. ground (arith, e, h.pending_unset j f);
    apart = λ j k f e e'. ground (arith, e, e', h.apart j k f);
  }

  -- A response whose id is not pending changes nothing but the dictionary's entry.
  pub resolve_command-unknown :
      (id : Text) (r : R) (b : Bridge R)
      → b.pending_commands id ≡ none
      → resolve_command id r b ≡ record b { pending_commands = pop b.pending_commands id }
  unfolding resolve_command set_result
  resolve_command-unknown id r b e = rw (e, set_result)

  pub resolve_command-pending :
      (id : Text) (r : R) (b : Bridge R) (future : ℕ)
      → IsFresh b
      → b.pending_commands id ≡ some future
      → resolve_command id r b ≡ record b {
        pending_commands = pop b.pending_commands id;
        results = put b.results future r;
      }
  unfolding resolve_command set_result
  resolve_command-pending id r b future h e = rw (e, set_result, h.pending_unset id future e)

  forgotten-IsFresh :
      (id : Text) (b : Bridge R)
      → IsFresh b
      → IsFresh (record b { pending_commands = pop b.pending_commands id })
  unfolding time_out
  forgotten-IsFresh id b h = time_out-IsFresh id b h

  answered-IsFresh :
      (id : Text) (r : R) (b : Bridge R) (future : ℕ)
      → IsFresh b
      → b.pending_commands id ≡ some future
      → IsFresh (record b {
        pending_commands = pop b.pending_commands id;
        results = put b.results future r;
      })
  answered-IsFresh id r b future h e = record {
    pending_below = λ j f m. ground (arith, m, h.pending_below j f);
    unset_above = λ f le. ground (arith, le, e, h.pending_below id future, h.unset_above f);
    pending_unset = λ j f m.
        ground
          (arith, m, e, h.pending_unset j f, h.apart j id future, eq_of_== f future, ==-refl id);
    apart = λ j k f m m'. ground (arith, m, m', h.apart j k f);
  }

  pub resolve_command-IsFresh :
      (id : Text) (r : R) (b : Bridge R) → IsFresh b → IsFresh (resolve_command id r b)
  resolve_command-IsFresh id r b h = elim (Option-cases (b.pending_commands id)) [
    | inl e ↦ subst IsFresh (sym (resolve_command-unknown id r b e)) (forgotten-IsFresh id b h)
    | inr (future, e) ↦
        subst IsFresh (sym (resolve_command-pending id r b future h e))
          (answered-IsFresh id r b future h e)
  ]
