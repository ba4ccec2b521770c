-- ===== src/Hub/Bridge/Commands.antt =====
-- What a caller of `send_command_to_agent` gets, in any history of the process.
use server_deck_backend.Base.{
  ℕ, ◌≡◌, refl, subst, sym, Bool, List, ◌∷◌, ◌++◌, none, some, text_eq, arith, ==-refl,
}
use server_deck_backend.Base.Text.{Text}
use server_deck_backend.Hub.Bridge.{Bridge, idle, await_result, begin_command}
use server_deck_backend.Hub.Bridge.Laws.{IsFresh}
use server_deck_backend.Hub.Bridge.Runs.{
  Event, begins, responds, run, step, run-IsFresh, step-IsFresh, run-answered, run-other,
  run-append, run-overwritten, IsWithout,
}

module _ {R : Type 0} where
  idle-IsFresh : IsFresh (idle {R = R})
  idle-IsFresh = record {
    pending_below = λ id future e. cc;
    unset_above = λ future le. refl;
    pending_unset = λ id future e. refl;
    apart = λ id other future e e'. cc;
  }

  -- The future of the next command.
  abbrev pub future_after : List (Event R) → ℕ
  future_after history = (run history (idle {R = R})).next_future

  -- A command that is begun waits with its own future.
  begins-pending :
      (b : Bridge R) (alive : ℕ → Bool) (ws : ℕ) (id : Text)
      → (step (begins alive (some ws) id) b).pending_commands id ≡ some b.next_future
  unfolding step begin_command
  begins-pending b alive ws id = ground (arith, ==-refl id)

  -- In any history, a command gets the first response that has its id, whatever other commands,
  -- responses and timeouts come before it, and keeps that result whatever comes after.
  pub begins-answered :
      (history before later : List (Event R)) (alive : ℕ → Bool) (ws : ℕ) (id : Text) (r : R)
      → IsWithout id before
      → await_result
          (future_after history)
          (run (begins alive (some ws) id ∷ before ++ responds id r ∷ later) (run history idle))
        ≡ some r
  unfolding run
  begins-answered history before later alive ws id r w =
      let b : Bridge R = run history idle in
      run-answered (step (begins alive (some ws) id) b) id b.next_future before later r
        (step-IsFresh (begins alive (some ws) id) b (run-IsFresh history idle idle-IsFresh))
        (begins-pending b alive ws id) w

  -- In any history, a command whose id another command takes while it waits never gets a result:
  -- no response that comes later, with whatever id, is its own.
  pub begins-overwritten :
      (history before later : List (Event R)) (alive : ℕ → Bool) (ws other : ℕ) (id : Text)
      → IsWithout id before
      → await_result (future_after history) (
          run
            (begins alive (some ws) id ∷ before ++ begins alive (some other) id ∷ later)
            (run history idle))
        ≡ none
  unfolding run
  begins-overwritten history before later alive ws other id w =
      let b : Bridge R = run history idle in
      let b1 : Bridge R = step (begins alive (some ws) id) b in
      let fresh : IsFresh b1 =
        step-IsFresh (begins alive (some ws) id) b (run-IsFresh history idle idle-IsFresh) in
      subst (λ c. await_result b.next_future c ≡ none)
        (sym (run-append before (begins alive (some other) id ∷ later) b1))
        (run-overwritten (run before b1) id b.next_future alive other later
          (run-IsFresh before b1 fresh)
          (run-other before b1 id b.next_future fresh (begins-pending b alive ws id) w))
