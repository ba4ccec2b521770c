-- ===== src/Hub/Bridge.antt =====
-- Commands under way: Backend/app/services/command_bridge.py. A future is a number, and `results`
-- holds what it was set to. `send_command_to_agent` is cut at its await: `begin_command` is what
-- comes before, `await_result` and `time_out` what comes after.
pub mod Laws
pub mod Runs
pub mod Commands
use server_deck_backend.Base.{
  ℕ, suc, ◌+◌, Bool, true, false, not, List, [], ◌∷◌, ◌==◌, nat_eq, text_eq, if◌then◌else◌, Option,
  none, some,
}
use server_deck_backend.Base.Text.{Text}
use server_deck_backend.Base.Dicts.{Dict, put, pop}
use server_deck_backend.Base.Outcome.{Outcome, ok, http, crash}

pub record Bridge (R : Type 0) : Type 0 where
  pub pending_commands : Dict Text ℕ
  pub results : Dict ℕ R
  pub next_future : ℕ

abbrev pub idle : {R : Type 0} → Bridge R
idle = record { pending_commands = λ cmd_id. none; results = λ future. none; next_future = 0 }

module _ {R : Type 0} where
  -- `future.done()`
  abbrev pub is_done : Bridge R → ℕ → Bool
  is_done b future = elim (b.results future) [ none ↦ false | some r ↦ true ]

  -- `if future and not future.done(): future.set_result(result)`
  unfoldable pub set_result : Option ℕ → R → Bridge R → Bridge R
  set_result none r b = b
  set_result (some future) r b =
      if not (is_done b future) then record b { results = put b.results future r } else b

  unfoldable pub resolve_command : Text → R → Bridge R → Bridge R
  resolve_command cmd_id r b =
      set_result (b.pending_commands cmd_id) r
        (record b { pending_commands = pop b.pending_commands cmd_id })

  -- `send_command_to_agent` up to the await. `agent` is the entry of `agent_by_server_id`, and
  -- `alive` says on which websockets a send succeeds; an id that is missing or empty was replaced.
  unfoldable pub begin_command : (ℕ → Bool) → Option ℕ → Text → Bridge R → Outcome ℕ × Bridge R
  begin_command alive none cmd_id b = (crash "ConnectionError", b)
  begin_command alive (some ws) cmd_id b =
      let b' : Bridge R = record b {
        pending_commands = put b.pending_commands cmd_id b.next_future;
        next_future = suc b.next_future;
      } in
      (if alive ws then ok b.next_future else crash "WebSocketDisconnect", b')

  -- `await asyncio.wait_for(future, timeout=timeout)` for a future that is set in time.
  unfoldable pub await_result : ℕ → Bridge R → Option R
  await_result future b = b.results future

  -- The handler of the TimeoutError.
  unfoldable pub time_out : {A : Type 0} → Text → Bridge R → Outcome A × Bridge R
  time_out cmd_id b =
      (crash "TimeoutError", record b { pending_commands = pop b.pending_commands cmd_id })
