-- ===== src/Hub/Bridge/Runs.antt =====
-- Runs of the bridge: any number of commands, responses and timeouts, in any order.
use server_deck_backend.Base.{
  ℕ, ◌<◌, ◌≡◌, ◌≢◌, refl, sym, subst, Bool, false, List, [], ◌∷◌, ◌++◌, ◌==◌, nat_eq, text_eq,
  Option, none, some, arith, eq_of_==, ==-refl, inl, inr, Option-cases, All,
}
use server_deck_backend.Base.Text.{Text}
use server_deck_backend.Hub.Bridge.{Bridge, resolve_command, begin_command, await_result, time_out}
use server_deck_backend.Hub.Bridge.Laws.{
  IsFresh, begin_command-IsFresh, time_out-IsFresh, resolve_command-unknown,
  resolve_command-pending, resolve_command-IsFresh,
}

pub data Event (R : Type 0) : Type 0 where
  begins : (ℕ → Bool) → Option ℕ → Text → Event R
  responds : Text → R → Event R
  expires : Text → Event R

module _ {R : Type 0} where
  abbrev pub event_id : Event R → Text
  event_id (begins alive agent id) = id
  event_id (responds id r) = id
  event_id (expires id) = id

  unfoldable pub step : Event R → Bridge R → Bridge R
  step (begins alive agent id) b = (begin_command alive agent id b).1
  step (responds id r) b = resolve_command id r b
  step (expires id) b = (time_out {A = R} id b).1

  unfoldable pub run : List (Event R) → Bridge R → Bridge R
  run [] b = b
  run (e ∷ es) b = run es (step e b)

  pub step-IsFresh : (e : Event R) (b : Bridge R) → IsFresh b → IsFresh (step e b)
  unfolding step
  step-IsFresh (begins alive agent id) b h = begin_command-IsFresh alive agent id b h
  step-IsFresh (responds id r) b h = resolve_command-IsFresh id r b h
  step-IsFresh (expires id) b h = time_out-IsFresh id b h

  pub run-IsFresh : (es : List (Event R)) (b : Bridge R) → IsFresh b → IsFresh (run es b)
  unfolding run
  run-IsFresh [] b h = h
  run-IsFresh (e ∷ es) b h = run-IsFresh es (step e b) (step-IsFresh e b h)

  -- An event with another id leaves the entry and its future alone.
  step-other :
      (e : Event R) (b : Bridge R) (id : Text) (future : ℕ)
      → IsFresh b
      → b.pending_commands id ≡ some future
      → (id == event_id e) ≡ false
      → ((step e b).pending_commands id ≡ some future)
  unfolding step begin_command time_out
  step-other (begins alive none j) b id future h p apart = p
  step-other (begins alive (some ws) j) b id future h p apart = ground (arith, p, apart)
  step-other (expires j) b id future h p apart = ground (arith, p, apart)
  step-other (responds j r) b id future h p apart = elim (Option-cases (b.pending_commands j)) [
    | inl e ↦
        subst (λ c. c.pending_commands id ≡ some future) (sym (resolve_command-unknown j r b e))
          (ground (arith, p, apart))
    | inr (f, e) ↦
        subst (λ c. c.pending_commands id ≡ some future) (sym (resolve_command-pending j r b f h e))
          (ground (arith, p, apart))
  ]

  -- A future that was set keeps its result.
  step-kept :
      (e : Event R) (b : Bridge R) (future : ℕ) (r : R)
      → IsFresh b
      → b.results future ≡ some r
      → (step e b).results future ≡ some r
  unfolding step begin_command time_out
  step-kept (begins alive none j) b future r h d = d
  step-kept (begins alive (some ws) j) b future r h d = d
  step-kept (expires j) b future r h d = d
  step-kept (responds j r') b future r h d = elim (Option-cases (b.pending_commands j)) [
    | inl e ↦ subst (λ c. c.results future ≡ some r) (sym (resolve_command-unknown j r' b e)) d
    | inr (f, e) ↦
        subst (λ c. c.results future ≡ some r) (sym (resolve_command-pending j r' b f h e))
          (ground (arith, d, e, h.pending_unset j f, eq_of_== future f))
  ]

  pub run-kept :
      (es : List (Event R)) (b : Bridge R) (future : ℕ) (r : R)
      → IsFresh b
      → b.results future ≡ some r
      → (run es b).results future ≡ some r
  unfolding run
  run-kept [] b future r h d = d
  run-kept (e ∷ es) b future r h d =
      run-kept es (step e b) future r (step-IsFresh e b h) (step-kept e b future r h d)

  -- No event of the list has the id.
  abbrev pub IsWithout : Text → List (Event R) → Type 0
  IsWithout id es = All (λ e. (id == event_id e) ≡ false) es

  pub run-other :
      (es : List (Event R)) (b : Bridge R) (id : Text) (future : ℕ)
      → IsFresh b
      → b.pending_commands id ≡ some future
      → IsWithout id es
      → (run es b).pending_commands id ≡ some future
  unfolding run
  run-other [] b id future h p w = p
  run-other (e ∷ es) b id future h p (apart, w) =
      run-other es (step e b) id future (step-IsFresh e b h) (step-other e b id future h p apart) w

  pub run-append : (es es' : List (Event R)) (b : Bridge R) → run (es ++ es') b ≡ run es' (run es b)
  unfolding run
  run-append [] es' b = refl
  run-append (e ∷ es) es' b = run-append es es' (step e b)

  -- The first response to a command that waits is its result.
  pub run-answered :
      (b : Bridge R) (id : Text) (future : ℕ) (before after : List (Event R)) (r : R)
      → IsFresh b
      → b.pending_commands id ≡ some future
      → IsWithout id before
      → await_result future (run (before ++ responds id r ∷ after) b) ≡ some r
  unfolding await_result run step
  run-answered b id future before after r h p w =
      let b' : Bridge R = run before b in
      let h' : IsFresh b' = run-IsFresh before b h in
      subst (λ c. c.results future ≡ some r) (sym (run-append before (responds id r ∷ after) b))
        (run-kept after (resolve_command id r b') future r (resolve_command-IsFresh id r b' h') (
          subst (λ c. c.results future ≡ some r)
            (sym (resolve_command-pending id r b' future h' (run-other before b id future h p w)))
            (ground (arith, ==-refl future))))

  -- No entry leads to the future any more, and it was not set.
  pub record IsLost (future : ℕ) (b : Bridge R) : Type 0 where
    pub unset : b.results future ≡ none
    pub created : future < b.next_future
    pub unreachable : (id : Text) → b.pending_commands id ≢ some future

  step-IsLost :
      (e : Event R) (b : Bridge R) (future : ℕ)
      → IsFresh b
      → IsLost future b
      → IsLost future (step e b)
  unfolding step begin_command time_out
  step-IsLost (begins alive none j) b future h l = l
  step-IsLost (begins alive (some ws) j) b future h l = record {
    unset = l.unset;
    created = omega (arith, l.created);
    unreachable = λ id e. ground (arith, e, l.unreachable id, l.created);
  }
  step-IsLost (expires j) b future h l = record {
    unset = l.unset;
    created = l.created;
    unreachable = λ id e. ground (arith, e, l.unreachable id);
  }
  step-IsLost (responds j r) b future h l = elim (Option-cases (b.pending_commands j)) [
    | inl e ↦ subst (IsLost future) (sym (resolve_command-unknown j r b e)) (record {
      unset = l.unset;
      created = l.created;
      unreachable = λ id m. ground (arith, m, l.unreachable id);
    })
    | inr (f, e) ↦ subst (IsLost future) (sym (resolve_command-pending j r b f h e)) (record {
      unset = ground (arith, l.unset, l.unreachable j, e, eq_of_== future f);
      created = l.created;
      unreachable = λ id m. ground (arith, m, l.unreachable id);
    })
  ]

  run-IsLost :
      (es : List (Event R)) (b : Bridge R) (future : ℕ)
      → IsFresh b
      → IsLost future b
      → IsLost future (run es b)
  unfolding run
  run-IsLost [] b future h l = l
  run-IsLost (e ∷ es) b future h l =
      run-IsLost es (step e b) future (step-IsFresh e b h) (step-IsLost e b future h l)

  -- A future whose id another command takes is lost.
  pub run-overwritten :
      (b : Bridge R) (id : Text) (future : ℕ) (alive : ℕ → Bool) (ws : ℕ) (es : List (Event R))
      → IsFresh b
      → b.pending_commands id ≡ some future
      → await_result future (run (begins alive (some ws) id ∷ es) b) ≡ none
  unfolding await_result run step begin_command
  run-overwritten b id future alive ws es h p =
      (run-IsLost es _ future (begin_command-IsFresh alive (some ws) id b h) (lost)).unset
    where
      lost : IsLost future (begin_command alive (some ws) id b).1
      lost = record {
        unset = h.pending_unset id future p;
        created = omega (arith, h.pending_below id future p);
        unreachable =
            λ j e. ground (arith, e, p, h.pending_below id future, h.apart j id future, ==-refl id);
      }
