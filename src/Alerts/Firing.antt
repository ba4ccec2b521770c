-- ===== src/Alerts/Firing.antt =====
-- What `check_alerts` is for: a rule fires while it is breached, and its watchers are told once.
use server_deck_backend.Base.{
  ℕ, ◌≡◌, refl, sym, subst, Bool, true, false, ◌&&◌, not, List, [], ◌∷◌, ◌++◌, map, ◌==◌, nat_eq,
  eq_of_==, Option, none, some, select, if◌then◌else◌, Bool-cases, inl, inr, arith, ==-sym, lt→ltb,
  ◌<◌, ltb,
}
use server_deck_backend.Alerts.{
  Floats, AlertServer, AlertRule, AlertRecord, open_of, has_id, first, resolve, settle, check_rule,
  evaluate_rule,
}
use server_deck_backend.Base.Counts.{count, count-select_none, select-count}
use server_deck_backend.Alerts.Laws.{IsValid, first-some, first-none, count-write}

-- The abstract view of the records: which rules fire.
abbrev pub Firing : Type 0
Firing = ℕ → Bool

unfoldable pub firing : {F : Type 0} → List (AlertRecord F) → Firing
firing records rule_id = ltb 0 (count (open_of rule_id) records)

-- Checking a rule sets whether it fires, and tells of a rule that did not fire before.
unfoldable pub set_firing : ℕ → Bool → Firing → Firing
set_firing rule_id breached g k = if k == rule_id then breached else g k

unfoldable pub check_firing : ℕ → Bool → Firing → Firing × List ℕ
check_firing rule_id breached g =
    (set_firing rule_id breached g, if breached && not (g rule_id) then rule_id ∷ [] else [])

unfoldable pub check_all : List (ℕ × Bool) → Firing → Firing × List ℕ
check_all [] g = (g, [])
check_all ((rule_id, breached) ∷ rest) g =
    let (g1, first_told) = check_firing rule_id breached g in
    let (g2, more) = check_all rest g1 in (g2, first_told ++ more)

abbrev pub told : {F : Type 0} → List (AlertRecord F) → List ℕ
told = map (λ r. r.rule_id)

module _ {F : Type 0} where
  -- A record that was found is open, and is of the rule.
  open_found :
      (k : ℕ) (records : List (AlertRecord F)) {x : AlertRecord F}
      → first (select (open_of k) records) ≡ some x
      → open_of k x ≡ true
  open_found k [] h = cc
  open_found k (r ∷ records) {x} h = elim (Bool-cases (open_of k r)) [
    | inl e ↦ subst (λ r. open_of k r ≡ true) {x = r} {y = x} (cc (rw e at h)) e
    | inr e ↦ open_found k records (rw e at h)
  ]

  open_count :
      (k : ℕ) (records : List (AlertRecord F)) {x : AlertRecord F}
      → first (select (open_of k) records) ≡ some x
      → 0 < count (open_of k) records
  open_count k records {x} h =
      let (rest, e) = first-some (select (open_of k) records) h in
      select-count (open_of k) (open_of k) x records e (open_found k records h)

module _ {F : Type 0} (fl : Floats F) (new_id : List (AlertRecord F) → ℕ)
    (fresh : (records : List (AlertRecord F)) → count (has_id (new_id records)) records ≡ 0) where
  settle-firing :
      (now : ℕ) (rule : AlertRule F) (server : AlertServer F) (breach : Bool × Option F)
      (found : Option (AlertRecord F)) (records : List (AlertRecord F))
      → first (select (open_of rule.id) records) ≡ found
      → IsValid 0 records
      → (k : ℕ)
      → firing (settle fl new_id now rule server breach found records).0 k
        ≡ set_firing rule.id breach.0 (firing records) k
  unfolding settle firing set_firing
  settle-firing now rule server (true, value) none records h valid k =
      ground (arith, ==-sym k rule.id)
  settle-firing now rule server (true, value) (some x) records h valid k =
      elim (Bool-cases (k == rule.id)) [
        | inl e ↦ rw e (
            lt→ltb 0 _ (
              subst (λ j. 0 < count (open_of j) records) (sym (eq_of_== k rule.id e))
                (open_count rule.id records h)))
        | inr e ↦ rw e refl
      ]
  settle-firing now rule server (false, value) none records h valid k =
      elim (Bool-cases (k == rule.id)) [
        | inl e ↦
            rw
              (
                e,
                eq_of_== k rule.id e,
                count-select_none (open_of rule.id) records (first-none _ h),
              )
              refl
        | inr e ↦ rw e refl
      ]
  settle-firing now rule server (false, value) (some x) records h valid k =
      let w = count-write (open_of rule.id) (open_of k) (resolve now) x records h valid in
      let mine = open_found rule.id records h in
      elim (Bool-cases (k == rule.id)) [
        | inl e ↦ ground (arith, eq_of_== k rule.id e, w, mine, valid.one_open k)
        | inr e ↦ ground (arith, w, mine)
      ]

  settle-told :
      (now : ℕ) (rule : AlertRule F) (server : AlertServer F) (breach : Bool × Option F)
      (found : Option (AlertRecord F)) (records : List (AlertRecord F))
      → first (select (open_of rule.id) records) ≡ found
      → told (settle fl new_id now rule server breach found records).1
        ≡ (if breach.0 && not (firing records rule.id) then rule.id ∷ [] else [])
  unfolding settle firing
  settle-told now rule server (true, value) none records h =
      rw (count-select_none (open_of rule.id) records (first-none _ h)) refl
  settle-told now rule server (true, value) (some x) records h =
      rw (lt→ltb 0 (count (open_of rule.id) records) (open_count rule.id records h)) refl
  settle-told now rule server (false, value) none records h = refl
  settle-told now rule server (false, value) (some x) records h = refl

  pub check_rule-refines :
      (now : ℕ) (server : AlertServer F) (rule : AlertRule F) (records : List (AlertRecord F))
      → IsValid 0 records
      → (
        firing (check_rule fl new_id now server rule records).0,
        told (check_rule fl new_id now server rule records).1,
      )
        ≡ check_firing rule.id (evaluate_rule fl now rule server).0 (firing records)
  unfolding check_rule check_firing
  check_rule-refines now server rule records valid i = (
    λ k. settle-firing now rule server (evaluate_rule fl now rule server) _ records refl valid k i,
    settle-told now rule server (evaluate_rule fl now rule server) _ records refl i,
  )
