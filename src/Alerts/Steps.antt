-- ===== src/Alerts/Steps.antt =====
-- The alert tables of a tenant over time: passes of `check_alerts` and requests in any order.
use server_deck_backend.Base.{
  ℕ, ◌+◌, ◌≤◌, ◌≡◌, refl, not, List, [], Option, none, some, arith, subst, sym,
}
use server_deck_backend.Alerts.{Floats, AlertServer, AlertRecord, is_open, open_of, has_id, resolve}
use server_deck_backend.Base.Counts.{count, one_if}
use server_deck_backend.Alerts.Rules.{
  AlertTables, AlertRuleCreate, AlertRuleUpdate, AlertDiagnosis, create_alert_rule, add_rule,
  update_alert_rule, update_found, delete_alert_rule, acknowledge_alert, resolve_alert, get_record,
  get_rule, check_tenant, acknowledge,
}
use server_deck_backend.Alerts.Laws.{
  IsValid, check_servers-IsValid, delete_rule-IsValid, write_found-IsValid, resolve-fewer,
}

-- What acknowledging an alert adds to the open ones: it opens an alert that is not.
abbrev pub reopens : {F : Type 0} → Option (AlertRecord F) → ℕ
reopens none = 0
reopens (some r) = one_if (not (is_open r.status))

module _ {F : Type 0} (fl : Floats F) (new_id : List (AlertRecord F) → ℕ) where
  -- The tables of a new tenant, and what one pass or one request makes of them, with the number of
  -- alerts that were acknowledged when they were not open.
  pub data Reachable : ℕ → AlertTables F → Type 0 where
    start :
        (servers : List (AlertServer F))
        → Reachable 0 (record { servers = servers; rules = []; records = []; diagnoses = [] })
    reported :
        (servers : List (AlertServer F)) (diagnoses : List AlertDiagnosis) {n : ℕ}
        {t : AlertTables F}
        → Reachable n t
        → Reachable n (record t { servers = servers; diagnoses = diagnoses })
    checked :
        (now : ℕ) {n : ℕ} {t : AlertTables F}
        → Reachable n t
        → Reachable n (check_tenant fl new_id now t).0
    created :
        (id server_id : ℕ) (rule_in : AlertRuleCreate F) {n : ℕ} {t : AlertTables F}
        → Reachable n t
        → Reachable n (create_alert_rule id server_id rule_in t).1
    changed :
        (server_id id : ℕ) (rule_in : AlertRuleUpdate F) {n : ℕ} {t : AlertTables F}
        → Reachable n t
        → Reachable n (update_alert_rule server_id id rule_in t).1
    deleted :
        (server_id id : ℕ) {n : ℕ} {t : AlertTables F}
        → Reachable n t
        → Reachable n (delete_alert_rule server_id id t).1
    acknowledged_one :
        (now id : ℕ) {n : ℕ} {t : AlertTables F}
        → Reachable n t
        → Reachable (n + reopens (get_record id t)) (acknowledge_alert now id t).1
    resolved_one :
        (now id : ℕ) {n : ℕ} {t : AlertTables F}
        → Reachable n t
        → Reachable n (resolve_alert now id t).1

  acknowledge-opens :
      (n now : ℕ) (x : AlertRecord F) (k : ℕ)
      → n + one_if (open_of k (acknowledge now x)) ≤ n + reopens (some x) + one_if (open_of k x)
  acknowledge-opens n now x k = ground arith

  create_alert_rule-records :
      (id server_id : ℕ) (rule_in : AlertRuleCreate F) (t : AlertTables F)
      → (create_alert_rule id server_id rule_in t).1.records ≡ t.records
  unfolding create_alert_rule add_rule
  create_alert_rule-records id server_id rule_in t = ground arith

  update_alert_rule-records :
      (server_id id : ℕ) (rule_in : AlertRuleUpdate F) (t : AlertTables F)
      → (update_alert_rule server_id id rule_in t).1.records ≡ t.records
  unfolding update_alert_rule update_found
  update_alert_rule-records server_id id rule_in t = ground arith

  -- However passes and requests follow each other, of each rule at most one record is open, and one
  -- more for each time that an alert was acknowledged that was not open; and the ids of the records
  -- are distinct, if new ids are fresh.
  pub Reachable-IsValid :
      ((records : List (AlertRecord F)) → count (has_id (new_id records)) records ≡ 0)
      → {n : ℕ} {t : AlertTables F} → Reachable n t
      → IsValid n t.records
  unfolding check_tenant delete_alert_rule acknowledge_alert resolve_alert
  Reachable-IsValid fresh (start servers) = record {
    one_open = λ k. omega arith;
    distinct = λ id. omega arith;
  }
  Reachable-IsValid fresh (reported servers diagnoses past) = Reachable-IsValid fresh past
  Reachable-IsValid fresh (checked now {n} {t} past) =
      check_servers-IsValid fl new_id fresh now t.rules t.servers t.records
        (Reachable-IsValid fresh past)
  Reachable-IsValid fresh (created id server_id rule_in {n} {t} past) =
      subst (IsValid n) (sym (create_alert_rule-records id server_id rule_in t))
        (Reachable-IsValid fresh past)
  Reachable-IsValid fresh (changed server_id id rule_in {n} {t} past) =
      subst (IsValid n) (sym (update_alert_rule-records server_id id rule_in t))
        (Reachable-IsValid fresh past)
  Reachable-IsValid fresh (deleted server_id id {n} {t} past) =
      delete_rule-IsValid server_id (get_rule id t) t (Reachable-IsValid fresh past)
  Reachable-IsValid fresh (acknowledged_one now id {n} {t} past) =
      write_found-IsValid (acknowledge now) id (get_record id t) t refl
        (λ x e. (refl, λ k. rw e (acknowledge-opens n now x k))) (omega arith)
        (Reachable-IsValid fresh past)
  Reachable-IsValid fresh (resolved_one now id {n} {t} past) =
      write_found-IsValid (resolve now) id (get_record id t) t refl
        (λ x e. (refl, resolve-fewer n now x)) (omega arith) (Reachable-IsValid fresh past)
