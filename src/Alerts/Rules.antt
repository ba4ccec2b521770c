-- ===== src/Alerts/Rules.antt =====
-- The handlers of Backend/app/api/alerts.py, on the alert tables of the tenant that
-- `resolve_tenant` has found: no handler asks for a user. The rules are kept with the newest
-- first, and a deleted rule or record takes with it what refers to it. The listings with their
-- formatted rows are not modelled.
use server_deck_backend.Base.{
  ℕ, ◌-◌, ◌*◌, Bool, true, false, ◌&&◌, not, List, [], ◌∷◌, String, ◌==◌, nat_eq, string_eq, Option,
  none, some, select, update_where, delete_where, any, if◌then◌else◌, leb, length, add,
}
use server_deck_backend.Base.Text.{Text}
use server_deck_backend.Base.Outcome.{Outcome, ok, http, crash}
use server_deck_backend.Alerts.{
  AlertMetric, AlertServer, AlertRule, AlertRecord, is_open, has_id, first, resolve, check_servers,
  Floats, cpu, ram, disk, server_offline, service_down, ssl_expiry, acknowledged,
}

pub data AlertUrgency : Type 0 where
  low medium high critical : AlertUrgency

pub record AlertDiagnosis : Type 0 where
  pub alert_record_id : ℕ
  pub urgency : Option AlertUrgency

pub record AlertTables (F : Type 0) : Type 0 where
  pub servers : List (AlertServer F)
  pub rules : List (AlertRule F)
  pub records : List (AlertRecord F)
  pub diagnoses : List AlertDiagnosis

pub record AlertRuleCreate (F : Type 0) : Type 0 where
  pub name : String
  pub metric : String
  pub threshold : Option F
  pub service_name : Option Text
  pub ssl_domain : Option Text

pub record AlertRuleUpdate (F : Type 0) : Type 0 where
  pub name : Option String
  pub threshold : Option F
  pub enabled : Option Bool

abbrev pub Handler : Type 0 → Type 0 → Type 0
Handler F A = AlertTables F → Outcome A × AlertTables F

-- `AlertMetric(text)`: none is a ValueError.
unfoldable pub metric_of : String → Option AlertMetric
metric_of text =
    if text == "cpu"
    then some cpu
    else if text == "ram"
    then some ram
    else if text == "disk"
    then some disk
    else if text == "server_offline"
    then some server_offline
    else if text == "service_down"
    then some service_down
    else if text == "ssl_expiry"
    then some ssl_expiry
    else none

-- What a field of the update puts in the place of the old value.
abbrev given {ℓ} : {A : Type ℓ} → Option A → A → A
given none old = old
given (some value) old = value

module _ {F : Type 0} where
  -- `await db.get(AlertRule, id)`
  abbrev pub get_rule : ℕ → AlertTables F → Option (AlertRule F)
  get_rule id t = first (select (λ r. r.id == id) t.rules)

  abbrev pub get_record : ℕ → AlertTables F → Option (AlertRecord F)
  get_record id t = first (select (has_id id) t.records)

  unfoldable pub add_rule : ℕ → ℕ → AlertRuleCreate F → Option AlertMetric → Handler F (AlertRule F)
  add_rule new_id server_id rule_in none t = (crash "ValueError", t)
  add_rule new_id server_id rule_in (some metric) t =
      let rule : AlertRule F = record {
        id = new_id;
        server_id = server_id;
        name = rule_in.name;
        metric = metric;
        threshold = rule_in.threshold;
        service_name = rule_in.service_name;
        ssl_domain = rule_in.ssl_domain;
        enabled = true;
      } in
      (ok rule, record t { rules = rule ∷ t.rules })

  unfoldable pub create_alert_rule : ℕ → ℕ → AlertRuleCreate F → Handler F (AlertRule F)
  create_alert_rule new_id server_id rule_in t =
      if any (λ v. v.id == server_id) t.servers
      then add_rule new_id server_id rule_in (metric_of rule_in.metric) t
      else (http 404 "Server not found", t)

  unfoldable pub get_alert_rules : ℕ → Handler F (List (AlertRule F))
  get_alert_rules server_id t = (ok (select (λ r. r.server_id == server_id) t.rules), t)

  abbrev given_threshold : Option F → Option F → Option F
  given_threshold none old = old
  given_threshold (some value) old = some value

  unfoldable pub updated : AlertRuleUpdate F → AlertRule F → AlertRule F
  updated rule_in rule = record rule {
    name = given rule_in.name rule.name;
    threshold = given_threshold rule_in.threshold rule.threshold;
    enabled = given rule_in.enabled rule.enabled;
  }

  unfoldable pub update_found :
      ℕ → AlertRuleUpdate F → Option (AlertRule F) → Handler F (AlertRule F)
  update_found server_id rule_in none t = (http 404 "Rule not found", t)
  update_found server_id rule_in (some rule) t =
      if not (rule.server_id == server_id) then (http 404 "Rule not found", t) else (
        ok (updated rule_in rule),
        record t { rules = update_where (λ r. r.id == rule.id) (updated rule_in) t.rules },
      )

  unfoldable pub update_alert_rule : ℕ → ℕ → AlertRuleUpdate F → Handler F (AlertRule F)
  update_alert_rule server_id id rule_in t = update_found server_id rule_in (get_rule id t) t

  -- The records of the rule go with it, and their diagnoses with them.
  abbrev pub without_rule : ℕ → AlertTables F → AlertTables F
  without_rule id t = record t {
    rules = delete_where (λ r. r.id == id) t.rules;
    records = delete_where (λ r. r.rule_id == id) t.records;
    diagnoses =
        delete_where (λ d. any (λ r. r.rule_id == id && r.id == d.alert_record_id) t.records)
          t.diagnoses;
  }

  unfoldable pub delete_rule : ℕ → Option (AlertRule F) → Handler F (Unit {0})
  delete_rule server_id none t = (http 404 "Rule not found", t)
  delete_rule server_id (some rule) t =
      if not (rule.server_id == server_id)
      then (http 404 "Rule not found", t)
      else (ok tt, without_rule rule.id t)

  unfoldable pub delete_alert_rule : ℕ → ℕ → Handler F (Unit {0})
  delete_alert_rule server_id id t = delete_rule server_id (get_rule id t) t

  abbrev pub acknowledge : ℕ → AlertRecord F → AlertRecord F
  acknowledge now r = record r { status = acknowledged; acknowledged_at = some now }

  unfoldable pub write_found :
      (AlertRecord F → AlertRecord F) → Option (AlertRecord F) → Handler F (Unit {0})
  write_found f none t = (http 404 "Alert not found", t)
  write_found f (some r) t = (ok tt, record t { records = update_where (has_id r.id) f t.records })

  unfoldable pub acknowledge_alert : ℕ → ℕ → Handler F (Unit {0})
  acknowledge_alert now id t = write_found (acknowledge now) (get_record id t) t

  unfoldable pub resolve_alert : ℕ → ℕ → Handler F (Unit {0})
  resolve_alert now id t = write_found (resolve now) (get_record id t) t

-- `get_alerts_summary`
pub record Summary : Type 0 where
  pub active_count : ℕ
  pub servers_affected : ℕ
  pub resolved_last_24h : ℕ
  pub critical_count : ℕ

abbrev is_critical : Option AlertUrgency → Bool
is_critical (some critical) = true
is_critical _ = false

abbrev since : ℕ → Option ℕ → Bool
since start none = false
since start (some at) = leb start at

module _ {F : Type 0} where
  abbrev pub open_records : AlertTables F → List (AlertRecord F)
  open_records t = select (λ r. is_open r.status) t.records

  -- `set(a.server_id for a in active_alerts)`
  unfoldable pub server_ids : List (AlertRecord F) → List ℕ
  server_ids [] = []
  server_ids (r ∷ records) = add r.server_id (server_ids records)

  abbrev resolved_since : ℕ → AlertRecord F → Bool
  resolved_since start r = not (is_open r.status) && since start r.resolved_at

  abbrev critical_open : AlertTables F → AlertDiagnosis → Bool
  critical_open t d =
      is_critical d.urgency && any (λ r. r.id == d.alert_record_id && is_open r.status) t.records

  unfoldable pub get_alerts_summary : ℕ → Handler F Summary
  unfolding server_ids
  get_alerts_summary now t =
      let summary : Summary = record {
        active_count = length (open_records t);
        servers_affected = length (server_ids (open_records t));
        resolved_last_24h = length (select (resolved_since (now - 24 * 60 * 60)) t.records);
        critical_count = length (select (critical_open t) t.diagnoses);
      } in
      (ok summary, t)

  -- One pass of `check_alerts` over the tenant.
  unfoldable pub check_tenant :
      Floats F
      → (List (AlertRecord F) → ℕ)
      → ℕ
      → AlertTables F
      → AlertTables F × List (AlertRecord F)
  check_tenant fl new_id now t =
      let (records', fired) = check_servers fl new_id now t.rules t.servers t.records in
      (record t { records = records' }, fired)
