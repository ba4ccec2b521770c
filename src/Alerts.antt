-- ===== src/Alerts.antt =====
-- Alert rules and records: Backend/app/models/alerting.py, `evaluate_rule` and one pass of
-- `check_alerts` of Backend/app/services/alert_service.py, and the handlers of
-- Backend/app/api/alerts.py. The state is the alert tables of one tenant; each handler and each
-- check of a rule commits before it returns. `now` is in seconds. What is sent to the watchers is
-- the list of records that were created; the diagnosis tasks are not modelled.
pub mod Rules
pub mod Laws
pub mod Steps
pub mod Firing
pub mod Pass
pub mod Requests
use server_deck_backend.Base.{
  ℕ, ◌-◌, ◌*◌, Bool, true, false, ◌&&◌, not, List, [], ◌∷◌, ◌++◌, String, ◌==◌, nat_eq, text_eq,
  string_eq, Option, none, some, select, update_where, any, if◌then◌else◌, ltb, contains,
}
use server_deck_backend.Base.Text.{Text}

pub data AlertMetric : Type 0 where
  cpu ram disk server_offline service_down ssl_expiry : AlertMetric

pub data AlertStatus : Type 0 where
  active acknowledged resolved : AlertStatus

-- Python's floats, and the dates in the reports of an agent: `days_left expiry now` is
-- `(datetime.fromisoformat(expiry) - now).days`, or none on a ValueError or a TypeError.
pub record Floats (F : Type 0) : Type 0 where
  pub zero_value : F
  pub truthy : F → Bool
  pub geb : F → F → Bool
  pub percent : F → F → F
  pub minutes : ℕ → F
  pub days_left : Text → ℕ → Option F

pub record Service : Type 0 where
  pub name : Text
  pub status : String

pub record SslCert : Type 0 where
  pub domains : List Text
  pub expiry : Option Text

module _ (F : Type 0) where
  -- The columns of a server that the rules look at.
  pub record AlertServer : Type 0 where
    pub id : ℕ
    pub last_seen : Option ℕ
    pub cpu_percent : Option F
    pub ram_used_mb : Option F
    pub ram_total_mb : Option F
    pub disk_used_percent : Option F
    pub systemd_services : List Service
    pub ssl_certs : List SslCert

  pub record AlertRule : Type 0 where
    pub id : ℕ
    pub server_id : ℕ
    pub name : String
    pub metric : AlertMetric
    pub threshold : Option F
    pub service_name : Option Text
    pub ssl_domain : Option Text
    pub enabled : Bool

  pub record AlertRecord : Type 0 where
    pub id : ℕ
    pub rule_id : ℕ
    pub server_id : ℕ
    pub triggered_at : ℕ
    pub resolved_at : Option ℕ
    pub metric_value : Option F
    pub status : AlertStatus
    pub acknowledged_at : Option ℕ

abbrev pub is_open : AlertStatus → Bool
is_open active = true
is_open acknowledged = true
is_open resolved = false

-- `threshold or 0`
unfoldable pub threshold_of : {F : Type 0} → Floats F → Option F → F
threshold_of fl none = fl.zero_value
threshold_of fl (some x) = x

module _ {F : Type 0} (fl : Floats F) where
  abbrev calm : Bool × Option F
  calm = (false, none)

  -- `value is not None and value >= limit`
  unfoldable pub at_least : Option F → F → Bool × Option F
  at_least none limit = calm
  at_least (some value) limit = if fl.geb value limit then (true, some value) else calm

  unfoldable pub ram_breached : Option F → Option F → F → Bool × Option F
  ram_breached (some used) (some total) limit =
      if fl.truthy used && fl.truthy total && fl.geb (fl.percent used total) limit
      then (true, some (fl.percent used total))
      else calm
  ram_breached _ _ limit = calm

  unfoldable pub offline : ℕ → Option ℕ → Bool × Option F
  offline now none = calm
  offline now (some seen) =
      if ltb (5 * 60) (now - seen) then (true, some (fl.minutes (now - seen))) else calm

  unfoldable pub service_breached : Text → List Service → Bool × Option F
  service_breached name [] = calm
  service_breached name (svc ∷ services) =
      let rest = service_breached name services in
      if svc.name == name && not (svc.status == "running") then (true, some fl.zero_value) else rest

  abbrev non_empty : Option Text → Option Text
  non_empty none = none
  non_empty (some []) = none
  non_empty (some (c ∷ cs)) = some (c ∷ cs)

  unfoldable pub cert_breached : ℕ → F → Option Text → Option F
  cert_breached now limit none = none
  cert_breached now limit (some expiry) = elim (fl.days_left expiry now) [
    | none ↦ none
    | some days ↦ if fl.geb limit days then some days else none
  ]

  unfoldable pub certs_breached : ℕ → F → Text → List SslCert → Bool × Option F
  certs_breached now limit domain [] = calm
  certs_breached now limit domain (cert ∷ certs) =
      let rest = certs_breached now limit domain certs in
      if contains domain cert.domains
      then elim (cert_breached now limit (non_empty cert.expiry)) [
        | none ↦ rest
        | some days ↦ (true, some days)
      ]
      else rest

  unfoldable pub by_metric : AlertMetric → ℕ → AlertRule F → AlertServer F → Bool × Option F
  by_metric cpu now rule server = at_least server.cpu_percent (threshold_of fl rule.threshold)
  by_metric ram now rule server =
      ram_breached server.ram_used_mb server.ram_total_mb (threshold_of fl rule.threshold)
  by_metric disk now rule server =
      at_least server.disk_used_percent (threshold_of fl rule.threshold)
  by_metric server_offline now rule server = offline now server.last_seen
  by_metric service_down now rule server = elim (non_empty rule.service_name) [
    | none ↦ calm
    | some name ↦ service_breached name server.systemd_services
  ]
  by_metric ssl_expiry now rule server = elim (non_empty rule.ssl_domain) [
    | none ↦ calm
    | some domain ↦ certs_breached now (threshold_of fl rule.threshold) domain server.ssl_certs
  ]

  unfoldable pub evaluate_rule : ℕ → AlertRule F → AlertServer F → Bool × Option F
  evaluate_rule now rule server = by_metric rule.metric now rule server

-- The records of one rule that are open, and `.scalars().first()`.
abbrev pub open_of : {F : Type 0} → ℕ → AlertRecord F → Bool
open_of rule_id r = r.rule_id == rule_id && is_open r.status

abbrev pub has_id : {F : Type 0} → ℕ → AlertRecord F → Bool
has_id id r = r.id == id

abbrev pub first {ℓ} : {A : Type ℓ} → List A → Option A
first [] = none
first (x ∷ xs) = some x

abbrev pub resolve : {F : Type 0} → ℕ → AlertRecord F → AlertRecord F
resolve now r = record r { status = resolved; resolved_at = some now }

-- The enabled rules of one server.
abbrev pub enabled_of : {F : Type 0} → ℕ → AlertRule F → Bool
enabled_of server_id rule = rule.server_id == server_id && rule.enabled

-- `new_id` is what `uuid.uuid4` gives for a new record.
module _ {F : Type 0} (fl : Floats F) (new_id : List (AlertRecord F) → ℕ) where
  abbrev pub new_alert :
      ℕ → AlertRule F → AlertServer F → Option F → List (AlertRecord F) → AlertRecord F
  new_alert now rule server value records = record {
    id = new_id records;
    rule_id = rule.id;
    server_id = server.id;
    triggered_at = now;
    resolved_at = none;
    metric_value = value;
    status = active;
    acknowledged_at = none;
  }

  -- What is done to the records, and the alert that is broadcast.
  unfoldable pub settle :
      ℕ
      → AlertRule F
      → AlertServer F
      → Bool × Option F
      → Option (AlertRecord F)
      → List (AlertRecord F)
      → List (AlertRecord F) × List (AlertRecord F)
  settle now rule server (true, value) none records =
      let alert = new_alert now rule server value records in (alert ∷ records, alert ∷ [])
  settle now rule server (true, value) (some record_) records = (records, [])
  settle now rule server (false, value) none records = (records, [])
  settle now rule server (false, value) (some record_) records =
      (update_where (has_id record_.id) (resolve now) records, [])

  unfoldable pub check_rule :
      ℕ
      → AlertServer F
      → AlertRule F
      → List (AlertRecord F)
      → List (AlertRecord F) × List (AlertRecord F)
  check_rule now server rule records =
      settle now rule server (evaluate_rule fl now rule server)
        (first (select (open_of rule.id) records)) records

  unfoldable pub check_rules :
      ℕ
      → AlertServer F
      → List (AlertRule F)
      → List (AlertRecord F)
      → List (AlertRecord F) × List (AlertRecord F)
  check_rules now server [] records = (records, [])
  check_rules now server (rule ∷ rules) records =
      let (records1, fired) = check_rule now server rule records in
      let (records2, more) = check_rules now server rules records1 in (records2, fired ++ more)

  -- The pass over the servers of a tenant.
  unfoldable pub check_servers :
      ℕ
      → List (AlertRule F)
      → List (AlertServer F)
      → List (AlertRecord F)
      → List (AlertRecord F) × List (AlertRecord F)
  check_servers now rules [] records = (records, [])
  check_servers now rules (server ∷ servers) records =
      let (records1, fired) =
        check_rules now server (select (enabled_of server.id) rules) records in
      let (records2, more) = check_servers now rules servers records1 in (records2, fired ++ more)
