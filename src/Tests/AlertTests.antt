-- ===== src/Tests/AlertTests.antt =====
-- A server with a busy processor. Numbers stand for the floats.
use server_deck_backend.Base.{
  ℕ, suc, ◌+◌, ◌*◌, ◌/◌, ◌<◌, ◌≡◌, refl, true, not, List, [], ◌∷◌, none, some, ◌==◌, nat_eq, leb,
  arith, Bool-cases, inl, inr,
}
use server_deck_backend.Alerts.{
  Floats, AlertServer, AlertRule, AlertRecord, cpu, resolved, has_id, evaluate_rule, by_metric,
  at_least, threshold_of,
}
use server_deck_backend.Base.Counts.{count}
use server_deck_backend.Alerts.Rules.{
  AlertTables, AlertRuleCreate, create_alert_rule, check_tenant, get_record, acknowledge_alert,
  resolve_alert,
}
use server_deck_backend.Alerts.Laws.{IsValid}
use server_deck_backend.Alerts.Steps.{
  reopens, start, created, checked, acknowledged_one, resolved_one, Reachable-IsValid,
}
use server_deck_backend.Alerts.Firing.{firing, told, check_all, check_firing, set_firing}
use server_deck_backend.Alerts.Pass.{evaluated, evaluated_all, check_tenant-refines}

abbrev floats : Floats ℕ
floats = record {
  zero_value = 0;
  truthy = λ x. not (x == 0);
  geb = λ x y. leb y x;
  percent = λ used total. used * 100 / total;
  minutes = λ seconds. seconds / 60;
  days_left = λ expiry now. none;
}

abbrev ids_above : List (AlertRecord ℕ) → ℕ
ids_above [] = 0
ids_above (r ∷ records) = r.id + ids_above records

abbrev new_id : List (AlertRecord ℕ) → ℕ
new_id records = suc (ids_above records)

above-fresh :
    (n : ℕ) (records : List (AlertRecord ℕ)) → ids_above records < n → count (has_id n) records ≡ 0
above-fresh n [] h = refl
above-fresh n (r ∷ records) h = ground (arith, above-fresh n records)

new_id-fresh : (records : List (AlertRecord ℕ)) → count (has_id (new_id records)) records ≡ 0
new_id-fresh records = above-fresh (new_id records) records (omega arith)

abbrev busy : AlertServer ℕ
busy = record {
  id = 21;
  last_seen = some 90;
  cpu_percent = some 97;
  ram_used_mb = none;
  ram_total_mb = none;
  disk_used_percent = some 10;
  systemd_services = [];
  ssl_certs = [];
}

abbrev cpu_rule : AlertRule ℕ
cpu_rule = record {
  id = 5;
  server_id = 21;
  name = "CPU";
  metric = cpu;
  threshold = some 90;
  service_name = none;
  ssl_domain = none;
  enabled = true;
}

abbrev cpu_create : AlertRuleCreate ℕ
cpu_create = record {
  name = "CPU";
  metric = "cpu";
  threshold = some 90;
  service_name = none;
  ssl_domain = none;
}

abbrev over : AlertRecord ℕ
over = record {
  id = 40;
  rule_id = 5;
  server_id = 21;
  triggered_at = 10;
  resolved_at = some 50;
  metric_value = some 95;
  status = resolved;
  acknowledged_at = none;
}

abbrev alert_tables : AlertTables ℕ
alert_tables = record {
  servers = busy ∷ [];
  rules = cpu_rule ∷ [];
  records = over ∷ [];
  diagnoses = [];
}

over-IsValid : IsValid 0 (over ∷ [])
over-IsValid = record {
  one_open =
      λ k. elim (Bool-cases (5 == k)) [ inl e ↦ rw e (omega arith) | inr e ↦ rw e (omega arith) ];
  distinct =
      λ n. elim (Bool-cases (40 == n)) [ inl e ↦ rw e (omega arith) | inr e ↦ rw e (omega arith) ];
}

-- The alert that a pass makes is resolved by a request.
abbrev resolved_tables : AlertTables ℕ
resolved_tables =
    (resolve_alert 200 1
      (check_tenant floats new_id 100
        (create_alert_rule 5 21 cpu_create
          (record { servers = busy ∷ []; rules = []; records = []; diagnoses = [] })).1).0).1

Reachable-IsValid_example :
    IsValid
      (0 + reopens (get_record 1 resolved_tables))
      (acknowledge_alert 300 1 resolved_tables).1.records
Reachable-IsValid_example = Reachable-IsValid floats new_id new_id-fresh (
    acknowledged_one 300 1
      (resolved_one 200 1 (checked 100 (created 5 21 cpu_create (start (busy ∷ []))))))

check_tenant-refines_example :
    (
      firing (check_tenant floats new_id 100 alert_tables).0.records,
      told (check_tenant floats new_id 100 alert_tables).1,
    )
    ≡ check_all (evaluated_all floats 100 (cpu_rule ∷ []) (busy ∷ [])) (firing (over ∷ []))
check_tenant-refines_example =
    check_tenant-refines floats new_id new_id-fresh 100 alert_tables over-IsValid

-- The rule starts to fire, and its watchers are told.
check_all_test :
    (check_all (evaluated_all floats 100 (cpu_rule ∷ []) (busy ∷ [])) (firing (over ∷ []))).1
    ≡ 5 ∷ []
unfolding check_all evaluated check_firing set_firing evaluated_all evaluate_rule by_metric at_least
    threshold_of firing
check_all_test = refl
