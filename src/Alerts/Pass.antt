-- ===== src/Alerts/Pass.antt =====
-- A pass of `check_alerts` over a tenant refines the abstract pass over which rules fire.
use mathlib.Core.List.{append_assoc}
use server_deck_backend.Base.{ℕ, ◌≡◌, refl, sym, ap, Bool, List, [], ◌∷◌, ◌++◌, ◌∙◌, select}
use server_deck_backend.Alerts.{
  Floats, AlertServer, AlertRule, AlertRecord, has_id, check_rule, check_rules, check_servers,
  evaluate_rule, enabled_of,
}
use server_deck_backend.Base.Counts.{count}
use server_deck_backend.Alerts.Rules.{AlertTables, check_tenant}
use server_deck_backend.Alerts.Laws.{IsValid, check_rule-IsValid, check_rules-IsValid}
use server_deck_backend.Alerts.Firing.{
  Firing, firing, told, check_firing, check_all, check_rule-refines,
}

module _ {F : Type 0} (fl : Floats F) (now : ℕ) where
  -- The rules of a server and of a tenant in the order of the pass, with whether they are breached.
  unfoldable pub evaluated : AlertServer F → List (AlertRule F) → List (ℕ × Bool)
  evaluated server [] = []
  evaluated server (rule ∷ rules) =
      (rule.id, (evaluate_rule fl now rule server).0) ∷ evaluated server rules

  unfoldable pub evaluated_all : List (AlertRule F) → List (AlertServer F) → List (ℕ × Bool)
  evaluated_all rules [] = []
  evaluated_all rules (server ∷ servers) =
      evaluated server (select (enabled_of server.id) rules) ++ evaluated_all rules servers

told-append : {F : Type 0} → (xs ys : List (AlertRecord F)) → told (xs ++ ys) ≡ told xs ++ told ys
told-append [] ys = refl
told-append (x ∷ xs) ys = ap (λ l. x.rule_id ∷ l) (told-append xs ys)

-- The rest of a pass after a first part.
abbrev after : List (ℕ × Bool) → Firing × List ℕ → Firing × List ℕ
after work (g, ks) = let (g', more) = check_all work g in (g', ks ++ more)

check_all-append :
    (xs ys : List (ℕ × Bool)) (g : Firing) → check_all (xs ++ ys) g ≡ after ys (check_all xs g)
unfolding check_all
check_all-append [] ys g = refl
check_all-append ((k, b) ∷ xs) ys g =
    ap (λ (p : Firing × List ℕ). (p.0, (check_firing k b g).1 ++ p.1))
      (check_all-append xs ys (check_firing k b g).0)
    ∙ ap (λ l. ((after ys (check_all xs (check_firing k b g).0)).0, l))
        (sym (append_assoc (check_firing k b g).1 _ _))

module _ {F : Type 0} (fl : Floats F) (new_id : List (AlertRecord F) → ℕ)
    (fresh : (records : List (AlertRecord F)) → count (has_id (new_id records)) records ≡ 0)
    (now : ℕ) where
  abbrev view : List (AlertRecord F) × List (AlertRecord F) → Firing × List ℕ
  view (records, fired) = (firing records, told fired)

  check_rules-refines :
      (server : AlertServer F) (rules : List (AlertRule F)) (records : List (AlertRecord F))
      → IsValid 0 records
      → view (check_rules fl new_id now server rules records)
        ≡ check_all (evaluated fl now server rules) (firing records)
  unfolding check_rules check_all evaluated
  check_rules-refines server [] records valid = refl
  check_rules-refines server (rule ∷ rules) records valid =
      let one = check_rule fl new_id now server rule records in
      ap (λ l. (firing (check_rules fl new_id now server rules one.0).0, l)) (told-append one.1 _)
      ∙ ap (λ (p : Firing × List ℕ). (p.0, told one.1 ++ p.1))
          (check_rules-refines server rules one.0
            (check_rule-IsValid fl new_id fresh now server rule records valid))
      ∙ ap (after (evaluated fl now server rules))
          (check_rule-refines fl new_id fresh now server rule records valid)

  check_servers-refines :
      (rules : List (AlertRule F)) (servers : List (AlertServer F)) (records : List (AlertRecord F))
      → IsValid 0 records
      → view (check_servers fl new_id now rules servers records)
        ≡ check_all (evaluated_all fl now rules servers) (firing records)
  unfolding check_servers check_all evaluated_all
  check_servers-refines rules [] records valid = refl
  check_servers-refines rules (server ∷ servers) records valid =
      let mine = select (enabled_of server.id) rules in
      let one = check_rules fl new_id now server mine records in
      ap (λ l. (firing (check_servers fl new_id now rules servers one.0).0, l))
        (told-append one.1 _)
      ∙ ap (λ (p : Firing × List ℕ). (p.0, told one.1 ++ p.1))
          (check_servers-refines rules servers one.0
            (check_rules-IsValid fl new_id fresh now server mine records valid))
      ∙ ap (after (evaluated_all fl now rules servers))
          (check_rules-refines server mine records valid)
      ∙ sym (check_all-append (evaluated fl now server mine) _ (firing records))

  -- A pass over a tenant sets which rules fire as the abstract pass does: a rule that is checked
  -- fires from then on exactly if it was breached, the others stay as they were, and the watchers
  -- are told of the rules that start to fire, in that order. New ids are fresh, at most one record
  -- of each rule was open before, and the ids of the records were distinct.
  pub check_tenant-refines :
      (t : AlertTables F)
      → IsValid 0 t.records
      → (firing (check_tenant fl new_id now t).0.records, told (check_tenant fl new_id now t).1)
        ≡ check_all (evaluated_all fl now t.rules t.servers) (firing t.records)
  unfolding check_tenant
  check_tenant-refines t valid = check_servers-refines t.rules t.servers t.records valid
