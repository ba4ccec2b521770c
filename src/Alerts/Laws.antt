-- ===== src/Alerts/Laws.antt =====
-- How many records of a rule are open.
use server_deck_backend.Base.{
  ℕ, suc, ◌+◌, ◌≤◌, ◌≡◌, refl, ap, subst, Bool, true, false, List, [], ◌∷◌, ◌==◌, nat_eq, eq_of_==,
  Option, none, some, select, update_where, Bool-cases, inl, inr, arith, ==-refl,
}
use server_deck_backend.Alerts.{
  Floats, AlertServer, AlertRule, AlertRecord, open_of, has_id, first, resolve, settle, check_rule,
  check_rules, check_servers, evaluate_rule, enabled_of,
}
use server_deck_backend.Base.Counts.{
  count, one_if, count-update_where, count-delete_where, count-select_none,
}
use server_deck_backend.Alerts.Rules.{AlertTables, delete_rule, write_found, get_record}

-- Of each rule at most `n` records more than one are open, and the ids are distinct.
pub record IsValid {F : Type 0} (n : ℕ) (records : List (AlertRecord F)) : Type 0 where
  pub one_open : (rule_id : ℕ) → count (open_of rule_id) records ≤ suc n
  pub distinct : (id : ℕ) → count (has_id id) records ≤ 1

pub first-some {ℓ} :
    {A : Type ℓ} (rows : List A) {x : A} → first rows ≡ some x → (rest : List A) × (rows ≡ x ∷ rest)
first-some [] h = cc
first-some (y ∷ rows) h = (rows, cc)

pub first-none {ℓ} : {A : Type ℓ} (rows : List A) → first rows ≡ none → rows ≡ []
first-none [] h = refl
first-none (y ∷ rows) h = cc

pub resolve-fewer :
    {F : Type 0} (n now : ℕ) (x : AlertRecord F) (k : ℕ)
    → n + one_if (open_of k (resolve now x)) ≤ n + one_if (open_of k x)
resolve-fewer n now x k = ground arith

module _ {F : Type 0} {n : ℕ} where
  raise-IsValid :
      {m : ℕ} (records : List (AlertRecord F)) → n ≤ m → IsValid n records → IsValid m records
  raise-IsValid records more valid = record {
    one_open = λ k. omega (arith, valid.one_open k);
    distinct = valid.distinct;
  }

  -- Writing to the one record that was found changes the counts by what it changes of the record.
  pub count-write :
      (p r : AlertRecord F → Bool) (f : AlertRecord F → AlertRecord F) (x : AlertRecord F)
      (records : List (AlertRecord F))
      → first (select p records) ≡ some x
      → IsValid n records
      → count r (update_where (has_id x.id) f records) + one_if (r x)
        ≡ count r records + one_if (r (f x))
  count-write p r f x records h valid =
      let (rest, e) = first-some (select p records) h in
      count-update_where p (has_id x.id) r f x records e (==-refl x.id) (valid.distinct x.id)

  -- A record that is rewritten under its id, where `m` leaves room for what is opened.
  write-IsValid :
      {m : ℕ} (p : AlertRecord F → Bool) (f : AlertRecord F → AlertRecord F) (x : AlertRecord F)
      (records : List (AlertRecord F))
      → first (select p records) ≡ some x
      → ((f x).id ≡ x.id)
      → ((k : ℕ) → n + one_if (open_of k (f x)) ≤ m + one_if (open_of k x))
      → IsValid n records
      → IsValid m (update_where (has_id x.id) f records)
  write-IsValid p f x records h same fewer valid = record {
    one_open = λ k.
        omega (arith, count-write p (open_of k) f x records h valid, fewer k, valid.one_open k);
    distinct = λ id. omega (
      arith,
      count-write p (has_id id) f x records h valid,
      ap (λ j. one_if (j == id)) same,
      valid.distinct id,
    );
  }

module _ {F : Type 0} (fl : Floats F) (new_id : List (AlertRecord F) → ℕ)
    (fresh : (records : List (AlertRecord F)) → count (has_id (new_id records)) records ≡ 0)
    {n : ℕ} where
  settle-IsValid :
      (now : ℕ) (rule : AlertRule F) (server : AlertServer F) (breach : Bool × Option F)
      (found : Option (AlertRecord F)) (records : List (AlertRecord F))
      → first (select (open_of rule.id) records) ≡ found
      → IsValid n records
      → IsValid n (settle fl new_id now rule server breach found records).0
  unfolding settle
  settle-IsValid now rule server (true, value) none records h valid = record {
    one_open = λ k. elim (Bool-cases (rule.id == k)) [
      | inl e ↦ rw e (
          omega (
            arith,
            subst (λ j. count (open_of j) records ≡ 0) (eq_of_== rule.id k e)
                (count-select_none (open_of rule.id) records (first-none _ h)),
          ))
      | inr e ↦ rw e (valid.one_open k)
    ];
    distinct = λ id. elim (Bool-cases (new_id records == id)) [
      | inl e ↦ rw e (
          omega (
            arith,
            subst (λ j. count (has_id j) records ≡ 0) (eq_of_== (new_id records) id e)
                (fresh records),
          ))
      | inr e ↦ rw e (valid.distinct id)
    ];
  }
  settle-IsValid now rule server (true, value) (some x) records h valid = valid
  settle-IsValid now rule server (false, value) none records h valid = valid
  settle-IsValid now rule server (false, value) (some x) records h valid =
      write-IsValid (open_of rule.id) (resolve now) x records h refl (resolve-fewer n now x) valid

  pub check_rule-IsValid :
      (now : ℕ) (server : AlertServer F) (rule : AlertRule F) (records : List (AlertRecord F))
      → IsValid n records
      → IsValid n (check_rule fl new_id now server rule records).0
  unfolding check_rule
  check_rule-IsValid now server rule records =
      settle-IsValid now rule server (evaluate_rule fl now rule server) _ records refl

  pub check_rules-IsValid :
      (now : ℕ) (server : AlertServer F) (rules : List (AlertRule F))
      (records : List (AlertRecord F))
      → IsValid n records
      → IsValid n (check_rules fl new_id now server rules records).0
  unfolding check_rules
  check_rules-IsValid now server [] records valid = valid
  check_rules-IsValid now server (rule ∷ rules) records valid =
      check_rules-IsValid now server rules _ (check_rule-IsValid now server rule records valid)

  pub check_servers-IsValid :
      (now : ℕ) (rules : List (AlertRule F)) (servers : List (AlertServer F))
      (records : List (AlertRecord F))
      → IsValid n records
      → IsValid n (check_servers fl new_id now rules servers records).0
  unfolding check_servers
  check_servers-IsValid now rules [] records valid = valid
  check_servers-IsValid now rules (server ∷ servers) records valid =
      check_servers-IsValid now rules servers _
        (check_rules-IsValid now server (select (enabled_of server.id) rules) records valid)

module _ {F : Type 0} {n : ℕ} where
  pub write_found-IsValid :
      {m : ℕ} (f : AlertRecord F → AlertRecord F) (id : ℕ) (found : Option (AlertRecord F))
      (t : AlertTables F)
      → get_record id t ≡ found
      → ((x : AlertRecord F)
          → found ≡ some x
          → ((f x).id ≡ x.id) × ((k : ℕ) → n + one_if (open_of k (f x)) ≤ m + one_if (open_of k x)))
      → n ≤ m
      → IsValid n t.records
      → IsValid m (write_found f found t).1.records
  unfolding write_found
  write_found-IsValid f id none t h keeps more valid = raise-IsValid t.records more valid
  write_found-IsValid f id (some x) t h keeps more valid =
      let (same, fewer) = keeps x refl in write-IsValid (has_id id) f x t.records h same fewer valid

  pub delete_rule-IsValid :
      (server_id : ℕ) (found : Option (AlertRule F)) (t : AlertTables F)
      → IsValid n t.records
      → IsValid n (delete_rule server_id found t).1.records
  unfolding delete_rule
  delete_rule-IsValid server_id none t valid = valid
  delete_rule-IsValid server_id (some rule) t valid =
      elim (Bool-cases (rule.server_id == server_id)) [
        | inl e ↦ rw e (record {
          one_open = λ k. omega (
            arith,
            count-delete_where (open_of k) (λ r. r.rule_id == rule.id) t.records,
            valid.one_open k,
          );
          distinct = λ id. omega (
            arith,
            count-delete_where (has_id id) (λ r. r.rule_id == rule.id) t.records,
            valid.distinct id,
          );
        })
        | inr e ↦ rw e valid
      ]
