-- ===== src/Alerts/Requests.antt =====
-- Requests of Backend/app/api/alerts.py: the summary, and an alert that is acknowledged too late.
use server_deck_backend.Base.{
  ℕ, suc, ◌≤◌, ◌≡◌, refl, Bool, false, List, [], ◌∷◌, ◌==◌, nat_eq, some, select, Bool-cases, inl,
  inr, arith, ==-refl, ◌∙◌, length, add, contains,
}
use server_deck_backend.Base.Outcome.{ok}
use server_deck_backend.Alerts.{AlertRecord, is_open, open_of, has_id}
use server_deck_backend.Base.Counts.{count}
use server_deck_backend.Alerts.Rules.{
  AlertTables, Summary, get_alerts_summary, open_records, server_ids, acknowledge_alert,
  write_found, acknowledge, get_record,
}
use server_deck_backend.Alerts.Laws.{IsValid, count-write}

length-add : (n : ℕ) (ids : List ℕ) → length (add n ids) ≤ suc (length ids)
length-add n ids = elim (Bool-cases (contains n ids)) [
  | inl e ↦ rw e (omega arith)
  | inr e ↦ rw e (omega arith)
]

add-not_empty : (n : ℕ) (ids : List ℕ) → (length (add n ids) == 0) ≡ false
add-not_empty n [] = refl
add-not_empty n (m ∷ ids) = elim (Bool-cases (contains n (m ∷ ids))) [
  | inl e ↦ rw e (ground arith)
  | inr e ↦ rw e (ground arith)
]

module _ {F : Type 0} where
  server_ids-length :
      (records : List (AlertRecord F)) → length (server_ids records) ≤ length records
  unfolding server_ids
  server_ids-length [] = omega arith
  server_ids-length (r ∷ records) =
      omega (arith, length-add r.server_id (server_ids records), server_ids-length records)

  server_ids-empty :
      (records : List (AlertRecord F)) → (length (server_ids records) == 0) ≡ (length records == 0)
  unfolding server_ids
  server_ids-empty [] = refl
  server_ids-empty (r ∷ records) = add-not_empty r.server_id (server_ids records) ∙ ground arith

  select-length :
      (p : AlertRecord F → Bool) (records : List (AlertRecord F))
      → length (select p records) ≡ count p records
  select-length p [] = refl
  select-length p (r ∷ records) = ground (arith, select-length p records)

  -- The summary counts the open alerts and at most as many servers, and no server exactly if no
  -- alert is open. The request changes nothing.
  get_alerts_summary-bounds :
      (now : ℕ) (t : AlertTables F)
      → (summary : Summary) × (get_alerts_summary now t ≡ (ok summary, t))
        × (summary.active_count ≡ count (λ r. is_open r.status) t.records)
        × (summary.servers_affected ≤ summary.active_count)
        × ((summary.servers_affected == 0) ≡ (summary.active_count == 0))
  unfolding get_alerts_summary
  get_alerts_summary-bounds now t = (
    _,
    refl,
    select-length (λ r. is_open r.status) t.records,
    server_ids-length (open_records t),
    server_ids-empty (open_records t),
  )

  -- Acknowledging a resolved alert succeeds and opens it again: its rule has one open record more,
  -- so it has two if it has fired once more since.
  acknowledge_alert-reopens :
      (n now id : ℕ) (t : AlertTables F) (r : AlertRecord F)
      → IsValid n t.records
      → get_record id t ≡ some r
      → is_open r.status ≡ false
      → ((acknowledge_alert now id t).0 ≡ ok tt)
        × (count (open_of r.rule_id) (acknowledge_alert now id t).1.records
            ≡ suc (count (open_of r.rule_id) t.records))
  unfolding acknowledge_alert write_found
  acknowledge_alert-reopens n now id t r valid found over = rw found (
    refl,
    ground (
      arith,
      count-write (has_id id) (open_of r.rule_id) (acknowledge now) r t.records found valid,
      ==-refl r.rule_id,
    ),
  )
