-- ===== src/Tickets/Laws.antt =====
-- What a member may do to a ticket, what a listing shows, and requests that are refused.
use server_deck_backend.Base.{
  ℕ, ◌≡◌, refl, sym, ◌&&◌, [], ◌∷◌, select, update_where, ap, subst, ◌∙◌, true, String, ◌==◌,
  nat_eq, string_eq, Option, none, some, Bool-cases, inl, inr, eq_of_==,
}
use server_deck_backend.Base.Outcome.{ok, ok-injective, scalar_one_or_none, scalar_one_or_none-some}
use server_deck_backend.Models.{User, Ticket}
use server_deck_backend.Database.{
  Action, ◌>>=◌, Session, Tables, lift, tables, put_tables, with_tables,
}
use server_deck_backend.Database.Laws.{>>=-returned, >>=-ok, tables-current, tables-read}
use server_deck_backend.Tickets.{
  TicketUpdate, Broadcast, ticket_update, is_member, accessible, find_ticket, with_status,
  set_priority, assign, save_ticket, update_ticket,
}

-- The ticket after a request that sets at most the status.
abbrev pub restated : ℕ → Option String → Ticket → Ticket
restated now status ticket = record ticket {
  status = elim status [ none ↦ ticket.status | some wanted ↦ wanted ];
  updated_at = now;
}

module _ (user : User) (member : is_member user ≡ true) where
  accessible-own :
      (found : Option Ticket) (s : Session) {ticket : Ticket}
      → (accessible user found s).0 ≡ ok ticket
      → (found ≡ some ticket)
        × (accessible user found s ≡ (ok ticket, s))
        × (ticket.created_by_id ≡ user.id)
  unfolding accessible
  accessible-own none s h = cc
  accessible-own (some k) s {ticket} h = elim (Bool-cases (k.created_by_id == user.id)) [
    | inl e ↦
        let same : k ≡ ticket = cc (rw (member, e) at h) in
        (
          ap some same,
          rw (member, e) (ap (λ j. (ok j, s)) same),
          subst (λ j. j.created_by_id ≡ user.id) same (eq_of_== k.created_by_id user.id e),
        )
    | inr e ↦ cc (rw (member, e) at h)
  ]

  -- The ticket is the one row of the member's team with the id, and the session stays as it is.
  pub find_ticket-own :
      (ticket_id : ℕ) (s : Session) {ticket : Ticket}
      → (find_ticket ticket_id user s).0 ≡ ok ticket
      → (t : Tables) × (s.current.tenants s.search_path ≡ some t)
        × (select (λ k. k.id == ticket_id && k.team_id == user.team_id) t.tickets ≡ ticket ∷ [])
        × (ticket.created_by_id ≡ user.id)
        × (find_ticket ticket_id user s ≡ (ok ticket, s))
  unfolding find_ticket
  find_ticket-own ticket_id s {ticket} h =
      let (t, e, h1) = >>=-returned tables (λ _. _) s h in
      let (seen, same) = tables-current s e in
      let rows = select (λ k. k.id == ticket_id && k.team_id == user.team_id) t.tickets in
      let (found, row, h2) = >>=-returned (lift (scalar_one_or_none rows)) (accessible user) _ h1 in
      let (is_some, run, own) =
        accessible-own found s (subst (λ s'. (accessible user found s').0 ≡ ok ticket) same h2) in
      (
        t,
        seen,
        scalar_one_or_none-some rows (row ∙ ap ok is_some),
        own,
        >>=-ok tables _ s (tables-read s seen)
            ∙ >>=-ok (lift (scalar_one_or_none rows)) (accessible user) s (ap (λ r. (r, s)) row)
            ∙ run,
      )

  set_priority-member :
      (priority : Option String) (ticket : Ticket) (s : Session) {k : Ticket}
      → (set_priority user priority ticket s).0 ≡ ok k
      → (priority ≡ none) × (set_priority user priority ticket s ≡ (ok ticket, s))
  unfolding set_priority
  set_priority-member none ticket s h = (refl, refl)
  set_priority-member (some priority) ticket s h = cc (rw member at h)

  assign-member :
      (assignee : Option (Option ℕ)) (ticket : Ticket) (s : Session) {k : Ticket}
      → (assign user assignee ticket s).0 ≡ ok k
      → (assignee ≡ none) × (assign user assignee ticket s ≡ (ok ticket, s))
  unfolding assign
  assign-member none ticket s h = (refl, refl)
  assign-member (some assignee) ticket s h = cc (rw member at h)

  abbrev changes : ℕ → TicketUpdate → Ticket → Action (Ticket × Broadcast)
  changes now request marked = set_priority user request.priority marked >>= λ prioritised.
      assign user request.assigned_to_id prioritised >>= save_ticket now

  changes-member :
      (now : ℕ) (request : TicketUpdate) (marked : Ticket) (s : Session)
      {result : Ticket × Broadcast}
      → (changes now request marked s).0 ≡ ok result
      → (request.priority ≡ none)
        × (request.assigned_to_id ≡ none)
        × (changes now request marked s ≡ save_ticket now marked s)
  changes-member now request marked s h =
      let (_, e1, _) = >>=-returned (set_priority user request.priority marked) (λ _. _) s h in
      let (no_priority, run1) = set_priority-member request.priority marked s e1 in
      let step1 =
        >>=-ok (set_priority user request.priority marked)
          (λ k. assign user request.assigned_to_id k >>= save_ticket now) s run1 in
      let (_, e2, _) =
        >>=-returned (assign user request.assigned_to_id marked) (save_ticket now) s
          (sym (ap (λ r. r.0) step1) ∙ h) in
      let (no_assignee, run2) = assign-member request.assigned_to_id marked s e2 in
      (
        no_priority,
        no_assignee,
        step1 ∙ >>=-ok (assign user request.assigned_to_id marked) (save_ticket now) s run2,
      )

  save_ticket-run :
      (now : ℕ) (ticket : Ticket) (s : Session) (t : Tables)
      → s.current.tenants s.search_path ≡ some t
      → save_ticket now ticket s ≡ (
        ok (record ticket { updated_at = now }, ticket_update (record ticket { updated_at = now })),
        record s {
          current = with_tables s.current s.search_path (record t {
            tickets =
                update_where
                  (λ k. k.id == ticket.id)
                  (λ _. record ticket { updated_at = now })
                  t.tickets;
          });
        },
      )
  unfolding save_ticket put_tables
  save_ticket-run now ticket s t seen = >>=-ok tables _ s (tables-read s seen)

  restated-run :
      (now : ℕ) (status : Option String) (ticket : Ticket) (s : Session) (t : Tables)
      → s.current.tenants s.search_path ≡ some t
      → save_ticket now (with_status status ticket) s ≡ (
        ok (restated now status ticket, ticket_update (restated now status ticket)),
        record s {
          current = with_tables s.current s.search_path (record t {
            tickets =
                update_where (λ k. k.id == ticket.id) (λ _. restated now status ticket) t.tickets;
          });
        },
      )
  restated-run now none ticket s t seen = save_ticket-run now ticket s t seen
  restated-run now (some wanted) ticket s t seen =
      save_ticket-run now (record ticket { status = wanted }) s t seen

  -- A member's update that returns was of the one ticket of the member's team with the id, which
  -- the member created; it asked neither for a priority nor for an assignment. It sets the status
  -- that was asked for, if any, and the time of the update. This ticket is returned and stored in
  -- place of the old one, and nothing else in the session changes.
  pub update_ticket-by_member :
      (now ticket_id : ℕ) (request : TicketUpdate) (s : Session) {result : Ticket × Broadcast}
      → (update_ticket now ticket_id request user s).0 ≡ ok result
      → (t : Tables) × (ticket : Ticket) × (s.current.tenants s.search_path ≡ some t)
        × (select (λ k. k.id == ticket_id && k.team_id == user.team_id) t.tickets ≡ ticket ∷ [])
        × (ticket.created_by_id ≡ user.id)
        × (request.priority ≡ none)
        × (request.assigned_to_id ≡ none)
        × (update_ticket now ticket_id request user s ≡ (
          ok (
            restated now request.status ticket,
            ticket_update (restated now request.status ticket),
          ),
          record s {
            current = with_tables s.current s.search_path (record t {
              tickets =
                  update_where
                    (λ k. k.id == ticket.id)
                    (λ _. restated now request.status ticket)
                    t.tickets;
            });
          },
        ))
        × (result ≡ (
          restated now request.status ticket,
          ticket_update (restated now request.status ticket),
        ))
  unfolding update_ticket
  update_ticket-by_member now ticket_id request s {result} h =
      let (ticket, found, _) = >>=-returned (find_ticket ticket_id user) (λ _. _) s h in
      let (t, seen, row, own, find) = find_ticket-own ticket_id s found in
      let marked = with_status request.status ticket in
      let step =
        >>=-ok (find_ticket ticket_id user)
          (λ k. changes now request (with_status request.status k)) s find in
      let (no_priority, no_assignee, change) =
        changes-member now request marked s (sym (ap (λ r. r.0) step) ∙ h) in
      let run = step ∙ change ∙ restated-run now request.status ticket s t seen in
      let same = ok-injective (sym h ∙ ap (λ r. r.0) run) in
      (t, ticket, seen, row, own, no_priority, no_assignee, run, same)
