-- ===== src/Tickets/Notes.antt =====
-- Internal notes: who writes them and who reads them.
use server_deck_backend.Base.{
  ℕ, ◌≡◌, refl, sym, ap, subst, ◌∙◌, Bool, true, false, ◌&&◌, ◌||◌, not, List, [], ◌∷◌, ◌++◌, ◌==◌,
  nat_eq, string_eq, some, select, update_where, any, arith, ==-refl,
}
use server_deck_backend.Base.Rows.{select-update_where}
use server_deck_backend.Base.Outcome.{Outcome, ok, scalar_one_or_none}
use server_deck_backend.Models.{User, Ticket, TicketMessage}
use server_deck_backend.Database.{Session, Tables, lift, tables, put_tables, with_tables}
use server_deck_backend.Database.Laws.{>>=-ok, tables-read}
use server_deck_backend.Tickets.{
  TicketMessageCreate, Broadcast, ticket_message, is_member, accessible, find_ticket, get_ticket,
  by_creation, insert_by_creation, new_message, add_message, create_ticket_message,
}

insert-any :
    (p : TicketMessage → Bool) (m : TicketMessage) (messages : List TicketMessage)
    → any p (insert_by_creation m messages) ≡ (p m || any p messages)
insert-any p m [] = refl
insert-any p m (n ∷ messages) = ground (arith, insert-any p m messages)

by_creation-any :
    (p : TicketMessage → Bool) (messages : List TicketMessage)
    → any p (by_creation messages) ≡ any p messages
unfolding by_creation
by_creation-any p [] = refl
by_creation-any p (m ∷ messages) =
    insert-any p m (by_creation messages) ∙ ap (λ b. p m || b) (by_creation-any p messages)

select-any_last :
    (p q : TicketMessage → Bool) (messages : List TicketMessage) (m : TicketMessage)
    → q m ≡ true
    → p m ≡ true
    → any p (select q (messages ++ (m ∷ []))) ≡ true
select-any_last p q [] m e d = rw (e, d) refl
select-any_last p q (n ∷ messages) m e d = ground (arith, select-any_last p q messages m e d)

module _ (ticket_id : ℕ) (s : Session) (t : Tables) (ticket : Ticket) (team_id : ℕ)
    (seen : s.current.tenants s.search_path ≡ some t)
    (row : select (λ k. k.id == ticket_id && k.team_id == team_id) t.tickets ≡ ticket ∷ []) where
  find_ticket-run :
      (user : User)
      → user.team_id ≡ team_id
      → (is_member user && not (ticket.created_by_id == user.id)) ≡ false
      → find_ticket ticket_id user s ≡ (ok ticket, s)
  unfolding find_ticket accessible
  find_ticket-run user team allowed =
      >>=-ok tables _ s (tables-read s seen)
      ∙ >>=-ok
          (lift (
            scalar_one_or_none
              (select (λ k. k.id == ticket_id && k.team_id == user.team_id) t.tickets)))
          (accessible user) s
          (ap (λ o. (o, s))
            (subst
              (λ (i : ℕ).
                scalar_one_or_none (select (λ k. k.id == ticket_id && k.team_id == i) t.tickets)
                ≡ ok (some ticket))
              (sym team) (ap scalar_one_or_none row)))
      ∙ rw allowed refl

module _ (new_id now ticket_id : ℕ) (request : TicketMessageCreate) (staff member : User)
    (s : Session) (t : Tables) (ticket : Ticket) (seen : s.current.tenants s.search_path ≡ some t)
    (row : select (λ k. k.id == ticket_id && k.team_id == staff.team_id) t.tickets ≡ ticket ∷ [])
    (is_staff : is_member staff ≡ false) (own : ticket.created_by_id ≡ member.id)
    (team : member.team_id ≡ staff.team_id) where
  abbrev noted : Tables
  noted = record t {
    tickets = update_where (λ k. k.id == ticket.id) (λ k. record k { updated_at = now }) t.tickets;
    ticket_messages = t.ticket_messages ++ (new_message new_id now request staff ticket_id ∷ []);
  }

  abbrev noted_session : Session
  noted_session = record s { current = with_tables s.current s.search_path noted }

  create-run : create_ticket_message new_id now ticket_id request staff s ≡ (
    ok (
      new_message new_id now request staff ticket_id,
      ticket_message (new_message new_id now request staff ticket_id),
    ),
    noted_session,
  )
  unfolding create_ticket_message add_message put_tables
  create-run =
      >>=-ok (find_ticket ticket_id staff) _ s
        (find_ticket-run ticket_id s t ticket staff.team_id seen row staff refl (rw is_staff refl))
      ∙ >>=-ok tables _ s (tables-read s seen)

  abbrev pub noted_ticket : Ticket
  noted_ticket = record ticket { updated_at = now }

  abbrev pub shown : List TicketMessage
  shown = by_creation (select (λ m. m.ticket_id == ticket.id) noted.ticket_messages)

  get-run : get_ticket ticket_id member noted_session ≡ (ok (noted_ticket, shown), noted_session)
  unfolding get_ticket
  get-run =
      let noted_seen : noted_session.current.tenants s.search_path ≡ some noted =
        rw (==-refl s.search_path) refl in
      let noted_row : select (λ k. k.id == ticket_id && k.team_id == staff.team_id) noted.tickets
          ≡ noted_ticket ∷ [] =
        select-update_where (λ k. k.id == ticket_id && k.team_id == staff.team_id)
          (λ k. k.id == ticket.id) (λ k. record k { updated_at = now }) t.tickets (λ k. refl)
        ∙ rw (row, ==-refl ticket.id) refl in
      >>=-ok (find_ticket ticket_id member) _ noted_session (
        find_ticket-run ticket_id noted_session noted noted_ticket staff.team_id noted_seen
          noted_row member team (ground (arith, own, ==-refl member.id)))
      ∙ >>=-ok tables _ noted_session (tables-read noted_session noted_seen)

  -- What a member of the staff writes as an internal note, the member who created the ticket reads
  -- in the ticket's messages.
  pub get_ticket-internal :
      request.is_internal ≡ true
      → ticket.id ≡ ticket_id
      → (found : Ticket) × (messages : List TicketMessage) × ((get_ticket ticket_id member
            (create_ticket_message new_id now ticket_id request staff s).1).0
          ≡ ok (found, messages))
        × (any (λ m. m.id == new_id && m.is_internal) messages ≡ true)
  get_ticket-internal internal same = (
    noted_ticket,
    shown,
    subst
        (λ (r : Outcome (TicketMessage × Broadcast) × Session).
          (get_ticket ticket_id member r.1).0 ≡ ok (noted_ticket, shown))
        (sym create-run) (ap (λ r. r.0) get-run),
    by_creation-any (λ m. m.id == new_id && m.is_internal) _
        ∙ select-any_last (λ m. m.id == new_id && m.is_internal) (λ m. m.ticket_id == ticket.id)
            t.ticket_messages (new_message new_id now request staff ticket_id)
            (subst (λ (i : ℕ). (ticket_id == i) ≡ true) (sym same) (==-refl ticket_id))
            (rw (==-refl new_id, is_staff) internal),
  )
