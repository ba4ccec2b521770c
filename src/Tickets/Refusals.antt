-- ===== src/Tickets/Refusals.antt =====
-- A request about a ticket that is refused changes nothing, however late it is refused.
use server_deck_backend.Base.{◌≡◌, ◌≢◌, refl, ℕ, Option, none, some, String}
use server_deck_backend.Base.Text.{Text}
use server_deck_backend.Base.Outcome.{ok}
use server_deck_backend.Models.{User, Ticket}
use server_deck_backend.Database.{Database, lift, tables, put_tables, run_request}
use server_deck_backend.Database.Commits.{
  CommitsNothing, >>=-CommitsNothing, tables-CommitsNothing, if-CommitsNothing, run_request-refused,
}
use server_deck_backend.Tickets.{
  TicketUpdate, Broadcast, accessible, find_ticket, set_priority, assign, assign_to, assign_found,
  save_ticket, update_ticket,
}

accessible-CommitsNothing :
    (user : User) (found : Option Ticket) → CommitsNothing (accessible user found)
unfolding accessible
accessible-CommitsNothing user none s = refl
accessible-CommitsNothing user (some ticket) s =
    if-CommitsNothing _ _ (λ s. (ok ticket, s)) (λ s. refl) (λ s. refl) s

find_ticket-CommitsNothing :
    (ticket_id : ℕ) (user : User) → CommitsNothing (find_ticket ticket_id user)
unfolding find_ticket
find_ticket-CommitsNothing ticket_id user =
    >>=-CommitsNothing tables (λ _. _) tables-CommitsNothing
      (λ t.
        >>=-CommitsNothing (lift _) (accessible user) (λ s. refl) (accessible-CommitsNothing user))

set_priority-CommitsNothing :
    (user : User) (priority : Option String) (ticket : Ticket)
    → CommitsNothing (set_priority user priority ticket)
unfolding set_priority
set_priority-CommitsNothing user none ticket s = refl
set_priority-CommitsNothing user (some priority) ticket s =
    if-CommitsNothing _ _ (λ s. (ok (record ticket { priority = priority }), s)) (λ s. refl)
      (λ s. refl) s

assign_found-CommitsNothing :
    (id : ℕ) (ticket : Ticket) (found : Option User) → CommitsNothing (assign_found id ticket found)
unfolding assign_found
assign_found-CommitsNothing id ticket none s = refl
assign_found-CommitsNothing id ticket (some assignee) s = refl

assign_to-CommitsNothing :
    (user : User) (assignee : Option ℕ) (ticket : Ticket)
    → CommitsNothing (assign_to user assignee ticket)
unfolding assign_to
assign_to-CommitsNothing user none ticket s = refl
assign_to-CommitsNothing user (some id) ticket s =
    >>=-CommitsNothing tables (λ _. _) tables-CommitsNothing
      (λ t.
        >>=-CommitsNothing (lift _) (assign_found id ticket) (λ s. refl)
          (assign_found-CommitsNothing id ticket))
      s

assign-CommitsNothing :
    (user : User) (assignee : Option (Option ℕ)) (ticket : Ticket)
    → CommitsNothing (assign user assignee ticket)
unfolding assign
assign-CommitsNothing user none ticket s = refl
assign-CommitsNothing user (some assignee) ticket s =
    if-CommitsNothing _ _ (assign_to user assignee ticket) (λ s. refl)
      (assign_to-CommitsNothing user assignee ticket) s

save_ticket-CommitsNothing : (now : ℕ) (ticket : Ticket) → CommitsNothing (save_ticket now ticket)
unfolding save_ticket put_tables
save_ticket-CommitsNothing now ticket =
    >>=-CommitsNothing tables (λ _. _) tables-CommitsNothing (λ t s. refl)

-- An update of a ticket that is refused changes nothing in the database, also where the status was
-- set before the priority or the assignment was refused.
pub update_ticket-refused :
    (now ticket_id : ℕ) (request : TicketUpdate) (user : User) (schema : Text) (db : Database)
    → ((result : Ticket × Broadcast)
        → (run_request (update_ticket now ticket_id request user) schema db).0 ≢ ok result)
    → (run_request (update_ticket now ticket_id request user) schema db).1 ≡ db
unfolding update_ticket
update_ticket-refused now ticket_id request user schema db =
    run_request-refused (update_ticket now ticket_id request user) schema db (
      >>=-CommitsNothing (find_ticket ticket_id user) (λ _. _)
        (find_ticket-CommitsNothing ticket_id user)
        (λ ticket.
          >>=-CommitsNothing (set_priority user request.priority _) (λ _. _)
            (set_priority-CommitsNothing user request.priority _)
            (λ k.
              >>=-CommitsNothing (assign user request.assigned_to_id k) (save_ticket now)
                (assign-CommitsNothing user request.assigned_to_id k)
                (save_ticket-CommitsNothing now))))
