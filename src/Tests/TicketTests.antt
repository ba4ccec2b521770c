-- ===== src/Tests/TicketTests.antt =====
-- Tickets of the sample tenant: Ann is on the staff, Carl is a member.
use server_deck_backend.Base.{
  ◌≡◌, refl, Bool, true, ◌&&◌, List, [], ◌∷◌, ◌==◌, nat_eq, text_eq, string_eq, Option, none, some,
  arith, any, if◌then◌else◌, select, update_where, eq_of_==, All,
}
use server_deck_backend.Base.Text.{Text, codes}
use server_deck_backend.Base.Counts.{count}
use server_deck_backend.Base.Outcome.{ok}
use server_deck_backend.Models.{User, Ticket, TicketMessage}
use server_deck_backend.Database.{
  Session, Tables, Database, run_request, close_session, tables, put_tables, with_tables,
}
use server_deck_backend.Tickets.{
  TicketUpdate, TicketMessageCreate, get_ticket, create_ticket_message, update_ticket, list_tickets,
  find_ticket, accessible, set_priority, assign, save_ticket, ticket_update, Broadcast,
}
use server_deck_backend.Tickets.Laws.{restated, update_ticket-by_member}
use server_deck_backend.Tickets.Refusals.{update_ticket-refused}
use server_deck_backend.Tickets.Notes.{get_ticket-internal}
use server_deck_backend.Tickets.Listing.{NewestFirst, IsListed, list_tickets-IsListed}
use server_deck_backend.Tests.Samples.{ann, acme, acme_tables, database, session}

abbrev carl : User
carl = record ann { id = 9; email = codes "carl@acme.com"; role = "member" }

abbrev broken : Ticket
broken = record {
  id = 50;
  team_id = 1;
  title = "Broken";
  description = "It is broken";
  status = "Open";
  priority = "Medium";
  created_by_id = 9;
  assigned_to_id = none;
  alert_id = none;
  created_at = 10;
  updated_at = 10;
}

abbrev ticket_tables : Tables
ticket_tables = record acme_tables { users = ann ∷ carl ∷ []; tickets = broken ∷ [] }

abbrev only_tickets : Text → Option Tables
only_tickets name = if name == acme then some ticket_tables else none

abbrev ticket_database : Database
ticket_database = record database { tenants = only_tickets }

abbrev open_session : Session
open_session = record session { committed = ticket_database; current = ticket_database }

abbrev note : TicketMessageCreate
note = record { body = "The customer is wrong"; is_internal = true }

abbrev close_it : TicketUpdate
close_it = record { status = some "Closed"; priority = none; assigned_to_id = none }

abbrev raise_it : TicketUpdate
raise_it = record { status = some "Closed"; priority = some "Urgent"; assigned_to_id = none }

abbrev closed_ticket : Ticket × Broadcast
closed_ticket = (
  record broken { status = "Closed"; updated_at = 20 },
  ticket_update (record broken { status = "Closed"; updated_at = 20 }),
)

update_ticket-by_member_example :
    (t : Tables) × (ticket : Ticket) × (open_session.current.tenants open_session.search_path
      ≡ some t)
    × (select (λ k. k.id == 50 && k.team_id == 1) t.tickets ≡ ticket ∷ [])
    × (ticket.created_by_id ≡ 9)
    × (close_it.priority ≡ none)
    × (close_it.assigned_to_id ≡ none)
    × (update_ticket 20 50 close_it carl open_session ≡ (
      ok (restated 20 (some "Closed") ticket, ticket_update (restated 20 (some "Closed") ticket)),
      record open_session {
        current = with_tables open_session.current open_session.search_path (record t {
          tickets =
              update_where
                (λ k. k.id == ticket.id)
                (λ _. restated 20 (some "Closed") ticket)
                t.tickets;
        });
      },
    ))
    × (closed_ticket
        ≡ (restated 20 (some "Closed") ticket, ticket_update (restated 20 (some "Closed") ticket)))
unfolding update_ticket find_ticket accessible set_priority assign save_ticket tables put_tables
update_ticket-by_member_example =
    update_ticket-by_member carl refl 20 50 close_it open_session {result = closed_ticket} refl

update_ticket-refused_example :
    (run_request (update_ticket 20 50 raise_it carl) acme ticket_database).1 ≡ ticket_database
unfolding update_ticket find_ticket accessible set_priority assign save_ticket tables put_tables
    run_request close_session
update_ticket-refused_example =
    update_ticket-refused 20 50 raise_it carl acme ticket_database (λ result h. cc h)

get_ticket-internal_example :
    (found : Ticket) × (messages : List TicketMessage) × ((get_ticket 50 carl
        (create_ticket_message 60 20 50 note ann open_session).1).0
      ≡ ok (found, messages))
    × (any (λ m. m.id == 60 && m.is_internal) messages ≡ true)
get_ticket-internal_example =
    get_ticket-internal 60 20 50 note ann carl open_session ticket_tables broken refl refl refl refl
      refl refl refl

-- The tickets that Carl has created.
abbrev by_carl : Ticket → Bool
by_carl k = k.team_id == 1 && k.created_by_id == 9

by_carl-IsListed : (k : Ticket) → by_carl k ≡ true → IsListed none none carl k
by_carl-IsListed k h = record {
  team = eq_of_== k.team_id 1 (ground arith);
  own = λ member. eq_of_== k.created_by_id 9 (ground arith);
  status = λ wanted e some_text. cc e;
  priority = λ wanted e some_text. cc e;
}

list_tickets-IsListed_example :
    (tickets : List Ticket) × (list_tickets none none carl open_session
      ≡ (ok tickets, open_session))
    × NewestFirst tickets
    × All (IsListed none none carl) tickets
    × (count by_carl tickets ≡ count by_carl (broken ∷ []))
list_tickets-IsListed_example =
    list_tickets-IsListed none none carl open_session ticket_tables refl by_carl by_carl-IsListed
