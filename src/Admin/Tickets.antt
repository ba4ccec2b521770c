-- ===== src/Admin/Tickets.antt =====
-- The tickets of the individual users: the handlers under "/tickets" of Backend/app/api/admin.py.
-- As in Tickets, what is broadcast stands beside the result; here the commit comes after it.
use server_deck_backend.Base.{ℕ, Bool, List, String, ◌==◌, nat_eq, Option, none, some, select}
use server_deck_backend.Base.Text.{Text}
use server_deck_backend.Base.Outcome.{Outcome, ok, http, crash, scalar_one_or_none}
use server_deck_backend.Models.{Ticket, TicketMessage}
use server_deck_backend.Database.{
  Action, ◌>>=◌, ◌>>◌, pure, lift, raise_http, commit, set_search_path, tables,
}
use server_deck_backend.Tenant.OrgKey.{individual_schema}
use server_deck_backend.Auth.Env.{Env}
use server_deck_backend.Tickets.{
  TicketUpdate, TicketMessageCreate, Broadcast, by_update, by_creation, with_status, save_ticket,
  add_message,
}
use server_deck_backend.Admin.Approve.{ensure_individual}

unfoldable pub all_tickets : Bool → Action (List Ticket)
all_tickets migrated = do
  ensure_individual migrated
  set_search_path individual_schema
  t ← tables
  pure (by_update t.tickets)

-- Every exception becomes the 500.
unfoldable pub listing : Outcome (List Ticket) → Outcome (List Ticket)
listing (ok tickets) = ok tickets
listing (http n d) = http 500 "Failed to list tickets"
listing (crash e) = http 500 "Failed to list tickets"

unfoldable pub list_individual_tickets : Bool → Action (List Ticket)
list_individual_tickets migrated s = let (r, s') = all_tickets migrated s in (listing r, s')

unfoldable pub ticket_or_404 : Option Ticket → Action Ticket
ticket_or_404 none = raise_http 404 "Ticket not found"
ticket_or_404 (some ticket) = pure ticket

unfoldable pub individual_ticket : Env → Text → Action Ticket
individual_ticket env ticket_id = elim (env.uuid.parse ticket_id) [
  | none ↦ do set_search_path individual_schema; lift (crash "DBAPIError")
  | some id ↦ do
    set_search_path individual_schema
    t ← tables
    found ← lift (scalar_one_or_none (select (λ k. k.id == id) t.tickets))
    ticket_or_404 found
]

unfoldable pub get_individual_ticket : Env → Text → Action (Ticket × List TicketMessage)
get_individual_ticket env ticket_id = do
  ticket ← individual_ticket env ticket_id
  t ← tables
  pure (ticket, by_creation (select (λ m. m.ticket_id == ticket.id) t.ticket_messages))

abbrev with_priority : Option String → Ticket → Ticket
with_priority none ticket = ticket
with_priority (some priority) ticket = record ticket { priority = priority }

-- An assignment in the request is passed over.
unfoldable pub update_individual_ticket :
    ℕ → Env → Text → TicketUpdate → Action (Ticket × Broadcast)
update_individual_ticket now env ticket_id request = do
  ticket ← individual_ticket env ticket_id
  saved ← save_ticket now (with_priority request.priority (with_status request.status ticket))
  commit
  pure saved

-- A message of the platform has no sender.
abbrev platform_message : ℕ → ℕ → TicketMessageCreate → Ticket → TicketMessage
platform_message new_id now request ticket = record {
  id = new_id;
  ticket_id = ticket.id;
  sender_id = none;
  body = request.body;
  is_internal = request.is_internal;
  created_at = now;
}

unfoldable pub add_individual_ticket_message :
    ℕ → ℕ → Env → Text → TicketMessageCreate → Action (TicketMessage × Broadcast)
add_individual_ticket_message new_id now env ticket_id request = do
  ticket ← individual_ticket env ticket_id
  saved ← add_message now (platform_message new_id now request ticket) ticket
  commit
  pure saved
