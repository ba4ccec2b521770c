-- ===== src/Tickets.antt =====
-- Tickets and their messages: Backend/app/api/tickets.py. The caller has passed
-- `get_current_user`. What a handler broadcasts to the ticket's watchers, as its last step, is
-- returned beside its result. `new_id` is what `uuid.uuid4` gives, `now` is in seconds, and
-- `alert_exists` is the foreign key to the alerts.
pub mod Laws
pub mod Listing
pub mod Notes
pub mod Refusals
use server_deck_backend.Base.{
  ℕ, Bool, true, false, ◌&&◌, ◌||◌, not, List, [], ◌∷◌, ◌++◌, String, ◌==◌, nat_eq, string_eq,
  Option, none, some, select, update_where, if◌then◌else◌, leb,
}
use server_deck_backend.Base.Outcome.{crash, scalar_one_or_none}
use server_deck_backend.Models.{User, Ticket, TicketMessage}
use server_deck_backend.Database.{
  Action, Tables, ◌>>=◌, ◌>>◌, pure, lift, raise_http, tables, put_tables,
}

pub record TicketCreate : Type 0 where
  pub title : String
  pub description : String
  pub priority : String
  pub alert_id : Option ℕ

-- A field that was not sent is none: `assigned_to_id` may be sent as null.
pub record TicketUpdate : Type 0 where
  pub status : Option String
  pub priority : Option String
  pub assigned_to_id : Option (Option ℕ)

pub record TicketMessageCreate : Type 0 where
  pub body : String
  pub is_internal : Bool

pub data Broadcast : Type 0 where
  ticket_update : Ticket → Broadcast
  ticket_message : TicketMessage → Broadcast

abbrev pub is_member : User → Bool
is_member user = user.role == "member"

abbrev refers : (ℕ → Bool) → Option ℕ → Bool
refers exists none = true
refers exists (some id) = exists id

unfoldable pub create_ticket : (ℕ → Bool) → ℕ → ℕ → TicketCreate → User → Action Ticket
create_ticket alert_exists new_id now request user =
    let ticket : Ticket = record {
      id = new_id;
      team_id = user.team_id;
      title = request.title;
      description = request.description;
      status = "Open";
      priority = request.priority;
      created_by_id = user.id;
      assigned_to_id = none;
      alert_id = request.alert_id;
      created_at = now;
      updated_at = now;
    } in
    if refers alert_exists request.alert_id
    then (do t ← tables; put_tables (record t { tickets = ticket ∷ t.tickets }); pure ticket)
    else lift (crash "IntegrityError")

-- `order_by(Ticket.updated_at.desc())`
abbrev insert_by_update : Ticket → List Ticket → List Ticket
insert_by_update k [] = k ∷ []
insert_by_update k (j ∷ tickets) =
    let rest = insert_by_update k tickets in
    if leb j.updated_at k.updated_at then k ∷ j ∷ tickets else j ∷ rest

unfoldable pub by_update : List Ticket → List Ticket
by_update [] = []
by_update (k ∷ tickets) = insert_by_update k (by_update tickets)

-- A filter that is missing or empty lets every text pass.
abbrev pub passes : Option String → String → Bool
passes none text = true
passes (some wanted) text = wanted == "" || text == wanted

abbrev pub listed : User → Option String → Option String → Ticket → Bool
listed user status_filter priority_filter k =
    k.team_id == user.team_id
    && (not (is_member user) || k.created_by_id == user.id)
    && passes status_filter k.status
    && passes priority_filter k.priority

unfoldable pub list_tickets : Option String → Option String → User → Action (List Ticket)
list_tickets status_filter priority_filter user = do
  t ← tables
  pure (by_update (select (listed user status_filter priority_filter) t.tickets))

-- The ticket of the caller's team, which is the caller's own if the caller is a member.
unfoldable pub accessible : User → Option Ticket → Action Ticket
accessible user none = raise_http 404 "Ticket not found"
accessible user (some ticket) =
    if is_member user && not (ticket.created_by_id == user.id)
    then raise_http 403 "Access denied"
    else pure ticket

unfoldable pub find_ticket : ℕ → User → Action Ticket
find_ticket ticket_id user = do
  t ← tables
  found ←
      lift (
        scalar_one_or_none (select (λ k. k.id == ticket_id && k.team_id == user.team_id) t.tickets))
  accessible user found

-- `sorted(ticket.messages, key=lambda m: m.created_at)`
abbrev insert_by_creation : TicketMessage → List TicketMessage → List TicketMessage
insert_by_creation m [] = m ∷ []
insert_by_creation m (n ∷ messages) =
    let rest = insert_by_creation m messages in
    if leb m.created_at n.created_at then m ∷ n ∷ messages else n ∷ rest

unfoldable pub by_creation : List TicketMessage → List TicketMessage
by_creation [] = []
by_creation (m ∷ messages) = insert_by_creation m (by_creation messages)

unfoldable pub get_ticket : ℕ → User → Action (Ticket × List TicketMessage)
get_ticket ticket_id user = do
  ticket ← find_ticket ticket_id user
  t ← tables
  pure (ticket, by_creation (select (λ m. m.ticket_id == ticket.id) t.ticket_messages))

abbrev pub with_status : Option String → Ticket → Ticket
with_status none ticket = ticket
with_status (some status) ticket = record ticket { status = status }

unfoldable pub set_priority : User → Option String → Ticket → Action Ticket
set_priority user none ticket = pure ticket
set_priority user (some priority) ticket =
    if is_member user
    then raise_http 403 "Members cannot change priority"
    else pure (record ticket { priority = priority })

unfoldable pub assign_found : ℕ → Ticket → Option User → Action Ticket
assign_found id ticket none = raise_http 400 "Invalid assignee"
assign_found id ticket (some assignee) = pure (record ticket { assigned_to_id = some id })

unfoldable pub assign_to : User → Option ℕ → Ticket → Action Ticket
assign_to user none ticket = pure (record ticket { assigned_to_id = none })
assign_to user (some id) ticket = do
  t ← tables
  assignee ←
      lift (scalar_one_or_none (select (λ u. u.id == id && u.team_id == user.team_id) t.users))
  assign_found id ticket assignee

unfoldable pub assign : User → Option (Option ℕ) → Ticket → Action Ticket
assign user none ticket = pure ticket
assign user (some assignee) ticket =
    if is_member user
    then raise_http 403 "Members cannot assign tickets"
    else assign_to user assignee ticket

-- `updated_at`, the flush and the broadcast.
unfoldable pub save_ticket : ℕ → Ticket → Action (Ticket × Broadcast)
save_ticket now ticket = do
  t ← tables
  put_tables (record t {
    tickets =
        update_where (λ k. k.id == ticket.id) (λ _. record ticket { updated_at = now }) t.tickets;
  })
  pure (record ticket { updated_at = now }, ticket_update (record ticket { updated_at = now }))

unfoldable pub update_ticket : ℕ → ℕ → TicketUpdate → User → Action (Ticket × Broadcast)
update_ticket now ticket_id request user = do
  ticket ← find_ticket ticket_id user
  prioritised ← set_priority user request.priority (with_status request.status ticket)
  assigned ← assign user request.assigned_to_id prioritised
  save_ticket now assigned

abbrev pub new_message : ℕ → ℕ → TicketMessageCreate → User → ℕ → TicketMessage
new_message new_id now request user ticket_id = record {
  id = new_id;
  ticket_id = ticket_id;
  sender_id = some user.id;
  body = request.body;
  is_internal = if is_member user then false else request.is_internal;
  created_at = now;
}

unfoldable pub add_message : ℕ → TicketMessage → Ticket → Action (TicketMessage × Broadcast)
add_message now message ticket = do
  t ← tables
  put_tables (record t {
    tickets = update_where (λ k. k.id == ticket.id) (λ k. record k { updated_at = now }) t.tickets;
    ticket_messages = t.ticket_messages ++ (message ∷ []);
  })
  pure (message, ticket_message message)

unfoldable pub create_ticket_message :
    ℕ → ℕ → ℕ → TicketMessageCreate → User → Action (TicketMessage × Broadcast)
create_ticket_message new_id now ticket_id request user = do
  ticket ← find_ticket ticket_id user
  add_message now (new_message new_id now request user ticket_id) ticket
