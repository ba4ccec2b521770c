-- ===== src/Lib.antt =====
-- ServerDeck: a backend that relays commands from browsers to agents on Linux servers, for
-- many tenants, and the agent. Paths below are those of the repository.
--
-- Base holds what the other modules share: tests, lists, rows and counts of queries, texts as
-- lists of code points, outcomes of handlers. Models has the rows of Backend/app/models.
-- Tenant models Backend/app/services/tenant.py and the names of Backend/app/database.py:
-- Tenant.SchemaName is `validate_schema_name`, Tenant.OrgKey is `get_org_key_from_email` and
-- `is_personal_email`, Tenant.Modules is `get_user_resolved_modules` and
-- `get_org_enabled_modules`, and Tenant.Resolve is `resolve_tenant`, which finds the tenant of
-- a connection before its handler runs. Database is the session of a request (`get_db`,
-- `set_search_path`): a handler is an action on a session that keeps what is committed apart
-- from what is written; Database.Commits is about actions that commit nothing. Auth.Tokens is
-- Backend/app/security.py with the tokens of Backend/app/api/auth.py; Auth.CurrentUser is
-- Backend/app/middleware/auth.py; Auth.Totp is Backend/app/services/totp.py; Auth.Login is
-- `login`, Auth.SecondFactor is `login_2fa`, and Auth.Reset is `forgot_password` and
-- `reset_password`, of Backend/app/api/auth.py.
--
-- Users is Backend/app/api/users.py: `invite_user`, `get_invite_details`, `accept_invite` and
-- `create_user_direct`; Users.Members is its `delete_user`, `change_password` and
-- `update_user_modules`. Folders is Backend/app/api/folders.py, Servers is
-- Backend/app/api/servers.py, and Tickets is Backend/app/api/tickets.py, where what a handler
-- broadcasts as its last step stands beside its result. Servers.Agents puts Servers together
-- with the handler of agents (Hub.Agents).
--
-- Admin is Backend/app/api/admin.py: `require_platform_owner` and `setup_platform_owner`;
-- Admin.Organizations is the handlers of organizations, Admin.Waitlist those of the waiting
-- list, and Admin.Approve is `approve_waitlist`, whose three cases are those of the code.
-- Admin.Individuals is the invitation, the deletion and the modules of individual users,
-- Admin.Tickets their tickets; Admin.Invitation follows an invitation until it is accepted.
-- Whether a schema can be created and migrated is an argument. A write that is pending when
-- the search path is switched is made by the commit, in the schema that is set by then. Sql is
-- Backend/app/api/sql.py; what the agent and the language model answer are arguments.
--
-- Alerts is the alert tables of one tenant: the rules and one pass of `check_alerts` of
-- Backend/app/services/alert_service.py, which check one rule at a time and commit before the
-- next; Alerts.Rules is the handlers of Backend/app/api/alerts.py, and Alerts.Steps the orders
-- in which passes and requests may come. Alerts.Firing has the abstract view, a set of rules
-- that fire. Floats, and the dates in an agent's report, are a record of operations without
-- laws.
--
-- Hub is the traffic between browsers and agents in the memory of one process. Hub.Watch is
-- who watches a server or a ticket, and Hub.Streams who gets the output of a stream or a
-- terminal, of Backend/app/ws/client_handler.py; Hub.Client is `_user_owns_server`,
-- `_authorize` and the beginning of `client_websocket`, Hub.Client.Modules the modules that an
-- action needs, Hub.Client.Commands its messages to agents, and Hub.Client.Messages its loop.
-- Hub.Agents is Backend/app/ws/agent_handler.py, and Hub.Bridge
-- Backend/app/services/command_bridge.py. A websocket is a number, and so is a future. Each
-- handler runs between two awaits as one step; Watch.Disconnect.IsReachable,
-- Streams.Laws.IsReachable and Bridge.Runs.run are the orders in which steps may come. On
-- which websockets a send succeeds, and what `send_command_to_agent` comes to for the handler
-- of a client's message, are arguments.
--
-- Agent is the other end of the websocket: `command_handler` of agent/serverdeck_agent/main.py
-- and `_listen` with `_handle_terminal` of agent/serverdeck_agent/connection.py; the handlers
-- that it runs, and which terminals start, are arguments. A reply is its id, its key "type"
-- and its status. Agent.Portal is what the portal takes a reply for, and Agent.Replies
-- puts the two together with Hub.Bridge. Agent.Backoff is the loop of `connect`,
-- Agent.Terminals the terminals whose shell has ended, and Agent.Files
-- agent/serverdeck_agent/handlers/files.py over a record of the operations of the operating
-- system.
--
-- python-jose, passlib's bcrypt, the UUID type, HMAC-SHA1 and the base32 decoder are records
-- of operations (Auth.Env) with the behaviour that their documentation states; Tests.Codec and
-- Tests.Samples have packages that meet it. What uuid4 and secrets draw is an argument. The
-- clock is an argument, one reading for a request, in whole seconds. `lower` is that of ASCII.
-- Rows carry the columns that the modelled code reads. No definition runs on fuel: all loops
-- go over lists of messages, rows or attempts.
--
-- Not modelled: the columns that telemetry and scans write, sending of mails, the diagnosis of
-- alerts, the listings of alerts, the handlers of the agent that run a program, the two
-- listings of the administration API, migrations, logging, and the loss of a search path when
-- a connection goes back to its pool.
pub mod Base
pub mod Tenant
pub mod Users
pub mod Folders
pub mod Servers
pub mod Alerts
pub mod Tickets
pub mod Agent
pub mod Sql
pub mod Admin
pub mod Hub
pub mod Models
pub mod Auth
pub mod Database
pub mod Tests
