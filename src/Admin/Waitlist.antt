-- ===== src/Admin/Waitlist.antt =====
-- The waiting list: `list_waitlist` and `delete_waitlist` of Backend/app/api/admin.py.
use server_deck_backend.Base.{
  Bool, List, [], ◌∷◌, ◌==◌, nat_eq, string_eq, text_eq, Option, none, some, select, any,
}
use server_deck_backend.Base.Text.{Text, codes}
use server_deck_backend.Base.Outcome.{crash, scalar_one_or_none}
use server_deck_backend.Models.{UserInvite, WaitlistRequest}
use server_deck_backend.Database.{
  Action, ◌>>=◌, ◌>>◌, pure, lift, raise_http, commit, set_search_path, tables, public_tables,
}
use server_deck_backend.Tenant.OrgKey.{individual_schema}
use server_deck_backend.Auth.Env.{Env}
use server_deck_backend.Users.{delete_request}

abbrev pub public_schema : Text
public_schema = codes "public"

-- The rows with whether an invitation has their address.
unfoldable pub invited : List UserInvite → List WaitlistRequest → List (WaitlistRequest × Bool)
invited invites [] = []
invited invites (r ∷ requests) =
    (r, any (λ i. i.email == r.email) invites) ∷ invited invites requests

unfoldable pub list_requests : List WaitlistRequest → Action (List (WaitlistRequest × Bool))
list_requests [] = pure []
list_requests (r ∷ requests) = do
  set_search_path individual_schema
  t ← tables
  set_search_path public_schema
  pure (invited t.invites (r ∷ requests))

unfoldable pub list_waitlist : Action (List (WaitlistRequest × Bool))
list_waitlist = do db ← public_tables; list_requests db.waitlist

unfoldable pub find_request : Env → Text → Action (Option WaitlistRequest)
find_request env request_id = elim (env.uuid.parse request_id) [
  | none ↦ lift (crash "DBAPIError")
  | some id ↦ do
    db ← public_tables
    lift (scalar_one_or_none (select (λ r. r.id == id) db.waitlist))
]

unfoldable pub delete_found_request : Option WaitlistRequest → Action (Unit {0})
delete_found_request none = raise_http 404 "Waitlist request not found"
delete_found_request (some request) = do delete_request (some request); commit

unfoldable pub delete_waitlist : Env → Text → Action (Unit {0})
delete_waitlist env request_id = do
  request ← find_request env request_id
  delete_found_request request

-- `await db.delete(req)` and the commit, in the schema "public".
unfoldable pub close_request : WaitlistRequest → Action (Unit {0})
close_request request = do set_search_path public_schema; delete_request (some request); commit
