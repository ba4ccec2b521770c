-- ===== src/Tests/UserTests.antt =====
-- Invitations and deletions on the sample tenant.
use server_deck_backend.Base.{◌≡◌, refl, [], ◌∷◌, none, some, ◌==◌, text_eq, if◌then◌else◌}
use server_deck_backend.Base.Text.{codes}
use server_deck_backend.Base.Outcome.{http}
use server_deck_backend.Models.{UserInvite}
use server_deck_backend.Database.{Session, tables, put_tables, public_tables, commit}
use server_deck_backend.Users.{
  UserAcceptInvite, accept_invite, accept_found, accept_valid, add_user, delete_invite,
  clear_waitlist, delete_request,
}
use server_deck_backend.Users.Invites.{accept_invite-once}
use server_deck_backend.Tests.Samples.{env, acme, acme_tables, database, session}

abbrev eve_invite : UserInvite
eve_invite = record {
  id = 5;
  email = codes "eve@acme.com";
  role = "owner";
  team_id = 1;
  token = codes "t:acme";
  expires_at = 2000;
}

abbrev inviting : Session
inviting = record session {
  current = record database {
    tenants = λ name.
        if name == acme then some (record acme_tables { invites = eve_invite ∷ [] }) else none;
  };
}

abbrev eve : UserAcceptInvite
eve = record { token = codes "t:acme"; name = "Eve"; password = codes "secret12" }

accept_invite-once_example :
    (accept_invite env 1500 2 10 eve (accept_invite env 1000 1 9 eve inviting).1).0
    ≡ http 404 "Invitation not found"
unfolding accept_invite accept_found accept_valid add_user delete_invite clear_waitlist
    delete_request tables put_tables public_tables commit
accept_invite-once_example = accept_invite-once env 1000 1 9 1500 2 10 eve eve inviting refl refl
