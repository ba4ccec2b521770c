-- ===== src/Admin/Invitation.antt =====
-- An individual who was invited accepts the invitation: Backend/app/api/admin.py with
-- Backend/app/api/users.py.
use server_deck_backend.Base.{
  ◌+◌, ℕ, ◌≡◌, refl, ap, ◌∙◌, Bool, true, false, [], ◌∷◌, ◌==◌, nat_eq, text_eq, none, some, select,
  any, delete_where, ltb, ==-refl,
}
use server_deck_backend.Base.Rows.{select-none, select-first}
use server_deck_backend.Base.Text.{Text, codes}
use server_deck_backend.Base.Outcome.{ok, scalar_one_or_none}
use server_deck_backend.Models.{UserInvite}
use server_deck_backend.Database.{
  Session, Database, Tables, ◌>>◌, lift, public_tables, set_search_path, tables, put_tables, commit,
  send_mail, invitation, with_tables,
}
use server_deck_backend.Database.Laws.{>>=-ok, tables-read}
use server_deck_backend.Tenant.SchemaName.{validate_schema_name}
use server_deck_backend.Tenant.OrgKey.{individual_schema, is_personal_email}
use server_deck_backend.Auth.Env.{Env}
use server_deck_backend.Auth.Login.{find_by_email}
use server_deck_backend.Users.{
  invite_token, UserAcceptInvite, accept_invite, accept_found, accept_valid, add_user,
  delete_invite, clear_waitlist, delete_request, invited_user,
}
use server_deck_backend.Hub.Client.{new_session}
use server_deck_backend.Admin.Approve.{ensure_individual, ensure_in}
use server_deck_backend.Admin.Individuals.{
  create_individual_user, invite_individual, invite_new, individual_invite, guarded, hidden,
}

module _ (migrated : Bool) (now invite_id team_id : ℕ) (random email : Text) (s : Session)
    (t : Tables) (seen : s.current.tenants individual_schema ≡ some t)
    (new_user : any (λ u. u.email == email) t.users ≡ false)
    (uninvited : any (λ i. i.email == email) t.invites ≡ false) where
  abbrev invite : UserInvite
  invite = individual_invite now invite_id team_id random email

  abbrev in_individual : Session
  in_individual = record s { search_path = individual_schema }

  abbrev invited_tables : Tables
  invited_tables = record t { invites = invite ∷ t.invites }

  abbrev invited_database : Database
  invited_database = with_tables s.current individual_schema invited_tables

  abbrev sent : Session
  sent = record s {
    current = invited_database;
    committed = invited_database;
    search_path = individual_schema;
    mails = invitation email invite.token ∷ s.mails;
  }

  new-run : invite_new invite none none in_individual ≡ (ok invite.token, sent)
  unfolding invite_new put_tables commit send_mail
  new-run = >>=-ok tables _ in_individual (tables-read in_individual seen)

  invite-run : invite_individual migrated invite s ≡ (ok invite.token, sent)
  unfolding invite_individual ensure_individual ensure_in public_tables set_search_path
      validate_schema_name find_by_email
  invite-run =
      >>=-ok (ensure_individual migrated) (λ _. _) s (ap (λ o. ensure_in migrated o s) seen)
      ∙ >>=-ok tables _ in_individual (tables-read in_individual seen)
      ∙ >>=-ok (lift (find_by_email email t.users)) (λ _. _) in_individual
          (ap (λ l. (scalar_one_or_none l, in_individual))
            (select-none (λ u. u.email == email) t.users new_user))
      ∙ >>=-ok (lift (scalar_one_or_none (select (λ i. i.email == email) t.invites)))
          (invite_new invite none) in_individual
          (ap (λ l. (scalar_one_or_none l, in_individual))
            (select-none (λ i. i.email == email) t.invites uninvited))
      ∙ new-run

  create-run :
      is_personal_email email ≡ true
      → create_individual_user migrated now invite_id team_id random email s
        ≡ (ok invite.token, sent)
  unfolding create_individual_user guarded hidden
  create-run personal = rw personal (ap (λ r. (hidden "Failed to create user" r.0, r.1)) invite-run)

module _ (env : Env) (now salt new_id : ℕ) (request : UserAcceptInvite) (invite : UserInvite)
    (s : Session) (t : Tables) (seen : s.current.tenants s.search_path ≡ some t)
    (row : select (λ i. i.token == request.token) t.invites ≡ invite ∷ [])
    (in_time : ltb invite.expires_at now ≡ false)
    (new_user : any (λ u. u.email == invite.email) t.users ≡ false)
    (unlisted : select (λ w. w.email == invite.email) s.current.waitlist ≡ []) where
  abbrev accepted_tables : Tables
  accepted_tables = record t {
    users = invited_user env salt new_id request invite ∷ t.users;
    invites = delete_where (λ i. i.id == invite.id) t.invites;
  }

  abbrev with_user : Session
  with_user = record s {
    current =
        with_tables s.current s.search_path
          (record t { users = invited_user env salt new_id request invite ∷ t.users });
  }

  abbrev without_invite : Session
  without_invite = record s {
    current = with_tables with_user.current s.search_path accepted_tables;
  }

  abbrev accepted : Session
  accepted = record without_invite { committed = without_invite.current }

  with_user-seen :
      with_user.current.tenants s.search_path
      ≡ some (record t { users = invited_user env salt new_id request invite ∷ t.users })
  with_user-seen = rw (==-refl s.search_path) refl

  accept-run : accept_invite env now salt new_id request s ≡ (ok tt, accepted)
  unfolding accept_invite accept_found accept_valid add_user delete_invite clear_waitlist
      delete_request put_tables public_tables commit
  accept-run =
      >>=-ok tables _ s (tables-read s seen)
      ∙ >>=-ok (lift (scalar_one_or_none (select (λ i. i.token == request.token) t.invites)))
          (accept_found env now salt new_id request) s (ap (λ l. (scalar_one_or_none l, s)) row)
      ∙ rw in_time (
          >>=-ok (add_user (invited_user env salt new_id request invite)) (λ _. _) s
            (>>=-ok tables _ s (tables-read s seen) ∙ rw new_user refl)
          ∙ >>=-ok (delete_invite invite) (λ _. _) with_user
              (>>=-ok tables _ with_user (tables-read with_user with_user-seen))
          ∙ >>=-ok
              (lift (scalar_one_or_none (select (λ w. w.email == invite.email) s.current.waitlist)))
              (λ w. delete_request w >> commit) without_invite
              (ap (λ l. (scalar_one_or_none l, without_invite)) unlisted))

module _ (migrated : Bool) (now invite_id team_id : ℕ) (random email : Text) (s : Session)
    (t : Tables) (seen : s.current.tenants individual_schema ≡ some t)
    (personal : is_personal_email email ≡ true)
    (new_user : any (λ u. u.email == email) t.users ≡ false)
    (uninvited : any (λ i. i.email == email) t.invites ≡ false)
    (unlisted : select (λ w. w.email == email) s.current.waitlist ≡ []) (env : Env)
    (later salt new_id : ℕ) (request : UserAcceptInvite)
    (in_time : ltb (now + 604800) later ≡ false)
    (same_token : request.token ≡ invite_token random (codes "individual"))
    (new_token : any (λ i. i.token == request.token) t.invites ≡ false) where
  abbrev created : Session
  created = sent migrated now invite_id team_id random email s t seen new_user uninvited

  abbrev resolved : Session
  resolved = record (new_session created.committed) { search_path = individual_schema }

  abbrev new_invite : UserInvite
  new_invite = individual_invite now invite_id team_id random email

  abbrev created_tables : Tables
  created_tables = record t { invites = new_invite ∷ t.invites }

  row : select (λ i. i.token == request.token) created_tables.invites ≡ new_invite ∷ []
  row =
      select-first (λ i. i.token == request.token) new_invite t.invites
        (rw same_token (==-refl (invite_token random (codes "individual")))) new_token

  accepted_run : accept_invite env later salt new_id request resolved ≡ (
    ok tt,
    accepted env later salt new_id request new_invite resolved created_tables refl row in_time
        new_user unlisted,
  )
  accepted_run =
      accept-run env later salt new_id request new_invite resolved created_tables refl row in_time
        new_user unlisted

  -- An individual with a personal address that neither a user nor an invitation has is invited.
  -- The address is not on the waiting list, and no other invitation has the token of the answer.
  -- Accepting with that token within seven days, in the schema of the individuals, succeeds: the
  -- schema then has the owner of the new team with the given name and password besides the users
  -- it had, and the invitation is gone.
  pub create_individual_user-accepted :
      ((create_individual_user migrated now invite_id team_id random email s).0
        ≡ ok (invite_token random (codes "individual")))
      × ((accept_invite env later salt new_id request
            (record (new_session
              (create_individual_user migrated now invite_id team_id random email s).1.committed) {
                search_path = individual_schema;
              })).0
          ≡ ok tt)
      × ((accept_invite env later salt new_id request
              (record (new_session
                (create_individual_user migrated now invite_id team_id random email
                  s).1.committed) { search_path = individual_schema })).1.committed.tenants
            individual_schema
          ≡ some (record t {
            users =
                record {
                  id = new_id;
                  email = email;
                  password_hash = env.bcrypt.hash salt request.password;
                  name = request.name;
                  team_id = team_id;
                  role = "owner";
                  is_active = true;
                  enabled_modules = none;
                  two_factor_enabled = false;
                  two_factor_method = none;
                  two_factor_secret = none;
                  two_factor_otp_secret = none;
                  two_factor_otp_expires_at = none;
                }
                ∷ t.users;
            invites = delete_where (λ i. i.id == invite_id) t.invites;
          }))
  create_individual_user-accepted =
      rw
        (create-run migrated now invite_id team_id random email s t seen new_user uninvited
          personal)
        (
          refl,
          ap (λ r. r.0) accepted_run,
          ap (λ r. r.1.committed.tenants individual_schema) accepted_run
              ∙ rw (==-refl invite_id) refl,
        )
