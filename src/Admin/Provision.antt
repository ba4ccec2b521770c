-- ===== src/Admin/Provision.antt =====
-- What the approval of an organization leaves behind, and a login without an organization.
use server_deck_backend.Base.{
  ℕ, ◌≡◌, refl, ap, ◌∙◌, true, false, [], ◌∷◌, String, ◌==◌, text_eq, nat_eq, string_eq, Option,
  none, some, ==-refl, select, any, delete_where,
}
use server_deck_backend.Base.Text.{Text}
use server_deck_backend.Base.Outcome.{ok, http}
use server_deck_backend.Models.{Organization, WaitlistRequest}
use server_deck_backend.Database.{
  Session, Database, Tables, public_tables, put_public, commit, set_search_path, tables, put_tables,
  with_tables, send_mail, org_creation,
}
use server_deck_backend.Database.Laws.{>>=-ok, tables-read}
use server_deck_backend.Tenant.SchemaName.{validate_schema_name}
use server_deck_backend.Tenant.OrgKey.{get_org_key_from_email, individual}
use server_deck_backend.Tenant.Modules.{find_organization}
use server_deck_backend.Auth.Env.{Env}
use server_deck_backend.Auth.Login.{UserLogin, login, login_any, login_by_key, login_in_org}
use server_deck_backend.Users.{add_user, delete_request}
use server_deck_backend.Admin.Organizations.{
  add_organization, provision, with_schema, no_tables, clashes, owner_user,
}
use server_deck_backend.Admin.Waitlist.{close_request, public_schema}
use server_deck_backend.Admin.Approve.{Drawn, approve_as, given_text}

module _ (env : Env) where
  -- A login under an address whose key no organization has.
  pub login-unknown :
      (now salt : ℕ) (code : Text) (request : UserLogin) (s : Session) (key : Text)
      → select (λ p. p.email == request.email) s.current.platform_users ≡ []
      → get_org_key_from_email request.email ≡ some key
      → (key == []) ≡ false
      → (key == individual) ≡ false
      → select (λ o. o.org_key == key) s.current.organizations ≡ []
      → (login env now salt code request s).0 ≡ http 401 "Invalid email or password"
  unfolding login login_any login_by_key login_in_org find_organization public_tables
  login-unknown now salt code request s key stranger key_of filled business unknown =
      rw (stranger, key_of, filled, business, unknown) refl

module _ (drawn : Drawn) (name : String) (request : WaitlistRequest) (org : Organization)
    (s : Session) (valid : validate_schema_name org.schema_name ≡ ok org.schema_name)
    (no_clash : any (clashes org) s.current.organizations ≡ false)
    (new_schema : s.current.tenants org.schema_name ≡ none) where
  abbrev added : Database
  added = record s.current { organizations = org ∷ s.current.organizations }

  abbrev provisioned : Database
  provisioned = with_schema org.schema_name none added

  abbrev in_org : Session
  in_org = record s {
    current = provisioned;
    committed = provisioned;
    search_path = org.schema_name;
  }

  abbrev owned : Tables
  owned = record no_tables {
    users =
        owner_user drawn.ids.user_id drawn.ids.team_id request.email
          (given_text drawn.password_hash request.password_hash) name
        ∷ [];
  }

  abbrev closed_database : Database
  closed_database = record (with_tables provisioned org.schema_name owned) {
    waitlist = delete_where (λ w. w.id == request.id) s.current.waitlist;
  }

  abbrev approved : Session
  approved = record s {
    current = closed_database;
    committed = closed_database;
    search_path = public_schema;
    mails = org_creation request.email ∷ s.mails;
  }

  abbrev with_org : Session
  with_org = record s { current = added; committed = added }

  abbrev with_both : Session
  with_both = record s { current = provisioned; committed = provisioned }

  abbrev with_user : Session
  with_user = record in_org { current = with_tables provisioned org.schema_name owned }

  abbrev closed : Session
  closed = record s {
    current = closed_database;
    committed = closed_database;
    search_path = public_schema;
  }

  add-run : add_organization org s ≡ (ok tt, with_org)
  unfolding add_organization public_tables put_public commit
  add-run = rw no_clash refl

  provision-run : (message : String) → provision true message org with_org ≡ (ok tt, with_both)
  unfolding provision public_tables put_public commit
  provision-run message =
      ap
        (λ (found : Option Tables). (
          ok tt,
          record s {
            current = with_schema org.schema_name found added;
            committed = with_schema org.schema_name found added;
          },
        ))
        new_schema

  path-run : set_search_path org.schema_name with_both ≡ (ok tt, in_org)
  unfolding set_search_path
  path-run = rw (valid, set_search_path) refl

  in_org-seen : in_org.current.tenants org.schema_name ≡ some no_tables
  in_org-seen = rw (==-refl org.schema_name) refl

  user-run :
      add_user
        (owner_user drawn.ids.user_id drawn.ids.team_id request.email
          (given_text drawn.password_hash request.password_hash)
          name)
        in_org
      ≡ (ok tt, with_user)
  unfolding add_user put_tables
  user-run = >>=-ok tables _ in_org (tables-read in_org in_org-seen)

  close-run : close_request request with_user ≡ (ok tt, closed)
  unfolding close_request set_search_path validate_schema_name delete_request public_tables
      put_public commit
  close-run = refl

  pub approve_as-run : approve_as true drawn name request org s ≡ (ok none, approved)
  unfolding approve_as send_mail
  approve_as-run =
      >>=-ok (add_organization org) (λ _. _) s add-run
      ∙ >>=-ok (provision true _ org) (λ _. _) with_org (provision-run _)
      ∙ >>=-ok (set_search_path org.schema_name) (λ _. _) with_both path-run
      ∙ >>=-ok (add_user _) (λ _. _) in_org user-run
      ∙ >>=-ok (close_request request) (λ _. _) with_user close-run
