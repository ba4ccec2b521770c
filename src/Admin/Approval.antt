-- ===== src/Admin/Approval.antt =====
-- What the approval of an organization's request means for the login of its owner.
use server_deck_backend.Base.{
  ℕ, ◌≡◌, refl, sym, ap, subst, ◌∙◌, Bool, true, false, ◌||◌, List, [], ◌∷◌, String, ◌==◌, text_eq,
  nat_eq, string_eq, Option, none, some, arith, select, any, Bool-cases, inl, inr,
}
use server_deck_backend.Base.Text.{Text, lower, strip, split_char, part}
use server_deck_backend.Base.Outcome.{ok, http, crash, scalar_one_or_none}
use server_deck_backend.Models.{Organization, WaitlistRequest}
use server_deck_backend.Database.{Session, lift, public_tables, set_search_path}
use server_deck_backend.Database.Laws.{>>=-ok}
use server_deck_backend.Tenant.SchemaName.{validate_schema_name}
use server_deck_backend.Tenant.OrgKey.{get_org_key_from_email, individual}
use server_deck_backend.Auth.Env.{Env}
use server_deck_backend.Auth.Login.{login}
use server_deck_backend.Hub.Client.{new_session}
use server_deck_backend.Admin.Organizations.{add_organization, clashes, org_of, schema_of_org}
use server_deck_backend.Admin.Waitlist.{find_request, public_schema}
use server_deck_backend.Admin.Approve.{
  Drawn, approve_waitlist, approve_found, approve_organization, approve_as, key_of_name, named_key,
  given_text, given, is_type, free_key,
}
use server_deck_backend.Admin.Provision.{login-unknown, approve_as-run}

-- Without an organization that clashes with the new one none is found.
select-unclashing :
    (org : Organization) (orgs : List Organization)
    → any (clashes org) orgs ≡ false
    → select (λ o. o.org_key == org.org_key || o.domain == org.domain) orgs ≡ []
select-unclashing org [] h = refl
select-unclashing org (o ∷ orgs) h = ground (arith, select-unclashing org orgs)

any-selected :
    (p q : Organization → Bool) (orgs : List Organization) (x : Organization)
    {rest : List Organization}
    → select p orgs ≡ x ∷ rest
    → q x ≡ true
    → any q orgs ≡ true
any-selected p q [] x h e = cc
any-selected p q (o ∷ orgs) x h e = elim (Bool-cases (p o)) [
  | inl d ↦ ground (arith, ap q {x = o} {y = x} (cc (rw d at h)))
  | inr d ↦ ground (arith, any-selected p q orgs x (rw d at h) e)
]

module _ (env : Env) (now : ℕ) (drawn : Drawn) (title : Text → String) (default_org : String → Text)
    (request_id : Text) (id : ℕ) (request : WaitlistRequest) (host : Text) (s : Session)
    (parsed : env.uuid.parse request_id ≡ some id)
    (row : select (λ r. r.id == id) s.current.waitlist ≡ request ∷ [])
    (kind : is_type "organization" request.request_type ≡ true)
    (address : part 1 (split_char b'@' request.email) ≡ some host) where
  abbrev pub owner_name : String
  owner_name = given (title request.email) request.name

  -- The key that is made of the organization's name.
  abbrev pub wanted_key : Text
  wanted_key = named_key drawn (key_of_name (given_text (default_org owner_name) request.org_name))

  abbrev pub wanted_org : Organization
  wanted_org = org_of drawn.ids.org_id wanted_key (lower (strip host))

  abbrev in_public : Session
  in_public = record s { search_path = public_schema }

  public-run : set_search_path public_schema s ≡ (ok tt, in_public)
  unfolding set_search_path validate_schema_name
  public-run = refl

  find-run : find_request env request_id in_public ≡ (ok (some request), in_public)
  unfolding find_request public_tables
  find-run = rw (parsed, find_request) (ap (λ l. (scalar_one_or_none l, in_public)) row)

  approve-run :
      approve_waitlist env now true drawn title default_org request_id s
      ≡ approve_organization true drawn owner_name
          (given_text (default_org owner_name) request.org_name)
          request
          (some host)
          in_public
  unfolding approve_waitlist approve_found
  approve-run =
      >>=-ok (set_search_path public_schema) (λ _. _) s public-run
      ∙ >>=-ok (find_request env request_id) (approve_found now true drawn title default_org)
          in_public find-run
      ∙ rw (kind, address) refl

  organization-run :
      {existing : Option Organization}
      → scalar_one_or_none (
          select
            (λ o. o.org_key == wanted_key || o.domain == lower (strip host))
            s.current.organizations)
        ≡ ok existing
      → approve_organization true drawn owner_name
          (given_text (default_org owner_name) request.org_name)
          request
          (some host)
          in_public
        ≡ approve_as true drawn owner_name request
            (org_of drawn.ids.org_id (free_key drawn wanted_key existing) (lower (strip host)))
            in_public
  unfolding approve_organization public_tables
  organization-run found = >>=-ok (lift _) (λ _. _) in_public (ap (λ o. (o, in_public)) found)

  -- Once the request of an organization is approved whose name makes another key than the address
  -- of its owner, the owner cannot log in: no password is accepted. The organization is new, and no
  -- organization has the key of the address.
  pub approve_waitlist-locked_out :
      (later salt : ℕ) (code password key : Text)
      → any (clashes wanted_org) s.current.organizations ≡ false
      → validate_schema_name (schema_of_org wanted_key) ≡ ok (schema_of_org wanted_key)
      → s.current.tenants (schema_of_org wanted_key) ≡ none
      → select (λ p. p.email == request.email) s.current.platform_users ≡ []
      → get_org_key_from_email request.email ≡ some key
      → (key == []) ≡ false
      → (key == individual) ≡ false
      → select (λ o. o.org_key == key) s.current.organizations ≡ []
      → (wanted_key == key) ≡ false
      → ((approve_waitlist env now true drawn title default_org request_id s).0 ≡ ok none)
        × ((login env later salt code
              (record { email = request.email; password = password })
              (new_session
                (approve_waitlist env now true drawn title default_org request_id s).1.committed)).0
            ≡ http 401 "Invalid email or password")
  approve_waitlist-locked_out later salt code password key no_clash valid fresh stranger key_of
        filled business unknown other =
      let run =
        approve-run
        ∙ organization-run
            (ap scalar_one_or_none (select-unclashing wanted_org s.current.organizations no_clash))
        ∙ approve_as-run drawn owner_name request wanted_org in_public valid no_clash fresh in
      (
        ap (λ r. r.0) run,
        subst
            (λ db.
              (login env later salt code (record { email = request.email; password = password })
                (new_session db)).0
              ≡ http 401 "Invalid email or password")
            (sym (ap (λ r. r.1.committed) run))
            (login-unknown env later salt code
              (record { email = request.email; password = password }) (new_session _) key stranger
              key_of filled business (rw other unknown)),
      )

  -- The request of an organization whose domain is registered already cannot be approved, since the
  -- key is made distinct but the domain is not: the request fails, and nothing is committed.
  approve_waitlist-domain_taken :
      (taken : Organization)
      → select
          (λ o. o.org_key == wanted_key || o.domain == lower (strip host))
          s.current.organizations
        ≡ taken ∷ []
      → (taken.domain == lower (strip host)) ≡ true
      → ((approve_waitlist env now true drawn title default_org request_id s).0
          ≡ crash "IntegrityError")
        × ((approve_waitlist env now true drawn title default_org request_id s).1.committed
            ≡ s.committed)
  unfolding approve_as add_organization public_tables
  approve_waitlist-domain_taken taken found domain =
      let clash =
        any-selected _
          (clashes
            (org_of drawn.ids.org_id (free_key drawn wanted_key (some taken)) (lower (strip host))))
          s.current.organizations taken found (ground (arith, domain)) in
      let run : approve_waitlist env now true drawn title default_org request_id s
          ≡ (crash "IntegrityError", in_public) =
        approve-run ∙ organization-run (ap scalar_one_or_none found) ∙ rw clash refl in
      (ap (λ r. r.0) run, ap (λ r. r.1.committed) run)
