-- ===== src/Admin/Legacy.antt =====
-- Requests of the waiting list that have no password.
use server_deck_backend.Base.{
  ℕ, ◌≡◌, refl, ap, ◌∙◌, Bool, false, [], ◌∷◌, String, ◌==◌, text_eq, nat_eq, string_eq, Option,
  none, some, select,
}
use server_deck_backend.Base.Text.{Text}
use server_deck_backend.Base.Outcome.{ok, crash, scalar_one_or_none}
use server_deck_backend.Models.{WaitlistRequest}
use server_deck_backend.Database.{Session, Tables, lift, public_tables, set_search_path, tables}
use server_deck_backend.Database.Laws.{>>=-ok, >>=-crash, tables-read}
use server_deck_backend.Tenant.SchemaName.{validate_schema_name}
use server_deck_backend.Tenant.OrgKey.{individual_schema}
use server_deck_backend.Auth.Env.{Env}
use server_deck_backend.Auth.Login.{find_by_email}
use server_deck_backend.Admin.Waitlist.{public_schema, find_request}
use server_deck_backend.Admin.Approve.{
  Drawn, approve_waitlist, approve_found, approve_personal, ensure_individual, ensure_in,
  invite_personal, flush_invite, is_type, direct_hash, given,
}

tables-missing :
    (s : Session)
    → s.current.tenants s.search_path ≡ none
    → tables s ≡ (crash "ProgrammingError", s)
unfolding tables
tables-missing s e = rw (e, tables) refl

module _ (env : Env) (now : ℕ) (migrated : Bool) (drawn : Drawn) (title : Text → String)
    (default_org : String → Text) (request_id : Text) (id : ℕ) (request : WaitlistRequest)
    (s : Session) (t : Tables) (parsed : env.uuid.parse request_id ≡ some id)
    (row : select (λ r. r.id == id) s.current.waitlist ≡ request ∷ [])
    (kind : is_type "organization" request.request_type ≡ false)
    (direct : direct_hash request ≡ none) (seen : s.current.tenants individual_schema ≡ some t)
    (unknown : find_by_email request.email t.users ≡ ok none)
    (uninvited : select (λ i. i.email == request.email) t.invites ≡ []) where
  abbrev in_public : Session
  in_public = record s { search_path = public_schema }

  abbrev in_individual : Session
  in_individual = record s { search_path = individual_schema }

  flush-run :
      (o : Option Tables)
      → s.current.tenants public_schema ≡ o
      → (e : String) × (flush_invite now none in_public ≡ (crash e, in_public))
  unfolding flush_invite
  flush-run none e = ("ProgrammingError", >>=-crash tables _ in_public (tables-missing in_public e))
  flush-run (some other) e = ("IntegrityError", >>=-ok tables _ in_public (tables-read in_public e))

  invite-run :
      (e : String)
      → flush_invite now none in_public ≡ (crash e, in_public)
      → invite_personal now drawn request none in_individual ≡ (crash e, in_public)
  unfolding invite_personal set_search_path validate_schema_name
  invite-run e refused =
      >>=-ok tables _ in_individual (tables-read in_individual seen)
      ∙ >>=-ok (lift (scalar_one_or_none (select (λ i. i.email == request.email) t.invites)))
          (λ _. _) in_individual (ap (λ l. (scalar_one_or_none l, in_individual)) uninvited)
      ∙ >>=-crash (flush_invite now none) (λ _. _) in_public refused

  ensure-run : ensure_individual migrated in_public ≡ (ok tt, in_public)
  unfolding ensure_individual ensure_in public_tables
  ensure-run = ap (λ o. ensure_in migrated o in_public) seen

  personal-run :
      approve_personal now migrated drawn
        (given (title request.email) request.name)
        request
        none
        in_public
      ≡ invite_personal now drawn request none in_individual
  unfolding approve_personal set_search_path validate_schema_name
  personal-run =
      >>=-ok (ensure_individual migrated) (λ _. _) in_public ensure-run
      ∙ >>=-ok tables _ in_individual (tables-read in_individual seen)
      ∙ >>=-ok (lift (find_by_email request.email t.users)) (λ _. _) in_individual
          (ap (λ o. (o, in_individual)) unknown)

  find-run : find_request env request_id in_public ≡ (ok (some request), in_public)
  unfolding find_request public_tables
  find-run = rw (parsed, find_request) (ap (λ l. (scalar_one_or_none l, in_public)) row)

  -- A request without a password that is not an organization's cannot be approved while its address
  -- is unknown: the invitation is written after the search path was switched away from its team, so
  -- the request fails with an exception, and nothing is committed.
  pub approve_waitlist-legacy :
      (e : String) × ((approve_waitlist env now migrated drawn title default_org request_id s).0
        ≡ crash e)
      × ((approve_waitlist env now migrated drawn title default_org request_id s).1.committed
          ≡ s.committed)
  unfolding approve_waitlist approve_found set_search_path validate_schema_name
  approve_waitlist-legacy =
      let (e, refused) = flush-run (s.current.tenants public_schema) refl in
      let run : approve_waitlist env now migrated drawn title default_org request_id s
          ≡ (crash e, in_public) =
        >>=-ok (find_request env request_id) (approve_found now migrated drawn title default_org)
          in_public find-run
        ∙ rw (kind, direct) personal-run
        ∙ invite-run e refused in
      (e, ap (λ r. r.0) run, ap (λ r. r.1.committed) run)
