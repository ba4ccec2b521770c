-- ===== src/Tests/AdminTests.antt =====
-- The platform owner is set up, and approves two requests.
use server_deck_backend.Base.{
  if◌then◌else◌, false, text_eq, ◌==◌, ◌≡◌, refl, true, [], ◌∷◌, String, text_eq, nat_eq, string_eq,
  none, some,
}
use server_deck_backend.Base.Text.{
  Text, codes, lower, strip, split_char, lower_char, strip_left, is_space,
}
use server_deck_backend.Base.Outcome.{ok, http, crash}
use server_deck_backend.Models.{WaitlistRequest}
use server_deck_backend.Database.{Session}
use server_deck_backend.Tenant.SchemaName.{validate_schema_name}
use server_deck_backend.Tenant.OrgKey.{
  get_org_key_from_email, lacks_domain, domain_labels, org_key_of_domain, is_common,
}
use server_deck_backend.Auth.Login.{login, find_by_email}
use server_deck_backend.Tenant.OrgKey.{individual_schema}
use server_deck_backend.Admin.Organizations.{no_tables}
use server_deck_backend.Admin.Legacy.{approve_waitlist-legacy}
use server_deck_backend.Hub.Client.{new_session}
use server_deck_backend.Admin.{Setup, setup_platform_owner, require_platform_owner, new_owner}
use server_deck_backend.Admin.Organizations.{NewIds, underscored}
use server_deck_backend.Admin.Owner.{setup_platform_owner-once}
use server_deck_backend.Admin.Approve.{Drawn, approve_waitlist, key_of_name}
use server_deck_backend.Admin.Individuals.{create_individual_user}
use server_deck_backend.Admin.Invitation.{create_individual_user-accepted}
use server_deck_backend.Users.{UserAcceptInvite, accept_invite}
use server_deck_backend.Tenant.OrgKey.{is_personal_email, is_personal_domain}
use server_deck_backend.Admin.Approval.{approve_waitlist-locked_out}
use server_deck_backend.Tests.Samples.{env, session, database}

abbrev setup : Setup
setup = record {
  name = "Olga";
  email = codes "olga@serverdeck.io";
  password = codes "owner-pass";
  setup_secret = codes "s3cret";
}

setup_platform_owner-once_example :
    (token : Text) × ((setup_platform_owner (codes "s3cret") env 100 0 1 setup session).0
      ≡ ok token)
    × (require_platform_owner env 200
          (setup_platform_owner
            (codes "s3cret")
            env
            100
            0
            1
            setup
            session).1.committed.platform_users
          token
        ≡ ok (new_owner env 0 1 setup))
    × ((setup_platform_owner (codes "s3cret") env 200 0 2 setup (
          new_session
            (setup_platform_owner (codes "s3cret") env 100 0 1 setup session).1.committed)).0
        ≡ http 409 "Platform owner already exists")
setup_platform_owner-once_example =
    setup_platform_owner-once (codes "s3cret") refl env 100 0 1 setup session 200 0 2 setup refl
      refl refl refl

abbrev ids : NewIds
ids = record { org_id = 2; team_id = 12; user_id = 22 }

abbrev drawn : Drawn
drawn = record {
  ids = ids;
  hex4 = codes "00c0ffee";
  hex2 = codes "beef";
  random = codes "r";
  password_hash = codes "drawn";
}

abbrev title : Text → String
title email = "Dan"

abbrev default_org : String → Text
default_org name = codes "Dan's Org"

-- The organization is called "Widgets Inc", the address is at widgets.com.
abbrev widgets : WaitlistRequest
widgets = record {
  id = 61;
  email = codes "dan@widgets.com";
  name = some "Dan";
  request_type = some "organization";
  org_name = some (codes "Widgets Inc");
  password_hash = some (codes "hash");
}

abbrev waiting : WaitlistRequest → Session
waiting request = record session { current = record database { waitlist = request ∷ [] } }

approve_waitlist-locked_out_example :
    ((approve_waitlist env 100 true drawn title default_org (61 ∷ []) (waiting widgets)).0
      ≡ ok none)
    × ((login env 200 0
          (codes "1")
          (record { email = codes "dan@widgets.com"; password = codes "hash" })
          (new_session
            (approve_waitlist env 100 true drawn title default_org
              (61 ∷ [])
              (waiting widgets)).1.committed)).0
        ≡ http 401 "Invalid email or password")
unfolding split_char lower strip strip_left is_space lower_char key_of_name underscored
    validate_schema_name get_org_key_from_email lacks_domain domain_labels org_key_of_domain
    is_common
approve_waitlist-locked_out_example =
    approve_waitlist-locked_out env 100 drawn title default_org (61 ∷ []) 61 widgets
      (codes "widgets.com") (waiting widgets) refl refl refl refl 200 0 (codes "1") (codes "hash")
      (codes "widgets") refl refl refl refl refl refl refl refl refl

-- A request that only has an address, with the schema of the individuals.
abbrev legacy : WaitlistRequest
legacy = record widgets { email = codes "fay@gmail.com"; request_type = none; password_hash = none }

abbrev with_individuals : Session
with_individuals = record session {
  current = record database {
    waitlist = legacy ∷ [];
    tenants = λ name. if name == individual_schema then some no_tables else none;
  };
}

approve_waitlist-legacy_example :
    (e : String) × ((approve_waitlist env 100 true drawn title default_org
        (61 ∷ [])
        with_individuals).0
      ≡ crash e)
    × ((approve_waitlist env 100 true drawn title default_org
          (61 ∷ [])
          with_individuals).1.committed
        ≡ database)
unfolding find_by_email
approve_waitlist-legacy_example =
    approve_waitlist-legacy env 100 true drawn title default_org (61 ∷ []) 61 legacy
      with_individuals no_tables refl refl refl refl refl refl refl

abbrev acceptance : UserAcceptInvite
acceptance = record { token = codes "r:individual"; name = "Gil"; password = codes "gil-pass" }

create_individual_user-accepted_example :
    ((create_individual_user true 100 31 13 (codes "r") (codes "gil@gmail.com") with_individuals).0
      ≡ ok (codes "r:individual"))
    × ((accept_invite env 200 0 23 acceptance
          (record (new_session
            (create_individual_user true 100 31 13
              (codes "r")
              (codes "gil@gmail.com")
              with_individuals).1.committed) { search_path = individual_schema })).0
        ≡ ok tt)
    × ((accept_invite env 200 0 23 acceptance
            (record (new_session
              (create_individual_user true 100 31 13
                (codes "r")
                (codes "gil@gmail.com")
                with_individuals).1.committed) {
                  search_path = individual_schema;
                })).1.committed.tenants
          individual_schema
        ≡ some (record no_tables {
          users =
              record {
                id = 23;
                email = codes "gil@gmail.com";
                password_hash = env.bcrypt.hash 0 (codes "gil-pass");
                name = "Gil";
                team_id = 13;
                role = "owner";
                is_active = true;
                enabled_modules = none;
                two_factor_enabled = false;
                two_factor_method = none;
                two_factor_secret = none;
                two_factor_otp_secret = none;
                two_factor_otp_expires_at = none;
              }
              ∷ [];
        }))
unfolding is_personal_email lacks_domain domain_labels split_char is_personal_domain lower strip
    is_common
create_individual_user-accepted_example =
    create_individual_user-accepted true 100 31 13 (codes "r") (codes "gil@gmail.com")
      with_individuals no_tables refl refl refl refl refl env 200 0 23 acceptance refl refl refl
