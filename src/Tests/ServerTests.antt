-- ===== src/Tests/ServerTests.antt =====
-- Servers of the sample tenant and their agents.
use server_deck_backend.Base.{◌≡◌, refl, [], ◌∷◌, some, false, Bool, text_eq, nat_eq}
use server_deck_backend.Base.Text.{Text, codes, strip, strip_left}
use server_deck_backend.Base.Outcome.{ok}
use server_deck_backend.Tenant.SchemaName.{validate_schema_name}
use server_deck_backend.Hub.Client.{new_session}
use server_deck_backend.Hub.Agents.{agent_hello, welcome, closed}
use server_deck_backend.Servers.{create_server, delete_server, new_server, told_to_uninstall}
use server_deck_backend.Database.{Tables}
use server_deck_backend.Servers.Laws.{IsWithout}
use server_deck_backend.Servers.Agents.{create_server-welcome, delete_server-closed}
use server_deck_backend.Tests.Samples.{env, ann, acme, acme_tables, web_server, session}

create_server-welcome_example :
    ((create_server 22 (codes "agent-2") acme (some 31) ann session).0
      ≡ ok (new_server 22 (codes "agent-2") (some 31) ann))
    × ((agent_hello env (some (codes "agent-2")) [] (
          new_session
            (create_server 22 (codes "agent-2") acme (some 31) ann session).1.committed)).0
        ≡ ok (welcome (22 ∷ []) (codes "agent-2") acme))
unfolding strip strip_left validate_schema_name
create_server-welcome_example =
    create_server-welcome env 22 b'a' (codes "gent-2") (some 31) ann [] session acme_tables refl
      refl refl refl refl refl

abbrev nobody : Text → Bool
nobody server_id = false

delete_server-closed_example :
    ((delete_server env nobody false (21 ∷ []) ann session).0 ≡ ok [])
    × (t' : Tables) × ((delete_server env nobody false (21 ∷ []) ann session).1.committed.tenants
          acme
        ≡ some t')
    × IsWithout ann web_server acme_tables t'
    × ((agent_hello env
          (some (codes "agent-1"))
          []
          (new_session (delete_server env nobody false (21 ∷ []) ann session).1.committed)).0
        ≡ ok (closed 4003))
unfolding strip strip_left told_to_uninstall
delete_server-closed_example =
    delete_server-closed env nobody (21 ∷ []) ann session acme_tables 21 web_server refl refl refl
      b'a' (codes "gent-1") [] refl refl
