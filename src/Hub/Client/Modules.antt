-- ===== src/Hub/Client/Modules.antt =====
-- Which modules a message needs: `ACTION_MODULE_MAPPING` and the checks of the branches "command"
-- and "terminal_open" of `client_websocket` in Backend/app/ws/client_handler.py.
use server_deck_backend.Base.{
  true, false, not, ◌&&◌, ◌||◌, List, [], ◌∷◌, String, ◌==◌, nat_eq, text_eq, string_eq,
  if◌then◌else◌, Option, none, some, contains,
}
use server_deck_backend.Base.Text.{Text, codes, starts_with}
use server_deck_backend.Models.{User}
use server_deck_backend.Database.{
  Action, ◌>>=◌, ◌>>◌, pure, lift, set_search_path, tables, public_tables,
}
use server_deck_backend.Tenant.Modules.{get_user_resolved_modules}
use server_deck_backend.Auth.Env.{Env}
use server_deck_backend.Auth.CurrentUser.{find_user}
use server_deck_backend.Hub.Client.{Connection}

-- `ACTION_MODULE_MAPPING`
abbrev pub action_modules : List (Text × String)
action_modules =
    (codes "nginx.", "nginx")
    ∷ (codes "pm2.", "pm2")
    ∷ (codes "systemd.", "systemd")
    ∷ (codes "automation.", "automation")
    ∷ (codes "firewall.", "firewall")
    ∷ (codes "process.", "processes")
    ∷ (codes "ssl.", "ssl")
    ∷ (codes "files.", "files")
    ∷ (codes "luxegenie.", "luxegenie")
    ∷ []

unfoldable pub find_module : List (Text × String) → Text → Option String
find_module [] action = none
find_module ((prefix, name) ∷ rest) action = elim (starts_with action prefix) [
  | true ↦ some name
  | false ↦ find_module rest action
]

-- `if current_user: … if module_name not in resolved`: the module that is in the way.
unfoldable pub blocked_by : Env → Connection → String → Option User → Action (Option String)
blocked_by env conn name none = pure none
blocked_by env conn name (some user) = do
  db ← public_tables
  resolved ← lift (get_user_resolved_modules db.organizations user conn.schema_name)
  pure (if not (contains name resolved) then some name else none)

unfoldable pub check_module : Env → Connection → String → Action (Option String)
check_module env conn name = do
  set_search_path conn.schema_name
  t ← tables
  found ← lift (find_user env t.users conn.user_id)
  blocked_by env conn name found

-- 1. the prefixes of the action
unfoldable pub check_prefix : Env → Connection → Text → Action (Option String)
check_prefix env conn action = elim (find_module action_modules action) [
  | none ↦ pure none
  | some name ↦ check_module env conn name
]

-- 2. the source of a log stream
unfoldable pub check_source :
    Env → Connection → Text → Option String → Option String → Action (Option String)
check_source env conn action source (some blocked) = pure (some blocked)
check_source env conn action none none = pure none
check_source env conn action (some source) none =
    if action == codes "logs.stream" && contains source ("nginx" ∷ "pm2" ∷ "systemd" ∷ [])
    then check_module env conn source
    else pure none

-- The module that is disabled, if any; nothing is checked for a platform owner.
unfoldable pub check_action : Env → Connection → Text → Option String → Action (Option String)
check_action env conn action source =
    if conn.is_platform_owner || action == []
    then pure none
    else (do blocked ← check_prefix env conn action; check_source env conn action source blocked)

unfoldable pub check_terminal : Env → Connection → Action (Option String)
check_terminal env conn = if conn.is_platform_owner then pure none else check_module env conn "ssh"
