-- ===== src/Tenant/Resolve.antt =====
-- `resolve_tenant` of Backend/app/services/tenant.py: the schema that a request works in.
pub mod Laws
use server_deck_backend.Base.{
  ℕ, Bool, true, false, ◌&&◌, ◌||◌, not, List, [], ◌∷◌, ◌++◌, Option, none, some, ◌==◌, text_eq,
  nat_eq, contains, if◌then◌else◌,
}
use server_deck_backend.Base.Text.{Text, codes, strip, split_char, starts_with, drop}
use server_deck_backend.Base.Outcome.{ok, http, crash, Outcome}
use server_deck_backend.Tenant.SchemaName.{validate_schema_name}
use server_deck_backend.Tenant.OrgKey.{get_org_key_from_email, individual, individual_schema}
use server_deck_backend.Tenant.Modules.{tenant_prefix}
use server_deck_backend.Auth.Env.{Env}
use server_deck_backend.Auth.Tokens.{decode_token}

-- The keys of a body that is a JSON object; a body that is none, or a value that is no text, raises
-- an exception, which the code logs and forgets.
pub record Body : Type 0 where
  pub token : Option Text
  pub email : Option Text

-- An HTTP request has a path and a body, a websocket neither. A missing header is empty.
pub data HttpConnection : Type 0 where
  request : Text → Option Text → Text → Option Body → HttpConnection
  websocket : Text → Option Text → HttpConnection

abbrev pub text_or_empty : Option Text → Text
text_or_empty none = []
text_or_empty (some s) = s

-- The bearer token, else the token of the query.
unfoldable pub token_of : Text → Option Text → Text
token_of header param =
    if starts_with header (codes "Bearer ") then drop 7 header else text_or_empty param

-- `parts = token.split(":")` with `len(parts) == 2`: the schema of the second part.
unfoldable pub schema_of_parts : List Text → Text
schema_of_parts (value ∷ org_key ∷ []) = tenant_prefix ++ org_key
schema_of_parts parts = []

unfoldable pub schema_of_invite : Text → Text
schema_of_invite token = schema_of_parts (split_char b':' token)

-- `payload.get("tenant_schema")`, of a token that decodes.
unfoldable pub schema_of_payload : Env → ℕ → Text → Text
schema_of_payload env now token = elim (decode_token env now token) [
  | none ↦ []
  | some payload ↦ text_or_empty payload.tenant_schema
]

-- 1. the token; the empty text is no schema.
unfoldable pub schema_of_token : Env → ℕ → Text → Text
schema_of_token env now [] = []
schema_of_token env now (c ∷ cs) =
    if contains b':' (strip (c ∷ cs))
    then schema_of_invite (strip (c ∷ cs))
    else schema_of_payload env now (strip (c ∷ cs))

-- The schema of an organization key, where there is one.
unfoldable pub schema_of_key : Option Text → Text
schema_of_key none = []
schema_of_key (some []) = []
schema_of_key (some (c ∷ key)) =
    if (c ∷ key) == individual then individual_schema else tenant_prefix ++ c ∷ key

unfoldable pub schema_of_email : Option Text → Text
schema_of_email none = []
schema_of_email (some email) = schema_of_key (get_org_key_from_email email)

unfoldable pub schema_of_body : Option Body → Text
schema_of_body none = []
schema_of_body (some body) =
    if contains b':' (text_or_empty body.token)
    then schema_of_invite (text_or_empty body.token)
    else schema_of_email body.email

abbrev pub body_paths : List Text
body_paths =
    codes "/api/auth/register" ∷ codes "/api/auth/login" ∷ codes "/api/users/accept-invite" ∷ []

-- `part in text`
unfoldable pub has_part : Text → Text → Bool
has_part [] part = part == []
has_part (c ∷ s) part = starts_with (c ∷ s) part || has_part s part

-- `parts[-1]`
unfoldable pub last_part : List Text → Text
last_part [] = []
last_part (w ∷ []) = w
last_part (w ∷ v ∷ ws) = last_part (v ∷ ws)

-- 2. the body or the path, where the token gave nothing.
unfoldable pub schema_of_request : Text → Option Body → Text
schema_of_request path body =
    if contains path body_paths
    then schema_of_body body
    else if has_part path (codes "/api/users/invite-details/")
    then (if contains b':' (last_part (split_char b'/' path))
        then schema_of_invite (last_part (split_char b'/' path))
        else [])
    else []

unfoldable pub schema_or : Text → Text → Text
schema_or [] other = other
schema_or (c ∷ schema) other = c ∷ schema

-- The schema before it is checked.
unfoldable pub schema_of : Env → ℕ → HttpConnection → Text
schema_of env now (request header param path body) =
    schema_or (schema_of_token env now (token_of header param)) (schema_of_request path body)
schema_of env now (websocket header param) = schema_of_token env now (token_of header param)

unfoldable pub checked : Text → Option Text
checked [] = none
checked (c ∷ schema) = elim (validate_schema_name (c ∷ schema)) [
  | ok name ↦ some name
  | http n d ↦ none
  | crash e ↦ none
]

-- The schema that the context variable is set to, if it is set.
unfoldable pub resolve_tenant : Env → ℕ → HttpConnection → Option Text
resolve_tenant env now conn = checked (schema_of env now conn)
