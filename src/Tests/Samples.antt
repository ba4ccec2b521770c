-- ===== src/Tests/Samples.antt =====
-- A sample environment, a tenant and its users.
use server_deck_backend.Base.{
  ℕ, refl, true, false, Option, none, some, ◌==◌, text_eq, if◌then◌else◌, List, [], ◌∷◌, ==-refl,
}
use server_deck_backend.Base.Text.{Text, codes}
use server_deck_backend.Models.{User, Organization, Server, ServerFolder}
use server_deck_backend.Database.{Tables, Database, Session}
use server_deck_backend.Auth.Env.{Bcrypt, Uuid, Env}
use server_deck_backend.Tests.Codec.{toy_jose}

-- A hash that shows its text, and ids that are written as one character.
abbrev pub toy_bcrypt : Bcrypt
toy_bcrypt = record {
  hash = λ salt text. text;
  verify = λ text hash. text == hash;
  verify-hash = λ salt text. ==-refl text;
}

abbrev pub parse_id : Text → Option ℕ
parse_id (n ∷ []) = some n
parse_id _ = none

abbrev pub toy_uuid : Uuid
toy_uuid = record { show = λ n. n ∷ []; parse = parse_id; parse-show = λ n. refl }

abbrev pub twenty : List ℕ
twenty = 0 ∷ 1 ∷ 2 ∷ 3 ∷ 4 ∷ 5 ∷ 6 ∷ 7 ∷ 8 ∷ 9 ∷ 10 ∷ 11 ∷ 12 ∷ 13 ∷ 14 ∷ 15 ∷ 16 ∷ 17 ∷ 18 ∷ 3 ∷ []

abbrev pub env : Env
env = record {
  settings = record {
    jwt_secret = codes "secret";
    jwt_algorithm = codes "HS256";
    jwt_expire_hours = 1;
    jwt_issuer = codes "serverdeck";
    jwt_audience = codes "serverdeck-api";
  };
  jose = toy_jose;
  bcrypt = toy_bcrypt;
  uuid = toy_uuid;
  hmac_sha1 = λ key msg. twenty;
  b32decode = λ secret. some secret;
}

abbrev pub ann : User
ann = record {
  id = 7;
  email = codes "ann@acme.com";
  password_hash = codes "hunter22";
  name = "Ann";
  team_id = 1;
  role = "admin";
  is_active = true;
  enabled_modules = some ("nginx" ∷ "sql" ∷ []);
  two_factor_enabled = false;
  two_factor_method = none;
  two_factor_secret = none;
  two_factor_otp_secret = none;
  two_factor_otp_expires_at = none;
}

abbrev pub bob : User
bob = record ann {
  id = 8;
  email = codes "bob@acme.com";
  two_factor_enabled = true;
  two_factor_method = some "email";
  two_factor_otp_secret = some (codes "123456");
  two_factor_otp_expires_at = some 1300;
}

abbrev pub acme : Text
acme = codes "tenant_acme"

abbrev pub acme_org : Organization
acme_org = record {
  id = 1;
  domain = codes "acme.com";
  org_key = codes "acme";
  schema_name = acme;
  enabled_modules = some ("nginx" ∷ "pm2" ∷ []);
}

abbrev pub web_folder : ServerFolder
web_folder = record { id = 31; parent_id = none; team_id = 1 }

abbrev pub web_server : Server
web_server = record {
  id = 21;
  team_id = 1;
  folder_id = some 31;
  agent_token = codes "agent-1";
  is_online = false;
}

abbrev pub acme_tables : Tables
acme_tables = record {
  users = ann ∷ bob ∷ [];
  invites = [];
  audit_logs = [];
  servers = web_server ∷ [];
  folders = web_folder ∷ [];
  tickets = [];
  ticket_messages = [];
}

abbrev pub only_acme : Text → Option Tables
only_acme name = if name == acme then some acme_tables else none

abbrev pub database : Database
database = record {
  organizations = acme_org ∷ [];
  platform_users = [];
  waitlist = [];
  reset_tokens = [];
  agent_tokens = record { agent_token = codes "agent-1"; schema_name = acme } ∷ [];
  tenants = only_acme;
}

abbrev pub session : Session
session = record { committed = database; current = database; search_path = acme; mails = [] }
