-- ===== src/Models.antt =====
-- Rows of the tables of Backend/app/models (user.py, organization.py, server.py,
-- audit.py, ticket.py). A UUID is its number; names and columns that no modelled code reads are left out.
use server_deck_backend.Base.{ℕ, Bool, List, Option, String}
use server_deck_backend.Base.Text.{Text}

pub record User : Type 0 where
  pub id : ℕ
  pub email : Text
  pub password_hash : Text
  pub name : String
  pub team_id : ℕ
  pub role : String
  pub is_active : Bool
  pub enabled_modules : Option (List String)
  pub two_factor_enabled : Bool
  pub two_factor_method : Option String
  pub two_factor_secret : Option Text
  pub two_factor_otp_secret : Option Text
  pub two_factor_otp_expires_at : Option ℕ

pub record UserInvite : Type 0 where
  pub id : ℕ
  pub email : Text
  pub role : String
  pub team_id : ℕ
  pub token : Text
  pub expires_at : ℕ

pub record AuditLog : Type 0 where
  pub user_id : ℕ
  pub server_id : Option ℕ
  pub action : Text

pub record Organization : Type 0 where
  pub id : ℕ
  pub domain : Text
  pub org_key : Text
  pub schema_name : Text
  pub enabled_modules : Option (List String)

pub record PlatformUser : Type 0 where
  pub id : ℕ
  pub email : Text
  pub password_hash : Text
  pub name : String
  pub is_active : Bool

pub record WaitlistRequest : Type 0 where
  pub id : ℕ
  pub email : Text
  pub name : Option String
  pub request_type : Option String
  pub org_name : Option Text
  pub password_hash : Option Text

pub record PasswordResetToken : Type 0 where
  pub email : Text
  pub schema_name : Text
  pub token : Text
  pub expires_at : ℕ

pub record Server : Type 0 where
  pub id : ℕ
  pub team_id : ℕ
  pub folder_id : Option ℕ
  pub agent_token : Text
  pub is_online : Bool

pub record AgentTokenMapping : Type 0 where
  pub agent_token : Text
  pub schema_name : Text

pub record ServerFolder : Type 0 where
  pub id : ℕ
  pub parent_id : Option ℕ
  pub team_id : ℕ

pub record Ticket : Type 0 where
  pub id : ℕ
  pub team_id : ℕ
  pub title : String
  pub description : String
  pub status : String
  pub priority : String
  pub created_by_id : ℕ
  pub assigned_to_id : Option ℕ
  pub alert_id : Option ℕ
  pub created_at : ℕ
  pub updated_at : ℕ

pub record TicketMessage : Type 0 where
  pub id : ℕ
  pub ticket_id : ℕ
  pub sender_id : Option ℕ
  pub body : String
  pub is_internal : Bool
  pub created_at : ℕ
