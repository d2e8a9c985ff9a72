-- ===== src/Auth/Database.antt =====
-- The tables of models/auth.py, the row of the audit log that a login writes, and the settings of
-- config.py that sign-in reads.
use monitoring_maxval.Base.{ℕ, Bool, Option, List}
use monitoring_maxval.Base.Text.{String, Text}

pub data UserRole : Type 0 where
  admin viewer : UserRole

pub record User : Type 0 where
  pub id : ℕ
  pub username : Text
  pub password_hash : Text
  pub role : UserRole
  pub active : Bool
  pub last_login_at : Option ℕ
  pub last_login_ip : Option Text

pub record UserSession : Type 0 where
  pub id : ℕ
  pub user_id : ℕ
  pub token_hash : Text
  pub csrf_token : Text
  pub ip_address : Text
  pub user_agent : Text
  pub created_at : ℕ
  pub last_seen_at : ℕ
  pub expires_at : ℕ

pub record FailedLoginAttempt : Type 0 where
  pub id : ℕ
  pub username : Text
  pub ip_address : Text
  pub occurred_at : ℕ

pub record LoginBlock : Type 0 where
  pub id : ℕ
  pub username : Text
  pub ip_address : Text
  pub blocked_until : ℕ

pub record AuditEntry : Type 0 where
  pub action : String
  pub user_id : Option ℕ
  pub entity_type : String
  pub entity_id : ℕ
  pub entity_name : Text
  pub ip_address : Text

pub record AuthStore : Type 0 where
  pub settings : List (String × String)
  pub users : List User
  pub sessions : List UserSession
  pub failures : List FailedLoginAttempt
  pub blocks : List LoginBlock
  pub audit : List AuditEntry
  pub next_user : ℕ
  pub next_session : ℕ
  pub next_failure : ℕ
  pub next_block : ℕ

-- `Settings` of config.py
pub record Settings : Type 0 where
  pub session_idle_hours : ℕ
  pub session_max_hours : ℕ
  pub login_max_attempts : ℕ
  pub login_block_minutes : ℕ
