-- ===== src/Model/IncidentRow.antt =====
-- models/incident.py.
use monitoring_maxval.Base.{ℕ, Option}
use monitoring_maxval.Base.Int.{ℤ}
use monitoring_maxval.Base.Text.{String}
use monitoring_maxval.Model.Kinds.{IncidentStatus, SourceKind, Severity}

pub record Incident : Type 0 where
  pub id : ℕ
  pub target_id : ℕ
  pub check_id : Option ℕ
  pub status : IncidentStatus
  pub source_kind : SourceKind
  pub source_key : Option String
  pub severity : Option Severity
  pub failure_count : ℤ
  pub opened_at : ℕ
  pub resolved_at : Option ℕ
  pub last_failure_at : ℕ
  pub last_message : Option String
  pub open_notification_attempted_at : Option ℕ
  pub recovery_notification_attempted_at : Option ℕ
