-- ===== src/Model/Result.antt =====
-- models/check_result.py and `TargetCheckResult` of models/target_check.py.
use monitoring_maxval.Base.{ℕ, Option}
use monitoring_maxval.Base.Int.{ℤ}
use monitoring_maxval.Base.Text.{String}
use monitoring_maxval.Model.Kinds.{CheckStatus, TlsHealth}

pub record CheckResult : Type 0 where
  pub id : ℕ
  pub target_id : ℕ
  pub status : CheckStatus
  pub latency_ms : Option ℕ
  pub message : Option String
  pub checked_at : ℕ

-- `tls_days_remaining` is a float number of days; here it is the microseconds that it comes from.
pub record TargetCheckResult : Type 0 where
  pub id : ℕ
  pub check_id : ℕ
  pub status : CheckStatus
  pub latency_ms : Option ℕ
  pub message : Option String
  pub config_version : ℕ
  pub checked_at : ℕ
  pub tls_not_after : Option ℕ
  pub tls_days_remaining : Option ℤ
  pub tls_health : Option TlsHealth
