-- ===== src/Maintenance.antt =====
-- The retention of check results (src/monitoring/services/maintenance.py): `_setting_int` and `cleanup_check_history`.
pub mod Retention
use monitoring_maxval.Base.{ℕ, ◌+◌, ◌*◌, Bool, not, List, keep, ltb}
use monitoring_maxval.Base.Int.{clamp}
use monitoring_maxval.Base.Rows.{count}
use monitoring_maxval.Base.Text.{String}
use monitoring_maxval.Model.{Store, CheckResult, TargetCheckResult}
use monitoring_maxval.Schedules.{day_us}
use monitoring_maxval.Incidents.Settings.{integer_setting}

unfoldable pub setting_int : List (String × String) → String → ℕ → ℕ → ℕ → ℕ
setting_int settings key default minimum maximum =
    clamp minimum maximum (integer_setting key default settings)

unfoldable pub retention_us : Store → ℕ
unfolding setting_int
retention_us db = setting_int db.settings "history_retention_days" 90 7 3650 * day_us

-- `checked_at < now - timedelta(days=retention_days)`
abbrev pub is_old : ℕ → ℕ → ℕ → Bool
is_old now retention checked_at = ltb (checked_at + retention) now

-- The number of rows deleted, and the store without them.
unfoldable pub cleanup_check_history : ℕ → Store → ℕ × Store
cleanup_check_history now db =
    let old = is_old now (retention_us db) in
    (
      count (λ r. old (CheckResult.checked_at r)) db.results
          + count (λ r. old (TargetCheckResult.checked_at r)) db.check_results,
      record db {
        results = keep (λ r. not (old (CheckResult.checked_at r))) db.results;
        check_results = keep (λ r. not (old (TargetCheckResult.checked_at r))) db.check_results;
      },
    )
