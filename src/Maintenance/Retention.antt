-- ===== src/Maintenance/Retention.antt =====
-- What the clean-up of the history leaves alone: the targets that are due.
use monitoring_maxval.Base.{
  ℕ, ◌*◌, ◌≤◌, not, Option, none, some, List, [], ◌∷◌, keep, if◌then◌else◌, is_some, ◌≡◌, refl,
  arith, Bool-cases, inl, inr,
}
use monitoring_maxval.Base.Int.{clamp_bounds}
use monitoring_maxval.Model.{Store, MonitorTarget, CheckResult}
use monitoring_maxval.Schedules.{ZoneInfo, day_us}
use monitoring_maxval.Incidents.Settings.{integer_setting}
use monitoring_maxval.Monitoring.Due.{
  last_checked_at, later_of, due_lag, is_active_target, target_lag, second_us,
}
use monitoring_maxval.Maintenance.{setting_int, retention_us, is_old, cleanup_check_history}

module _ (now retention : ℕ) where
  -- The last result, if it is not old.
  unless_old : Option ℕ → Option ℕ
  unless_old none = none
  unless_old (some last) = if is_old now retention last then none else some last

  later_of-unless_old :
      (t : ℕ) (o : Option ℕ)
      → unless_old (later_of t o)
        ≡ (if is_old now retention t then unless_old o else later_of t (unless_old o))
  unfolding unless_old
  later_of-unless_old t none = ground arith
  later_of-unless_old t (some u) = ground arith

  last_checked_at-keep :
      (id : ℕ) (rows : List CheckResult)
      → last_checked_at id (keep (λ r. not (is_old now retention (CheckResult.checked_at r))) rows)
        ≡ unless_old (last_checked_at id rows)
  unfolding last_checked_at unless_old
  last_checked_at-keep id [] = refl
  last_checked_at-keep id (r ∷ rows) = ground (
    arith,
    last_checked_at-keep id rows,
    later_of-unless_old r.checked_at (last_checked_at id rows),
  )

  due_lag-unless_old :
      (later interval : ℕ) (o : Option ℕ)
      → interval ≤ retention
      → now ≤ later
      → is_some (due_lag later interval (unless_old o)) ≡ is_some (due_lag later interval o)
  unfolding unless_old due_lag
  due_lag-unless_old later interval none le lt = refl
  due_lag-unless_old later interval (some u) le lt = ground arith

retention_least : (db : Store) → 7 * day_us ≤ retention_us db
unfolding retention_us setting_int
retention_least db = omega (
  arith,
  (clamp_bounds 7 3650 (integer_setting "history_retention_days" 90 db.settings)
      (omega arith)).least,
)

-- Deleting the old results at an instant, whatever the retention setting holds, changes for no target
-- with an interval of at most seven days whether it is due at that instant or later.
pub cleanup_check_history-target_lag :
    (zone_info : ZoneInfo) (now later : ℕ) (target : MonitorTarget) (db : Store)
    → target.interval_seconds * second_us ≤ 7 * day_us
    → now ≤ later
    → is_some (target_lag zone_info later (cleanup_check_history now db).1 target)
      ≡ is_some (target_lag zone_info later db target)
unfolding cleanup_check_history target_lag is_active_target
cleanup_check_history-target_lag zone_info now later target db short le =
    let retention = retention_us db in
    elim (Bool-cases (is_active_target zone_info later db target)) [
      | inl a ↦ rw a (
          rw (last_checked_at-keep now retention target.id db.results) (
            due_lag-unless_old now retention later (target.interval_seconds * second_us)
              (last_checked_at target.id db.results) (omega (arith, retention_least db, short)) le))
      | inr a ↦ rw a refl
    ]
