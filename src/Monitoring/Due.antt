-- ===== src/Monitoring/Due.antt =====
-- `get_due_targets_with_lag`, `get_due_targets` and `get_active_targets`. A lag is in microseconds.
use monitoring_maxval.Base.{
  ℕ, ◌+◌, ◌-◌, ◌*◌, Bool, ◌&&◌, Option, none, some, List, [], ◌∷◌, map, keep, leb, ltb, max, ◌==◌,
  if◌then◌else◌,
}
use monitoring_maxval.Base.Sort.{sort}
use monitoring_maxval.Model.{Store, MonitorTarget, CheckResult}
use monitoring_maxval.Schedules.{ZoneInfo}
use monitoring_maxval.Monitoring.Saving.{site_is_working}

abbrev pub second_us : ℕ
second_us = 1000000

abbrev pub later_of : ℕ → Option ℕ → Option ℕ
later_of t none = some t
later_of t (some u) = some (max t u)

-- `max(checked_at)` of the results of a target
unfoldable pub last_checked_at : ℕ → List CheckResult → Option ℕ
last_checked_at target_id [] = none
last_checked_at target_id (r ∷ rs) =
    let rest = last_checked_at target_id rs in
    if r.target_id == target_id then later_of r.checked_at rest else rest

-- Whether the interval has passed since the last result, and for how long.
unfoldable pub due_lag : ℕ → ℕ → Option ℕ → Option ℕ
due_lag now interval none = some 0
due_lag now interval (some last) =
    if leb (last + interval) now then some (now - (last + interval)) else none

-- Target and site are enabled, and the site is at work.
unfoldable pub is_active_target : ZoneInfo → ℕ → Store → MonitorTarget → Bool
unfolding site_is_working
is_active_target zone_info now db target = target.enabled && site_is_working zone_info now target db

unfoldable pub target_lag : ZoneInfo → ℕ → Store → MonitorTarget → Option ℕ
unfolding last_checked_at due_lag is_active_target
target_lag zone_info now db target =
    if is_active_target zone_info now db target
    then due_lag now (target.interval_seconds * second_us) (last_checked_at target.id db.results)
    else none

unfoldable pub due_among : ZoneInfo → ℕ → Store → List MonitorTarget → List (MonitorTarget × ℕ)
due_among zone_info now db [] = []
due_among zone_info now db (target ∷ rest) =
    let more = due_among zone_info now db rest in
    elim (target_lag zone_info now db target) [ none ↦ more | some lag ↦ (target, lag) ∷ more ]

unfoldable pub get_due_targets_with_lag : ZoneInfo → ℕ → Store → List (MonitorTarget × ℕ)
unfolding due_among
get_due_targets_with_lag zone_info now db = due_among zone_info now db db.targets

unfoldable pub get_due_targets : ZoneInfo → ℕ → Store → List MonitorTarget
unfolding get_due_targets_with_lag
get_due_targets zone_info now db = map (λ row. row.0) (get_due_targets_with_lag zone_info now db)

-- `ORDER BY MonitorTarget.id`, and the filter on the schedule.
unfoldable pub get_active_targets : ZoneInfo → ℕ → Store → List MonitorTarget
get_active_targets zone_info now db =
    keep (is_active_target zone_info now db)
      (sort (λ a b. ltb (MonitorTarget.id a) (MonitorTarget.id b)) db.targets)
