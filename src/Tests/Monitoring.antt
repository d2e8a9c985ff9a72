-- ===== src/Tests/Monitoring.antt =====
-- Results of a target in the order of time, the attempts of a check, the due targets, the schedule.
use monitoring_maxval.Base.Sort.{sort}
use monitoring_maxval.Incidents.Availability.{process_result}
use monitoring_maxval.Base.{
  is_some, ℕ, ◌+◌, ◌*◌, ◌%◌, ◌≤◌, true, false, none, some, List, [], ◌∷◌, ◌≡◌, refl, ◌↔◌, arith,
  leb, zero, inl, if◌then◌else◌,
}
use monitoring_maxval.Base.Int.{pos}
use monitoring_maxval.Base.Text.{str_eq, py_int_codes}
use monitoring_maxval.Base.Rows.{find, count, In, find, insert}
use monitoring_maxval.Base.Result.{ok}
use monitoring_maxval.Model.{CheckStatus, Store}
use monitoring_maxval.Incidents.Settings.{failure_threshold}
use monitoring_maxval.Incidents.Steps.{all_down, target_history}
use monitoring_maxval.Incidents.Streak.{all_down-eq-streak, down_streak}
use monitoring_maxval.Tls.{
  evaluate_tls_certificate, normalize_tls_monitoring, check_form_thresholds, TlsEvaluation,
}
use monitoring_maxval.Tls.Levels.{IsLevel, normalize_tls_monitoring-evaluate_tls_certificate}
use monitoring_maxval.Schedules.{
  works_at, ZoneInfo, works_today, day_start, parse_clock, works_since_yesterday, day_end,
  schedule_is_working,
}
use monitoring_maxval.Schedules.Week.{works_at-iff-IsOnShift, IsOnShift, week_us}
use monitoring_maxval.Monitoring.Saving.{CheckOutcome, record_outcome}
use monitoring_maxval.Monitoring.Lifecycle.{Monitor, Shows, observe}
use monitoring_maxval.Monitoring.Refinement.{
  record_all, observe_all, record_all-Shows, last_instant,
}
use monitoring_maxval.Monitoring.Retry.{Checker, MonitoringService}
use monitoring_maxval.Monitoring.Due.{target_lag, get_due_targets_with_lag, second_us, target_lag}
use monitoring_maxval.Monitoring.Interval.{record_outcome-get_due_targets_with_lag}
use monitoring_maxval.Maintenance.{cleanup_check_history}
use monitoring_maxval.Maintenance.Retention.{cleanup_check_history-target_lag}
use monitoring_maxval.Tests.Sample.{result, router, shifts, sample, sample-IsWellFormed, outcome}

-- DOWN, DOWN, UP, UNKNOWN, DOWN.
abbrev feed : List (ℕ × CheckOutcome)
feed =
    (10, outcome CheckStatus.down)
    ∷ (20, outcome CheckStatus.down)
    ∷ (30, outcome CheckStatus.up)
    ∷ (30, outcome CheckStatus.unknown)
    ∷ (40, outcome CheckStatus.down)
    ∷ []

abbrev at_rest : Monitor
at_rest = record { streak = 0; is_open = false }

sample-Shows : Shows 3 0 at_rest sample
unfolding count down_streak target_history sort
sample-Shows = record { stored = tt; streak = refl; one_open = refl; wf = sample-IsWellFormed }

feed-Shows :
    Shows 3
      (last_instant 0 feed)
      (observe_all (failure_threshold sample.settings) feed at_rest)
      (record_all router feed sample)
feed-Shows =
    record_all-Shows router feed 0 sample at_rest
      (omega arith, (omega arith, (omega arith, (omega arith, (omega arith, tt))))) sample-Shows

-- The incident is open again at the end.
feed_opens : observe_all 1 feed at_rest ≡ record { streak = 1; is_open = true }
unfolding observe_all observe
feed_opens = refl

three_down :
    all_down 3 (CheckStatus.down ∷ CheckStatus.down ∷ CheckStatus.up ∷ [])
    ≡ leb 3 (down_streak (CheckStatus.down ∷ CheckStatus.down ∷ CheckStatus.up ∷ []))
three_down = all_down-eq-streak 3 (CheckStatus.down ∷ CheckStatus.down ∷ CheckStatus.up ∷ [])

-- Saturday, two in the morning: the shift of Friday is not over.
abbrev saturday_night : ℕ
saturday_night = 5 * 86400000000 + 2 * 3600000000

night_shift : (works_at shifts saturday_night ≡ true) ↔ IsOnShift shifts (saturday_night % week_us)
night_shift = works_at-iff-IsOnShift shifts saturday_night

night_shift_runs : works_at shifts saturday_night ≡ true
unfolding works_at works_today day_start parse_clock works_since_yesterday py_int_codes day_end
night_shift_runs = refl

-- The first attempt fails, the second succeeds.
abbrev second_time : Checker
second_time target timeout zero = outcome CheckStatus.down
second_time target timeout _ = outcome CheckStatus.up

abbrev service : MonitoringService
service = record {
  registry = λ name. if str_eq name "https" then some second_time else none;
  timeout = 5000;
  decrypt = none;
  scan_directory = λ scan i. outcome CheckStatus.unknown;
}

abbrev everywhere : ZoneInfo
everywhere zone = some (λ moment. moment)

abbrev monday_noon : ℕ
monday_noon = 12 * 3600000000

due_row :
    In
      (router, 30000000)
      (get_due_targets_with_lag everywhere
        (monday_noon + 90000000)
        (record_outcome monday_noon router (outcome CheckStatus.unknown) sample).1)
unfolding get_due_targets_with_lag record_outcome process_result target_lag find schedule_is_working
    works_at works_today day_start parse_clock py_int_codes day_end insert
due_row = inl refl

-- Ninety seconds after a result the interval of sixty has passed since half a minute.
due_again : monday_noon + 60 * second_us + 30000000 ≤ monday_noon + 90000000
due_again =
    record_outcome-get_due_targets_with_lag everywhere monday_noon (monday_noon + 90000000) router
      (outcome CheckStatus.unknown) sample (router, 30000000) due_row refl

default_thresholds :
    normalize_tls_monitoring "https" true none none ≡ ok (true, some (pos 30), some (pos 7))
unfolding normalize_tls_monitoring check_form_thresholds
default_thresholds = refl

certificate :
    (warning_days : ℕ) × (critical_days : ℕ) × (pos 30 ≡ pos warning_days)
    × (pos 7 ≡ pos critical_days)
    × (e : TlsEvaluation) × (evaluate_tls_certificate 2592000000000 (pos 30) (pos 7) 0 ≡ ok e)
    × IsLevel warning_days critical_days 2592000000000 0 e.health
certificate =
    normalize_tls_monitoring-evaluate_tls_certificate "https" true none none 2592000000000 0
      default_thresholds

abbrev years : ℕ
years = 4000 * 86400000000

-- A result from the first day, read after some four thousand: it is deleted.
abbrev aged : Store
aged = record sample { results = result 10 CheckStatus.up ∷ []; next_result = 11 }

cleanup_keeps_due :
    is_some (target_lag everywhere years (cleanup_check_history years aged).1 router)
    ≡ is_some (target_lag everywhere years aged router)
cleanup_keeps_due =
    cleanup_check_history-target_lag everywhere years years router aged (omega arith) (omega arith)
