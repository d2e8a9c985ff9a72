-- ===== src/Metrics.antt =====
-- The scheduler's picture of itself (src/monitoring/services/scheduler_metrics.py,
-- `SchedulerRuntimeMetrics`): what is due, the current batch, and the checks and errors of the last
-- five minutes. Times of the monotonic clock, lags and durations are numbers of microseconds, where
-- the source has float seconds; an average is cut to whole microseconds.
pub mod Window
pub mod Report
pub mod Bounds
use monitoring_maxval.Base.{
  ℕ, zero, suc, ◌+◌, ◌-◌, ◌*◌, ◌/◌, ◌%◌, max, Bool, true, ◌&&◌, none, some, List, [], ◌∷◌, ◌++◌,
  map, ltb, leb, ◌==◌, if◌then◌else◌, length, keep, get_elem?, Option, false,
}
use mathlib.Core.List.{reverse}
use monitoring_maxval.Base.Int.{ℤ, pos, negsuc}
use monitoring_maxval.Base.Text.{String}
use monitoring_maxval.Base.Sort.{sort}
use monitoring_maxval.Model.{CheckStatus}

abbrev pub second_us : ℕ
second_us = 1000000

-- `ROLLING_WINDOW_SECONDS` and `DELAY_WARNING_SECONDS`
abbrev pub rolling_window_us : ℕ
rolling_window_us = 300 * second_us

abbrev pub delay_warning_us : ℕ
delay_warning_us = 60 * second_us

pub record DueTargetTiming : Type 0 where
  pub target_id : ℕ
  pub lag : ℤ
  pub interval_seconds : ℕ

pub record ErrorEvent : Type 0 where
  pub occurred_at : ℕ
  pub exception_type : String

pub record CheckEvent : Type 0 where
  pub at : ℕ
  pub duration : ℕ
  pub status : CheckStatus

-- A target that is due: its key, its lag and its interval.
pub record Due : Type 0 where
  pub target_id : ℕ
  pub lag : ℕ
  pub interval_seconds : ℕ

pub record Metrics : Type 0 where
  pub poll_seconds : ℕ
  pub parallel_limit : ℕ
  pub current_due : List Due
  pub scan_at : Option ℕ
  pub last_scan_at : Option ℕ
  pub batch_started : Option ℕ
  pub current_batch_size : ℕ
  pub current_shortest : Option ℕ
  pub last_batch_size : ℕ
  pub last_batch_duration : Option ℕ
  pub last_shortest : Option ℕ
  pub check_events : List CheckEvent
  pub errors : List (ℕ × ErrorEvent)

unfoldable pub new : ℕ → ℕ → Metrics
new poll_seconds parallel_limit = record {
  poll_seconds = poll_seconds;
  parallel_limit = max 1 parallel_limit;
  current_due = [];
  scan_at = none;
  last_scan_at = none;
  batch_started = none;
  current_batch_size = 0;
  current_shortest = none;
  last_batch_size = 0;
  last_batch_duration = none;
  last_shortest = none;
  check_events = [];
  errors = [];
}

-- `max(0.0, x)`
abbrev pub not_negative : ℤ → ℕ
not_negative (pos n) = n
not_negative (negsuc n) = 0

-- `d[k] = v` of a dictionary
unfoldable pub put : Due → List Due → List Due
put d [] = d ∷ []
put d (x ∷ xs) = if x.target_id == d.target_id then d ∷ xs else x ∷ put d xs

-- `d.pop(k, None)`
unfoldable pub pop : ℕ → List Due → List Due
pop k [] = []
pop k (x ∷ xs) = if x.target_id == k then xs else x ∷ pop k xs

put_all : List DueTargetTiming → List Due → List Due
put_all [] due = due
put_all (e ∷ entries) due = put_all entries (
    put
      (record {
        target_id = e.target_id;
        lag = not_negative e.lag;
        interval_seconds = max 1 e.interval_seconds;
      })
      due)

abbrev is_nil : List DueTargetTiming → Bool
is_nil [] = true
is_nil (_ ∷ _) = false

-- The monotonic clock and the wall clock are the two numbers.
unfoldable pub record_scan : ℕ → ℕ → List DueTargetTiming → Metrics → Metrics
unfolding put_all put
record_scan now wall entries m = record m {
  current_due = put_all entries [];
  scan_at = some now;
  last_scan_at = some wall;
  current_batch_size = length entries;
  batch_started = if is_nil entries then none else some now;
}

-- `while events and events[0].at < now - ROLLING_WINDOW_SECONDS: events.popleft()`
unfoldable pub trim_events : ℕ → List CheckEvent → List CheckEvent
trim_events now [] = []
trim_events now (e ∷ events) =
    let rest = trim_events now events in
    if ltb (e.at + rolling_window_us) now then rest else e ∷ events

unfoldable pub trim_errors : ℕ → List (ℕ × ErrorEvent) → List (ℕ × ErrorEvent)
trim_errors now [] = []
trim_errors now ((at, e) ∷ errors) =
    let rest = trim_errors now errors in
    if ltb (at + rolling_window_us) now then rest else (at, e) ∷ errors

unfoldable pub trim : ℕ → Metrics → Metrics
trim now m = record m {
  check_events = trim_events now m.check_events;
  errors = trim_errors now m.errors;
}

abbrev pop_target : Option ℕ → List Due → List Due
pop_target none due = due
pop_target (some k) due = pop k due

-- `_record_network_check`, of which `record_check` and `record_network_check` are instances
unfoldable pub record_check_of : ℕ → ℤ → CheckStatus → Option ℕ → Metrics → Metrics
unfolding trim
record_check_of now duration status target m = trim now (record m {
  check_events =
      m.check_events
      ++ (record { at = now; duration = not_negative duration; status = status } ∷ []);
  current_due = pop_target target m.current_due;
})

unfoldable pub record_check : ℕ → ℕ → ℤ → CheckStatus → Metrics → Metrics
unfolding record_check_of
record_check now target_id duration status m =
    record_check_of now duration status (some target_id) m

unfoldable pub record_network_check : ℕ → ℤ → CheckStatus → Metrics → Metrics
unfolding record_check_of
record_network_check now duration status m = record_check_of now duration status none m

unfoldable pub mark_target_complete : ℕ → Metrics → Metrics
mark_target_complete k m = record m { current_due = pop k m.current_due }

-- The clock does not go back, so `max(0.0, now - started)` is the truncated difference.
abbrev pub close_batch : ℕ → Option ℕ → Metrics → Metrics
close_batch now none m = m
close_batch now (some started) m = record m {
  last_batch_duration = some (now - started);
  last_batch_size = m.current_batch_size;
  last_shortest = m.current_shortest;
}

unfoldable pub finish_batch : ℕ → Metrics → Metrics
unfolding trim
finish_batch now m = trim now (record (close_batch now m.batch_started m) {
  current_due = [];
  scan_at = none;
  batch_started = none;
  current_batch_size = 0;
  current_shortest = none;
})

unfoldable pub set_batch_shortest_interval : Option ℕ → Metrics → Metrics
set_batch_shortest_interval none m = record m { current_shortest = none }
set_batch_shortest_interval (some interval) m = record m {
  current_shortest = some (max 1 interval);
}

unfoldable pub record_scheduler_error : ℕ → ℕ → String → Metrics → Metrics
unfolding trim
record_scheduler_error now wall exception_type m = trim now (record m {
  errors = m.errors ++ ((now, record { occurred_at = wall; exception_type = exception_type }) ∷ []);
})
