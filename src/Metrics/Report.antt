-- ===== src/Metrics/Report.antt =====
-- `snapshot`: the figures that the dashboard shows.
use monitoring_maxval.Base.{
  ℕ, ◌+◌, ◌-◌, ◌*◌, ◌/◌, ◌%◌, max, Bool, true, none, some, List, [], ◌∷◌, map, ltb, leb, ◌==◌,
  if◌then◌else◌, length, keep, get_elem?, Option, false,
}
use mathlib.Core.List.{reverse}
use monitoring_maxval.Base.Sort.{sort}
use monitoring_maxval.Model.{CheckStatus}
use monitoring_maxval.Metrics.{
  Metrics, Due, CheckEvent, ErrorEvent, second_us, delay_warning_us, trim,
}

-- `headroom_percent` is in tenths of a percent.
pub record Snapshot : Type 0 where
  pub running : Bool
  pub manual_running : Bool
  pub poll_seconds : ℕ
  pub parallel_limit : ℕ
  pub queue_count : ℕ
  pub delayed_count : ℕ
  pub missed_interval_count : ℕ
  pub oldest_lag : ℕ
  pub current_batch_size : ℕ
  pub last_batch_size : ℕ
  pub last_batch_duration : Option ℕ
  pub last_shortest : Option ℕ
  pub headroom_permille : Option ℕ
  pub checks_5m : ℕ
  pub unknown_5m : ℕ
  pub average_check : Option ℕ
  pub p95_check : Option ℕ
  pub scheduler_errors_5m : ℕ
  pub error_events : List ErrorEvent
  pub last_scan_at : Option ℕ

-- `now - scan if scan else 0.0`: an instant 0.0 of the monotonic clock counts as none.
abbrev pub scan_age : ℕ → Option ℕ → ℕ
scan_age now none = 0
scan_age now (some at) = if at == 0 then 0 else now - at

abbrev pub lag_of : ℕ → Due → ℕ
lag_of age d = d.lag + age

abbrev is_delayed : ℕ → Due → Bool
is_delayed age d = leb delay_warning_us (lag_of age d)

abbrev is_missed : ℕ → Due → Bool
is_missed age d = leb (d.interval_seconds * second_us) (lag_of age d)

-- `max(lags, default=0.0)`
unfoldable pub oldest : ℕ → List Due → ℕ
oldest age [] = 0
oldest age (d ∷ due) = max (lag_of age d) (oldest age due)

abbrev is_unknown_status : CheckStatus → Bool
is_unknown_status CheckStatus.unknown = true
is_unknown_status _ = false

abbrev is_unknown : CheckEvent → Bool
is_unknown e = is_unknown_status (e.status)

unfoldable pub total : List ℕ → ℕ
total [] = 0
total (n ∷ ns) = n + total ns

abbrev pub shorter : ℕ → ℕ → Bool
shorter a b = leb a b

-- `max(0, math.ceil(n * 0.95) - 1)`
abbrev pub p95_index : ℕ → ℕ
p95_index n = (n * 95 + 99) / 100 - 1

unfoldable pub average : List ℕ → Option ℕ
unfolding total
average [] = none
average (n ∷ ns) = some (total (n ∷ ns) / length (n ∷ ns))

unfoldable pub p95 : List ℕ → Option ℕ
p95 durations = get_elem? (sort shorter durations) (p95_index (length durations))

-- `round(1000 * free / interval)`, half to even
abbrev pub permille : ℕ → ℕ → ℕ
permille free interval =
    let whole = 1000 * free / interval in
    let rest = 1000 * free % interval in
    if ltb (2 * rest) interval
    then whole
    else if ltb interval (2 * rest)
    then whole + 1
    else if whole % 2 == 0
    then whole
    else whole + 1

-- `_headroom_locked`: the share of the shortest interval that the last batch and one poll leave free.
unfoldable pub headroom : ℕ → Option ℕ → Option ℕ → Option ℕ
headroom poll_seconds none interval = none
headroom poll_seconds (some duration) none = none
headroom poll_seconds (some duration) (some interval) =
    if interval == 0
    then none
    else some (
        permille (interval * second_us - (duration + poll_seconds * second_us))
          (interval * second_us))

unfoldable pub snapshot : ℕ → Bool → Bool → Metrics → Metrics × Snapshot
unfolding trim
snapshot now running manual_running before =
    let m = trim now before in
    let age = scan_age now m.scan_at in
    let durations = map CheckEvent.duration m.check_events in
    (
      m,
      record {
        running = running;
        manual_running = manual_running;
        poll_seconds = m.poll_seconds;
        parallel_limit = m.parallel_limit;
        queue_count = length m.current_due;
        delayed_count = length (keep (is_delayed age) m.current_due);
        missed_interval_count = length (keep (is_missed age) m.current_due);
        oldest_lag = oldest age m.current_due;
        current_batch_size = m.current_batch_size;
        last_batch_size = m.last_batch_size;
        last_batch_duration = m.last_batch_duration;
        last_shortest = m.last_shortest;
        headroom_permille = headroom m.poll_seconds m.last_batch_duration m.last_shortest;
        checks_5m = length m.check_events;
        unknown_5m = length (keep is_unknown m.check_events);
        average_check = average durations;
        p95_check = p95 durations;
        scheduler_errors_5m = length m.errors;
        error_events = map (λ e. e.1) (reverse m.errors);
        last_scan_at = m.last_scan_at;
      },
    )
