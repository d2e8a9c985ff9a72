-- ===== src/Tests/Sample.antt =====
-- A small database: one target on one site, with one additional check, and no incident yet.
use monitoring_maxval.Base.{ℕ, true, false, none, some, [], ◌∷◌, arith, refl}
use monitoring_maxval.Base.Int.{pos}
use monitoring_maxval.Base.Rows.{count}
use monitoring_maxval.Model.{
  Store, MonitorTarget, TargetCheck, TargetKind, WorkSchedule, DayHours, UnstableLink, CheckStatus,
  CheckResult,
}
use monitoring_maxval.Incidents.Slots.{IsWellFormed}
use monitoring_maxval.Monitoring.Saving.{CheckOutcome}

abbrev pub quiet : UnstableLink
quiet = record { pending_down = false; until = none }

abbrev pub router : MonitorTarget
router = record {
  id = 3;
  site_id = 1;
  name = "router";
  kind = TargetKind.network;
  checker_type = "ping";
  address = "10.0.0.1";
  port = 1;
  interval_seconds = 60;
  enabled = true;
  favorite = false;
  is_site_entry = true;
  display_order = 1;
  notifications_suppressed = false;
  unstable = quiet;
}

abbrev pub web_check : TargetCheck
web_check = record {
  id = 5;
  target_id = 3;
  name = "web";
  checker_type = "https";
  address_override = none;
  port = 443;
  path = "/";
  timeout_seconds = none;
  retries = 2;
  enabled = true;
  is_primary = false;
  display_order = 1;
  config_version = 1;
  http_expected_status = some 200;
  http_content_contains = none;
  http_content_not_contains = none;
  http_max_response_ms = none;
  tls_monitor_enabled = true;
  tls_warning_days = some (pos 30);
  tls_critical_days = some (pos 7);
  dns_name = none;
  dns_record_type = none;
  dns_expected_address = none;
  dns_max_response_ms = none;
  directory_path = none;
  directory_pattern = none;
  directory_period_hours = none;
  directory_show_last = none;
  directory_username = none;
  directory_password_encrypted = "";
  directory_last_files = none;
  directory_recent_count = none;
  directory_latest_file_at = none;
  directory_scanned_at = none;
  unstable = quiet;
}

abbrev pub office_hours : DayHours
office_hours = record { start = some "09:00"; end = some "18:00" }

-- Friday's shift runs over midnight, and Sunday's too.
abbrev pub shifts : WorkSchedule
shifts = record {
  id = 1;
  is_24x7 = false;
  monday = office_hours;
  tuesday = office_hours;
  wednesday = office_hours;
  thursday = office_hours;
  friday = record { start = some "20:00"; end = some "04:00" };
  saturday = record { start = none; end = none };
  sunday = record { start = some "22:30"; end = some "06:00" };
}

-- One DOWN result confirms an outage.
abbrev pub sample : Store
sample = record {
  settings = ("failures_before_incident", "1") ∷ [];
  schedules = shifts ∷ [];
  sites =
      record { id = 1; schedule_id = 1; name = "office"; enabled = true; display_order = 1 } ∷ [];
  targets = router ∷ [];
  checks = web_check ∷ [];
  results = [];
  check_results = [];
  incidents = [];
  next_check = 20;
  next_result = 1;
  next_check_result = 1;
  next_incident = 1;
}

abbrev pub result : ℕ → CheckStatus → CheckResult
result at status = record {
  id = at;
  target_id = 3;
  status = status;
  latency_ms = none;
  message = none;
  checked_at = at;
}

-- The target has just been seen DOWN.
abbrev pub failing : Store
failing = record sample { results = result 10 CheckStatus.down ∷ []; next_result = 11 }

pub sample-IsWellFormed : IsWellFormed sample
unfolding count
sample-IsWellFormed = record {
  keys = record { once = λ k. omega arith; below = λ k le. refl };
  one_open = λ s. omega arith;
}

pub failing-IsWellFormed : IsWellFormed failing
unfolding count
failing-IsWellFormed = record {
  keys = record { once = λ k. omega arith; below = λ k le. refl };
  one_open = λ s. omega arith;
}

abbrev pub outcome : CheckStatus → CheckOutcome
outcome status = record {
  status = status;
  latency_ms = none;
  message = none;
  tls_not_after = none;
  http_status_code = none;
  directory_accessible = none;
  directory_files = none;
  directory_recent_count = none;
  directory_latest_file_at = none;
}
