-- ===== src/Tests/Checks.antt =====
-- Requests about the checks of a target.
use monitoring_maxval.UnstableLink.{reset_unstable_link}
use monitoring_maxval.TargetChecks.Dns.{normalize_dns_fields}
use monitoring_maxval.TargetChecks.Directory.{
  clear_directory_fields, clear_directory_runtime, normalize_directory_fields,
}
use monitoring_maxval.Incidents.Checks.{resolve_check_tls_silently, resolve_where}
use monitoring_maxval.Tls.{normalize_tls_monitoring}
use monitoring_maxval.Base.Strings.{size, stripped, has_char, strip_left, strip_right}
use monitoring_maxval.Base.{ℕ, true, false, none, some, List, [], ◌∷◌, ◌≡◌, refl, arith, inl}
use monitoring_maxval.Base.Int.{pos}
use monitoring_maxval.Base.Text.{String, str_eq, py_int, py_int_codes, strip}
use monitoring_maxval.Base.Result.{ok}
use monitoring_maxval.Base.Rows.{In, count, find, first, update}
use monitoring_maxval.Model.{
  Store, TargetCheck, CheckStatus, Incident, IncidentStatus, SourceKind, Severity,
}
use monitoring_maxval.Schedules.{ZoneInfo}
use monitoring_maxval.Monitoring.Saving.{CheckOutcome, save_target_check_result}
use monitoring_maxval.Tests.Sample.{sample, router, web_check}
use monitoring_maxval.TargetChecks.Rules.{
  ensure_primary_check, same_execution, duplicate_check_name_exists,
}
use monitoring_maxval.TargetChecks.Primary.{ChecksAreSound}
use monitoring_maxval.TargetChecks.Synced.{IsInStep, ensure_primary_check-IsInStep}
use monitoring_maxval.TargetChecks.Fields.{
  CheckInput, CheckFields, normalize_check_fields, clean_port, typed_path, clean_address,
  clean_path, normalize_http_deep_fields,
}
use monitoring_maxval.TargetChecks.FieldBounds.{FitsColumns, normalize_check_fields-FitsColumns}
use monitoring_maxval.TargetChecks.Form.{
  Services, CheckForm, prepare, form_fields, parse_optional, form_http, form_tls, assign,
  assign_directory, form_directory, form_dns,
}
use monitoring_maxval.TargetChecks.Handlers.{
  Response, target_check_update, target_check_toggle, target_check_delete, updated_check,
  change_check, check_form, close_tls, commit_update, edited_check, renewed,
}
use monitoring_maxval.TargetChecks.Kept.{
  Request, handle_all, IsSound, handle_all-IsSound, handle_all-primary,
}
use monitoring_maxval.TargetChecks.Versions.{
  target_check_update-save_target_check_result, target_check_toggle-save_target_check_result,
}
use monitoring_maxval.TargetChecks.Deletion.{IsGone, IsClosed, target_check_delete-IsGone}

abbrev services : Services
services = record {
  checkers = "http" ∷ "https" ∷ "tcp" ∷ [];
  parse_float = λ t. some (pos 24000);
  names = record { idna = λ t. some t; ip_address = λ t. none };
  same_name = str_eq;
  sha256 = λ t. t;
  encrypt_secret = λ t. t;
}

-- A form for a check over HTTP on the port 8080.
abbrev form_of : String → CheckForm
form_of name = record {
  name = name;
  checker_type = "http";
  address_override = " 10.0.0.2 ";
  port = "8080";
  path = "status";
  timeout_seconds = "";
  retries = pos 2;
  expected_status = "200";
  content_contains = "";
  content_not_contains = "";
  max_response_ms = "";
  tls_monitor_enabled = "";
  tls_warning_days = "";
  tls_critical_days = "";
  dns_name = "";
  dns_record_type = "A";
  dns_expected_address = "";
  dns_max_response_ms = "";
  directory_path = "";
  directory_pattern = "*";
  directory_period_hours = "24";
  directory_show_last = "0";
  directory_username = "";
  directory_password = "";
}

sample-ChecksAreSound : ChecksAreSound sample
unfolding count
sample-ChecksAreSound = record {
  keys = record { once = λ k. ground arith; below = λ k le. ground arith };
  one_primary = λ t. ground arith;
}

ensure_primary_check-IsInStep_example : IsInStep router sample (ensure_primary_check router sample)
ensure_primary_check-IsInStep_example =
    ensure_primary_check-IsInStep router sample sample-ChecksAreSound

sample-IsSound : IsSound sample
unfolding count
sample-IsSound = record {
  checks = sample-ChecksAreSound;
  capacity = λ t. ground arith;
  incidents = record {
    formed = record {
      keys = record { once = λ k. omega arith; below = λ k le. refl };
      one_open = λ s. omega arith;
    };
    plain = refl;
  };
}

abbrev requests : List (ℕ × Request)
requests =
    (100, Request.create_check (form_of "mail") 3)
    ∷ (200, Request.update_check (form_of "site") 3 5)
    ∷ (300, Request.toggle_check 3 5)
    ∷ (400, Request.remove_check 3 20)
    ∷ []

handle_all-IsSound_example : IsSound (handle_all services requests sample)
handle_all-IsSound_example = handle_all-IsSound services requests sample sample-IsSound

abbrev primary_check : TargetCheck
primary_check = record web_check { is_primary = true }

abbrev with_primary : Store
with_primary = record sample { checks = primary_check ∷ [] }

handle_all-primary_example :
    find TargetCheck.id 5 (handle_all services requests with_primary).checks ≡ some primary_check
unfolding find
handle_all-primary_example =
    handle_all-primary services requests with_primary 5 {c = primary_check} refl refl

abbrev input : CheckInput
input = record {
  name = " web ";
  checker_type = "http";
  address_override = some "";
  port = none;
  path = some "index.html";
  timeout_seconds = some (pos 2500);
  retries = pos 3;
}

abbrev fields : CheckFields
fields = record {
  name = "web";
  checker_type = "http";
  address_override = none;
  port = 80;
  path = "/index.html";
  timeout_seconds = some 2500;
  retries = 3;
}

normalize_runs : normalize_check_fields ("http" ∷ []) input ≡ ok fields
unfolding normalize_check_fields size stripped clean_port typed_path clean_address clean_path
normalize_runs = refl

normalize_check_fields-FitsColumns_example : FitsColumns fields
normalize_check_fields-FitsColumns_example =
    normalize_check_fields-FitsColumns ("http" ∷ []) input {c = fields} normalize_runs

abbrev utc : ZoneInfo
utc zone = none

abbrev down : CheckOutcome
down = record {
  status = CheckStatus.down;
  latency_ms = none;
  message = none;
  tls_not_after = none;
  http_status_code = none;
  directory_accessible = none;
  directory_files = none;
  directory_recent_count = none;
  directory_latest_file_at = none;
}

abbrev changed : Response × Store
changed = target_check_update services (form_of "site") true 200 3 5 sample

abbrev site_check : TargetCheck
site_check = record web_check {
  name = "site";
  checker_type = "http";
  address_override = some "10.0.0.2";
  port = 8080;
  path = "/status";
  retries = 2;
  http_expected_status = some 200;
  tls_monitor_enabled = false;
  tls_warning_days = none;
  tls_critical_days = none;
  config_version = 2;
}

changed_row : find TargetCheck.id 5 changed.1.checks ≡ some site_check
unfolding find target_check_update check_form prepare form_fields parse_optional stripped py_int
    normalize_check_fields size has_char clean_port typed_path form_http normalize_http_deep_fields
    form_tls normalize_tls_monitoring first update strip_left strip_right py_int_codes strip
    resolve_check_tls_silently resolve_where clear_directory_fields clear_directory_runtime
    normalize_directory_fields normalize_dns_fields clean_address clean_path assign assign_directory
    form_directory form_dns close_tls commit_update edited_check renewed updated_check
    duplicate_check_name_exists same_execution reset_unstable_link
changed_row = refl

changed_done : changed.0 ≡ Response.done
unfolding find target_check_update check_form prepare form_fields parse_optional stripped py_int
    normalize_check_fields size has_char clean_port typed_path form_http normalize_http_deep_fields
    form_tls normalize_tls_monitoring first update strip_left strip_right py_int_codes strip
    resolve_check_tls_silently resolve_where clear_directory_fields clear_directory_runtime
    normalize_directory_fields normalize_dns_fields clean_address clean_path assign assign_directory
    form_directory form_dns close_tls commit_update edited_check renewed updated_check
    duplicate_check_name_exists same_execution reset_unstable_link
changed_done = refl

changed_execution : same_execution (λ t. t) site_check web_check ≡ false
unfolding same_execution
changed_execution = refl

web_check_found : find TargetCheck.id 5 sample.checks ≡ some web_check
unfolding find
web_check_found = refl

stale_after_update :
    save_target_check_result utc 300 3 5 down (some 1) changed.1 ≡ ok ([], changed.1)
stale_after_update =
    target_check_update-save_target_check_result services (form_of "site") utc 200 300 3 5 down
      sample {check = web_check} {after = site_check} web_check_found changed_done changed_row
      changed_execution

toggled_done : (target_check_toggle true 200 3 5 sample).0 ≡ Response.done
unfolding target_check_toggle change_check find
toggled_done = refl

stale_after_toggle :
    save_target_check_result utc 300 3 5 down (some 1) (target_check_toggle true 200 3 5 sample).1
    ≡ ok ([], (target_check_toggle true 200 3 5 sample).1)
unfolding find target_check_toggle change_check
stale_after_toggle =
    target_check_toggle-save_target_check_result utc 200 300 3 5 down sample {check = web_check}
      refl refl

-- An open incident about the check.
abbrev outage : Incident
outage = record {
  id = 1;
  target_id = 3;
  check_id = some 5;
  status = IncidentStatus.active;
  source_kind = SourceKind.check;
  source_key = none;
  severity = some Severity.critical;
  failure_count = pos 2;
  opened_at = 100;
  resolved_at = none;
  last_failure_at = 100;
  last_message = none;
  open_notification_attempted_at = some 100;
  recovery_notification_attempted_at = none;
}

abbrev failing_check : Store
failing_check = record sample { incidents = outage ∷ []; next_incident = 2 }

failing_check_deleted : (target_check_delete true 200 3 5 failing_check).0 ≡ Response.done
unfolding target_check_delete change_check find
failing_check_deleted = refl

target_check_delete_example :
    IsGone 200 3 5 failing_check (target_check_delete true 200 3 5 failing_check).1
target_check_delete_example =
    target_check_delete-IsGone 200 3 5 failing_check {check = web_check} web_check_found
      failing_check_deleted

outage-IsClosed :
    (j : Incident) × In j (target_check_delete true 200 3 5 failing_check).1.incidents
    × IsClosed 200 outage j
outage-IsClosed =
    (target_check_delete-IsGone 200 3 5 failing_check {check = web_check} web_check_found
        failing_check_deleted).closed
      outage (inl refl) (inl refl)
