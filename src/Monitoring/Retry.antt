-- ===== src/Monitoring/Retry.antt =====
-- `check_target`, `check_target_check` and `_check_directory`: the request that a checker is given, and
-- the attempts. What attempt number i meets on the network is the argument i of a checker or a scan.
use monitoring_maxval.Base.{ℕ, zero, suc, ◌+◌, Bool, ◌||◌, Option, none, some, if◌then◌else◌, max}
use monitoring_maxval.Base.Text.{String, str_eq, or_text, is_empty, ◌⧺◌}
use monitoring_maxval.Model.{MonitorTarget, TargetCheck, CheckStatus, is_up}
use monitoring_maxval.Monitoring.Saving.{CheckOutcome}
use monitoring_maxval.Incidents.Checks.{directory_checker_type}

pub record CheckTarget : Type 0 where
  pub address : String
  pub port : ℕ
  pub path : String
  pub http_expected_status : Option ℕ
  pub http_content_contains : Option String
  pub http_content_not_contains : Option String
  pub http_max_response_ms : Option ℕ
  pub dns_name : Option String
  pub dns_record_type : Option String
  pub dns_expected_address : Option String
  pub dns_max_response_ms : Option ℕ

-- The arguments of `scan_directory`.
pub record DirectoryScan : Type 0 where
  pub path : String
  pub pattern : String
  pub period_hours : ℕ
  pub show_last : ℕ
  pub timeout : ℕ
  pub username : Option String
  pub password : String

abbrev pub Checker : Type 0
Checker = CheckTarget → ℕ → ℕ → CheckOutcome

-- `decrypt` is `decrypt_secret` under the settings, where there are any; it gives `none` for
-- `RuntimeError`. Times are in milliseconds.
pub record MonitoringService : Type 0 where
  pub registry : String → Option Checker
  pub timeout : ℕ
  pub decrypt : Option (String → Option String)
  pub scan_directory : DirectoryScan → ℕ → CheckOutcome

abbrev outcome_of : CheckStatus → String → CheckOutcome
outcome_of status message = record {
  status = status;
  latency_ms = none;
  message = some message;
  tls_not_after = none;
  http_status_code = none;
  directory_accessible = none;
  directory_files = none;
  directory_recent_count = none;
  directory_latest_file_at = none;
}

-- The message of the `LookupError` of `CheckerRegistry.get`.
abbrev unknown_checker : String → CheckOutcome
unknown_checker name = outcome_of CheckStatus.unknown ("Unknown checker: " ⧺ name)

abbrev pub not_run : CheckOutcome
not_run = outcome_of CheckStatus.unknown "Проверка не выполнена"

-- The loop over the attempts: it stops behind the first that is UP.
unfoldable pub attempt_from : ℕ → (ℕ → CheckOutcome) → ℕ → CheckOutcome → CheckOutcome
attempt_from zero attempt i outcome = outcome
attempt_from (suc left) attempt i outcome =
    let rest = attempt_from left attempt (suc i) (attempt i) in
    if is_up (attempt i).status then attempt i else rest

abbrev pub attempts_of : TargetCheck → ℕ
attempts_of check = max 1 (check.retries + 1)

-- `check.timeout_seconds or self.timeout_seconds`
abbrev pub timeout_of : MonitoringService → TargetCheck → ℕ
timeout_of service check = elim (check.timeout_seconds) [
  | none ↦ service.timeout
  | some zero ↦ service.timeout
  | some (suc n) ↦ suc n
]

abbrev only {ℓ} : {A : Type ℓ} → Bool → Option A → Option A
only b x = if b then x else none

unfoldable pub check_request : MonitorTarget → TargetCheck → CheckTarget
check_request target check =
    let http = str_eq check.checker_type "http" || str_eq check.checker_type "https" in
    let dns = str_eq check.checker_type "dns" in
    record {
      address = or_text check.address_override target.address;
      port = check.port;
      path = if is_empty check.path then "/" else check.path;
      http_expected_status = only http check.http_expected_status;
      http_content_contains = only http check.http_content_contains;
      http_content_not_contains = only http check.http_content_not_contains;
      http_max_response_ms = only http check.http_max_response_ms;
      dns_name = only dns check.dns_name;
      dns_record_type = only dns check.dns_record_type;
      dns_expected_address = only dns check.dns_expected_address;
      dns_max_response_ms = only dns check.dns_max_response_ms;
    }

abbrev unavailable : CheckOutcome
unavailable = outcome_of CheckStatus.down "Проверка каталога недоступна"

-- The password, or `none` where the check ends as unavailable.
abbrev directory_password : MonitoringService → String → Option String
directory_password service encrypted =
    if is_empty encrypted
    then some ""
    else elim (service.decrypt) [ none ↦ none | some decrypt ↦ decrypt encrypted ]

abbrev directory_request : MonitoringService → TargetCheck → String → ℕ → String → DirectoryScan
directory_request service check path period_hours password = record {
  path = path;
  pattern = or_text check.directory_pattern "*";
  period_hours = period_hours;
  show_last = elim (check.directory_show_last) [ none ↦ 0 | some n ↦ n ];
  timeout = timeout_of service check;
  username = check.directory_username;
  password = password;
}

abbrev scan_period : MonitoringService → TargetCheck → String → Option ℕ → CheckOutcome
scan_period service check path none = outcome_of CheckStatus.down "Не настроен путь к каталогу"
scan_period service check path (some period_hours) =
    elim (directory_password service check.directory_password_encrypted) [
      | none ↦ unavailable
      | some password ↦
          attempt_from (attempts_of check)
            (service.scan_directory (directory_request service check path period_hours password)) 0
            not_run
    ]

unfoldable pub check_directory : MonitoringService → TargetCheck → CheckOutcome
unfolding attempt_from
check_directory service check =
    let path = or_text check.directory_path "" in
    if is_empty path
    then outcome_of CheckStatus.down "Не настроен путь к каталогу"
    else scan_period service check path check.directory_period_hours

-- `check_target` asks once, under the address and the port alone.
unfoldable pub check_target : MonitoringService → MonitorTarget → CheckOutcome
check_target service target = elim (service.registry target.checker_type) [
  | none ↦ unknown_checker target.checker_type
  | some checker ↦
      checker
        (record {
          address = target.address;
          port = target.port;
          path = "/";
          http_expected_status = none;
          http_content_contains = none;
          http_content_not_contains = none;
          http_max_response_ms = none;
          dns_name = none;
          dns_record_type = none;
          dns_expected_address = none;
          dns_max_response_ms = none;
        })
        service.timeout 0
]

unfoldable pub check_target_check : MonitoringService → MonitorTarget → TargetCheck → CheckOutcome
unfolding attempt_from check_request check_directory
check_target_check service target check =
    if str_eq check.checker_type directory_checker_type
    then check_directory service check
    else elim (service.registry check.checker_type) [
      | none ↦ unknown_checker check.checker_type
      | some checker ↦
          attempt_from (attempts_of check)
            (checker (check_request target check) (timeout_of service check)) 0 not_run
    ]
