-- ===== src/TargetChecks/Rules.antt =====
-- The rules of target_checks.py on the table of checks: the primary check of a target, the order, the
-- number and the names of its checks, and what a check executes.
use monitoring_maxval.Base.{
  ℕ, ◌+◌, Bool, true, false, ◌&&◌, not, Option, none, some, List, [], ◌∷◌, ltb, ◌==◌, if◌then◌else◌,
  max, is_some,
}
use monitoring_maxval.Base.Int.{ℤ, pos, negsuc}
use monitoring_maxval.Base.Text.{String, str_eq, is_empty}
use monitoring_maxval.Base.Strings.{same_option}
use monitoring_maxval.Base.Rows.{count, first, insert, update}
use monitoring_maxval.Model.{Store, MonitorTarget, TargetCheck}

abbrev pub primary_check_name : String
primary_check_name = "Основная доступность"

abbrev pub max_checks_per_target : ℕ
max_checks_per_target = 16

abbrev pub of_target : ℕ → TargetCheck → Bool
of_target target_id c = c.target_id == target_id

abbrev pub is_primary_of : ℕ → TargetCheck → Bool
is_primary_of target_id c = of_target target_id c && c.is_primary

unfoldable pub sync_primary_check : MonitorTarget → TargetCheck → TargetCheck
sync_primary_check target primary = record primary {
  name = primary_check_name;
  checker_type = target.checker_type;
  address_override = none;
  port = target.port;
  path = "/";
  timeout_seconds = none;
  retries = 0;
  enabled = true;
  is_primary = true;
  display_order = 0;
}

-- A row with the defaults of the model, but for the columns that come first.
abbrev pub default_check : ℕ → ℕ → String → String → ℕ → TargetCheck
default_check id target_id name checker_type port = record {
  id = id;
  target_id = target_id;
  name = name;
  checker_type = checker_type;
  address_override = none;
  port = port;
  path = "/";
  timeout_seconds = none;
  retries = 0;
  enabled = true;
  is_primary = false;
  display_order = 0;
  config_version = 1;
  http_expected_status = none;
  http_content_contains = none;
  http_content_not_contains = none;
  http_max_response_ms = none;
  tls_monitor_enabled = false;
  tls_warning_days = none;
  tls_critical_days = none;
  dns_name = none;
  dns_record_type = none;
  dns_expected_address = none;
  dns_max_response_ms = none;
  directory_path = none;
  directory_pattern = none;
  directory_period_hours = none;
  directory_show_last = none;
  directory_username = none;
  directory_password_encrypted = "";
  directory_last_files = none;
  directory_recent_count = none;
  directory_latest_file_at = none;
  directory_scanned_at = none;
  unstable = record { pending_down = false; until = none };
}

abbrev pub new_primary : MonitorTarget → ℕ → TargetCheck
new_primary target id =
    record (default_check id target.id primary_check_name target.checker_type target.port) {
      is_primary = true;
    }

-- `session.add(check); session.flush()`
abbrev pub add_check : (ℕ → TargetCheck) → Store → Store
add_check make db = record db {
  checks = insert (make db.next_check) db.checks;
  next_check = db.next_check + 1;
}

abbrev pub with_checks : List TargetCheck → Store → Store
with_checks checks db = record db { checks = checks }

unfoldable pub ensure_primary_check : MonitorTarget → Store → Store
ensure_primary_check target db = elim (first (is_primary_of target.id) db.checks) [
  | none ↦ add_check (new_primary target) db
  | some primary ↦
      with_checks (update TargetCheck.id primary.id (sync_primary_check target) db.checks) db
]

-- `SELECT max(display_order) WHERE target_id = ...`, 0 where there is no row
unfoldable pub max_display_order : ℕ → List TargetCheck → ℕ
max_display_order target_id [] = 0
max_display_order target_id (c ∷ cs) =
    let rest = max_display_order target_id cs in
    if of_target target_id c then max c.display_order rest else rest

unfoldable pub next_check_display_order : ℕ → Store → ℕ
next_check_display_order target_id db = max_display_order target_id db.checks + 1

-- Whether `ensure_check_capacity` does not raise.
unfoldable pub has_check_capacity : ℕ → Store → Bool
has_check_capacity target_id db = ltb (count (of_target target_id) db.checks) max_checks_per_target

-- `same` compares a name with the one that is looked for: `lower(name)` of the database and
-- `casefold()` of Python.
unfoldable pub duplicate_check_name_exists :
    (String → String → Bool) → ℕ → String → Option ℕ → Store → Bool
duplicate_check_name_exists same target_id name exclude_check_id db = is_some (
    first
      (λ c.
        of_target target_id c
        && same c.name name
        && not (same_option (λ a b. a == b) (some c.id) exclude_check_id))
      db.checks)

abbrev pub same_bool : Bool → Bool → Bool
same_bool true b = b
same_bool false b = not b

abbrev pub same_ℤ : ℤ → ℤ → Bool
same_ℤ (pos m) (pos n) = m == n
same_ℤ (negsuc m) (negsuc n) = m == n
same_ℤ _ _ = false

abbrev path_of : TargetCheck → String
path_of c = if is_empty c.path then "/" else c.path

-- `check_execution_signature(c) == check_execution_signature(d)`, with the digest of a password as
-- a parameter
unfoldable pub same_execution : (String → String) → TargetCheck → TargetCheck → Bool
same_execution sha256 c d =
    str_eq c.checker_type d.checker_type
    && same_option str_eq c.address_override d.address_override
    && (c.port == d.port)
    && str_eq (path_of c) (path_of d)
    && same_option (λ a b. a == b) c.timeout_seconds d.timeout_seconds
    && (c.retries == d.retries)
    && same_option (λ a b. a == b) c.http_expected_status d.http_expected_status
    && same_option str_eq c.http_content_contains d.http_content_contains
    && same_option str_eq c.http_content_not_contains d.http_content_not_contains
    && same_option (λ a b. a == b) c.http_max_response_ms d.http_max_response_ms
    && same_bool c.tls_monitor_enabled d.tls_monitor_enabled
    && same_option same_ℤ c.tls_warning_days d.tls_warning_days
    && same_option same_ℤ c.tls_critical_days d.tls_critical_days
    && same_option str_eq c.dns_name d.dns_name
    && same_option str_eq c.dns_record_type d.dns_record_type
    && same_option str_eq c.dns_expected_address d.dns_expected_address
    && same_option (λ a b. a == b) c.dns_max_response_ms d.dns_max_response_ms
    && same_option str_eq c.directory_path d.directory_path
    && same_option str_eq c.directory_pattern d.directory_pattern
    && same_option (λ a b. a == b) c.directory_period_hours d.directory_period_hours
    && same_option (λ a b. a == b) c.directory_show_last d.directory_show_last
    && same_option str_eq c.directory_username d.directory_username
    && str_eq (sha256 c.directory_password_encrypted) (sha256 d.directory_password_encrypted)
