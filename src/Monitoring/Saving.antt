-- ===== src/Monitoring/Saving.antt =====
-- `save_result` and `save_target_check_result`, and `CheckOutcome` of checks/base.py.
use monitoring_maxval.Base.{
  ℕ, ◌+◌, Bool, ◌&&◌, ◌||◌, not, none, some, List, [], ◌++◌, ◌==◌, if◌then◌else◌, false, Option,
}
use monitoring_maxval.Base.Int.{ℤ, pos, negsuc}
use monitoring_maxval.Base.Result.{Result, ok, err}
use monitoring_maxval.Base.Text.{String, str_eq}
use monitoring_maxval.Base.Rows.{find, insert, update}
use monitoring_maxval.Model.{
  Store, MonitorTarget, Site, WorkSchedule, TargetCheck, DirectoryFile, CheckStatus, CheckResult,
  TargetCheckResult,
}
use monitoring_maxval.Schedules.{ZoneInfo, schedule_timezone, schedule_is_working}
use monitoring_maxval.Tls.{TlsError, TlsEvaluation, evaluate_tls_certificate}
use monitoring_maxval.Incidents.Steps.{Outcome}
use monitoring_maxval.Incidents.Availability.{process_result}
use monitoring_maxval.Incidents.Checks.{process_target_check_result, directory_checker_type}
use monitoring_maxval.Incidents.Tls.{apply_check_tls_health}

pub record CheckOutcome : Type 0 where
  pub status : CheckStatus
  pub latency_ms : Option ℕ
  pub message : Option String
  pub tls_not_after : Option ℕ
  pub http_status_code : Option ℕ
  pub directory_accessible : Option Bool
  pub directory_files : Option (List DirectoryFile)
  pub directory_recent_count : Option ℕ
  pub directory_latest_file_at : Option ℕ

-- The exceptions that leave the two methods.
pub data SaveError : Type 0 where
  target_not_found check_not_found : SaveError
  bad_thresholds : TlsError → SaveError

-- The schedule of a site, `session.get(WorkSchedule, site.schedule_id)`
abbrev pub schedule_of : Store → Site → Option WorkSchedule
schedule_of db site = find WorkSchedule.id site.schedule_id db.schedules

-- The site exists and is enabled, and its schedule is at work at this instant.
unfoldable pub site_is_working : ZoneInfo → ℕ → MonitorTarget → Store → Bool
site_is_working zone_info now target db = elim (find Site.id target.site_id db.sites) [
  | none ↦ false
  | some site ↦
      site.enabled
      && schedule_is_working zone_info (schedule_of db site) now (schedule_timezone db.settings)
]

abbrev pub result_row : Store → ℕ → ℕ → CheckOutcome → CheckResult
result_row db now target_id outcome = record {
  id = db.next_result;
  target_id = target_id;
  status = outcome.status;
  latency_ms = outcome.latency_ms;
  message = outcome.message;
  checked_at = now;
}

-- `session.add(result); session.flush()`
abbrev pub add_result : CheckResult → Store → Store
add_result result db = record db {
  results = insert result db.results;
  next_result = db.next_result + 1;
}

-- A result is stored and given to the incident service.
unfoldable pub record_outcome : ℕ → MonitorTarget → CheckOutcome → Store → Outcome
record_outcome now target outcome db =
    let result = result_row db now target.id outcome in
    process_result now target result (add_result result db)

unfoldable pub save_result : ZoneInfo → ℕ → ℕ → CheckOutcome → Store → Result SaveError Outcome
unfolding record_outcome site_is_working
save_result zone_info now target_id outcome db = elim (find MonitorTarget.id target_id db.targets) [
  | none ↦ err SaveError.target_not_found
  | some target ↦ ok (
      if target.enabled && site_is_working zone_info now target db
      then record_outcome now target outcome db
      else ([], db))
]

abbrev pub check_result_row :
    Store → ℕ → TargetCheck → CheckOutcome → Option TlsEvaluation → TargetCheckResult
check_result_row db now check outcome evaluation = record {
  id = db.next_check_result;
  check_id = check.id;
  status = outcome.status;
  latency_ms = outcome.latency_ms;
  message = outcome.message;
  config_version = check.config_version;
  checked_at = now;
  tls_not_after = elim evaluation [ none ↦ none | some e ↦ some (e.not_after) ];
  tls_days_remaining = elim evaluation [ none ↦ none | some e ↦ some (e.remaining) ];
  tls_health = elim evaluation [ none ↦ none | some e ↦ some (e.health) ];
}

abbrev add_check_result : TargetCheckResult → Store → Store
add_check_result result db = record db {
  check_results = insert result db.check_results;
  next_check_result = db.next_check_result + 1;
}

abbrev is_zero : ℤ → Bool
is_zero (pos n) = n == 0
is_zero (negsuc n) = false

-- `check.tls_warning_days or 30`, and 7 where no critical threshold is given
abbrev warning_or_default : Option ℤ → ℤ
warning_or_default none = pos 30
warning_or_default (some n) = if is_zero n then pos 30 else n

abbrev critical_or_default : Option ℤ → ℤ
critical_or_default none = pos 7
critical_or_default (some n) = n

-- The evaluation of the certificate, if one is watched and was seen.
unfoldable pub evaluate_check :
    ℕ → TargetCheck → CheckOutcome → Result TlsError (Option TlsEvaluation)
evaluate_check now check outcome =
    if str_eq check.checker_type "https" && check.tls_monitor_enabled
    then elim (outcome.tls_not_after) [
      | none ↦ ok none
      | some not_after ↦
          elim (evaluate_tls_certificate not_after (warning_or_default check.tls_warning_days)
            (critical_or_default check.tls_critical_days) now) [
              | ok evaluation ↦ ok (some evaluation)
              | err e ↦ err e
            ]
    ]
    else ok none

abbrev files_or_none : Option (List DirectoryFile) → List DirectoryFile
files_or_none none = []
files_or_none (some files) = files

abbrev is_accessible : Option Bool → Bool
is_accessible none = false
is_accessible (some b) = b

-- What a scan of a directory leaves in the row of its check.
unfoldable pub record_directory : ℕ → TargetCheck → CheckOutcome → Store → Store
record_directory now check outcome db =
    if str_eq check.checker_type directory_checker_type
      && is_accessible outcome.directory_accessible
    then record db {
      checks =
          update TargetCheck.id check.id
            (λ c. record c {
              directory_last_files = some (files_or_none outcome.directory_files);
              directory_recent_count = outcome.directory_recent_count;
              directory_latest_file_at = outcome.directory_latest_file_at;
              directory_scanned_at = some now;
            })
            db.checks;
    }
    else db

-- The incidents of a certificate are touched only if it was seen in this very request.
unfoldable pub apply_evaluation :
    ℕ → MonitorTarget → TargetCheck → Option TlsEvaluation → Outcome → Outcome
apply_evaluation now target check none out = out
apply_evaluation now target check (some evaluation) (events, db) =
    let (more, db') = apply_check_tls_health now target check evaluation now db in
    (events ++ more, db')

-- A result is stored and given to the incident service.
unfoldable pub record_check_outcome :
    ℕ → MonitorTarget → TargetCheck → CheckOutcome → Option TlsEvaluation → Store → Outcome
unfolding record_directory apply_evaluation
record_check_outcome now target check outcome evaluation db =
    let result = check_result_row db now check outcome evaluation in
    let stored = record_directory now check outcome (add_check_result result db) in
    apply_evaluation now target check evaluation
      (process_target_check_result now target check result stored)

-- The configuration that the outcome belongs to is not the current one.
abbrev pub is_stale : Option ℕ → TargetCheck → Bool
is_stale none check = false
is_stale (some expected) check = not (check.config_version == expected)

-- The part of the method behind the two look-ups.
unfoldable pub save_for_check :
    ZoneInfo
    → ℕ
    → MonitorTarget
    → TargetCheck
    → CheckOutcome
    → Option ℕ
    → Store
    → Result SaveError Outcome
unfolding evaluate_check site_is_working
save_for_check zone_info now target check outcome expected db =
    if is_stale expected check
      || not (target.enabled && check.enabled && site_is_working zone_info now target db)
    then ok ([], db)
    else elim (evaluate_check now check outcome) [
      | err e ↦ err (SaveError.bad_thresholds e)
      | ok evaluation ↦ ok (record_check_outcome now target check outcome evaluation db)
    ]

-- `target is None or check is None or check.target_id != target_id`
abbrev missing_check : Option ℕ → Store → Result SaveError Outcome
missing_check none db = err SaveError.check_not_found
missing_check (some _) db = ok ([], db)

unfoldable pub save_target_check_result :
    ZoneInfo → ℕ → ℕ → ℕ → CheckOutcome → Option ℕ → Store → Result SaveError Outcome
unfolding save_for_check
save_target_check_result zone_info now target_id check_id outcome expected db =
    elim (find MonitorTarget.id target_id db.targets) [
      | none ↦ missing_check expected db
      | some target ↦ elim (find TargetCheck.id check_id db.checks) [
        | none ↦ missing_check expected db
        | some check ↦
            if check.target_id == target_id
            then save_for_check zone_info now target check outcome expected db
            else missing_check expected db
      ]
    ]
