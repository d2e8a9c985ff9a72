-- ===== src/Incidents/Checks.antt =====
-- `process_target_check_result` and `resolve_target_check_silently`: the incidents of the additional
-- checks of a target.
use monitoring_maxval.Base.{
  ℕ, Bool, true, ◌&&◌, ◌||◌, not, none, some, [], map, ◌==◌, if◌then◌else◌, false, Option,
}
use monitoring_maxval.Base.Text.{String, ◌⧺◌, str_eq, is_empty, or_text, decimal, upper}
use monitoring_maxval.Base.Rows.{newest, update}
use monitoring_maxval.Model.{
  Store, MonitorTarget, TargetCheck, UnstableLink, TargetCheckResult, CheckStatus, Incident,
  IncidentStatus, SourceKind, Severity, is_active, same_kind,
}
use monitoring_maxval.UnstableLink.{
  record_unconfirmed_down, record_confirmed_down, record_recovered_up,
}
use monitoring_maxval.Incidents.Settings.{integer_setting}
use monitoring_maxval.Incidents.Attempts.{opening_notification, recovery_notification}
use monitoring_maxval.Incidents.Steps.{
  Outcome, add_incident, change_incident, fail_again, resolve, confirmed_check_failure,
}

abbrev pub directory_checker_type : String
directory_checker_type = "directory"

abbrev pub has_check : ℕ → Incident → Bool
has_check check_id i = elim (i.check_id) [ none ↦ false | some k ↦ k == check_id ]

-- The `WHERE` of the query for the open incident of a check.
abbrev pub check_of_target : ℕ → ℕ → SourceKind → Incident → Bool
check_of_target target_id check_id kind i =
    (i.target_id == target_id)
    && has_check check_id i
    && is_active i.status
    && same_kind i.source_kind kind

-- `TargetCheck.effective_address`
unfoldable pub effective_address : MonitorTarget → TargetCheck → String
effective_address target check =
    if str_eq check.checker_type "dns" && not (is_empty (or_text check.dns_name ""))
    then or_text check.dns_name ""
    else or_text check.address_override target.address

unfoldable pub check_message : MonitorTarget → TargetCheck → Option String → String
unfolding effective_address
check_message target check message =
    let endpoint =
      (if str_eq check.checker_type "icmp"
        then effective_address target check
        else effective_address target check ⧺ ":" ⧺ decimal check.port) in
    check.name
    ⧺ " · "
    ⧺ upper check.checker_type
    ⧺ " · "
    ⧺ endpoint
    ⧺ ": "
    ⧺ or_text message "без сообщения"

-- The change to the marker of an unstable link, which a directory check does not have.
unfoldable pub mark_check : TargetCheck → (UnstableLink → UnstableLink) → Store → Store
mark_check check mark db =
    if str_eq check.checker_type directory_checker_type then db else record db {
      checks =
          update TargetCheck.id check.id (λ c. record c { unstable = mark c.unstable }) db.checks;
    }

abbrev pub check_row : Store → ℕ → ℕ → TargetCheckResult → String → Incident
check_row db target_id check_id result message = record {
  id = db.next_incident;
  target_id = target_id;
  check_id = some check_id;
  status = IncidentStatus.active;
  source_kind = SourceKind.check;
  source_key = none;
  severity = some Severity.critical;
  failure_count = integer_setting "failures_before_incident" 2 db.settings;
  opened_at = result.checked_at;
  resolved_at = none;
  last_failure_at = result.checked_at;
  last_message = some message;
  open_notification_attempted_at = none;
  recovery_notification_attempted_at = none;
}

abbrev marked : TargetCheck → (UnstableLink → UnstableLink) → Outcome → Outcome
marked check mark (events, db) = (events, mark_check check mark db)

unfoldable pub process_check_down :
    ℕ → MonitorTarget → TargetCheck → TargetCheckResult → Option Incident → Store → Outcome
process_check_down now target check result none db =
    if confirmed_check_failure db check.id result.config_version
    then marked check record_confirmed_down (
        add_incident (opening_notification now db target)
          (check_row db target.id check.id result (check_message target check result.message)) db)
    else ([], mark_check check record_unconfirmed_down db)
process_check_down now target check result (some incident) db = marked check record_confirmed_down (
    change_incident
      (λ row.
        opening_notification now db target
          (fail_again result.checked_at (some (check_message target check result.message)) row))
      incident db)

unfoldable pub process_check_up :
    ℕ → MonitorTarget → TargetCheck → TargetCheckResult → Option Incident → Store → Outcome
process_check_up now target check result none db =
    ([], mark_check check (record_recovered_up result.checked_at false) db)
process_check_up now target check result (some incident) db =
    marked check (record_recovered_up result.checked_at true) (
      change_incident
        (λ row. recovery_notification now db target (record (resolve result.checked_at row) {
          last_message = some (check_message target check (some "проверка снова успешна"));
        }))
        incident db)

unfoldable pub process_target_check_result :
    ℕ → MonitorTarget → TargetCheck → TargetCheckResult → Store → Outcome
unfolding process_check_down process_check_up
process_target_check_result now target check result db =
    let incident =
      newest Incident.id (check_of_target target.id check.id SourceKind.check) db.incidents in
    if check.is_primary then ([], db) else elim (result.status) [
      | CheckStatus.down ↦ process_check_down now target check result incident db
      | CheckStatus.up ↦ process_check_up now target check result incident db
      | CheckStatus.unknown ↦ ([], db)
    ]

-- What `resolve_target_check_silently` and `resolve_check_tls_silently` do to one incident.
abbrev pub resolve_with : ℕ → String → Bool → Incident → Incident
resolve_with now message detach i = record i {
  status = IncidentStatus.resolved;
  resolved_at = some now;
  last_message = some message;
  check_id = if detach then none else i.check_id;
}

unfoldable pub resolve_where : (Incident → Bool) → (Incident → Incident) → Store → Store
resolve_where chosen change db = record db {
  incidents = map (λ i. if chosen i then change i else i) db.incidents;
}

unfoldable pub resolve_target_check_silently :
    ℕ → MonitorTarget → TargetCheck → String → Bool → Store → Store
unfolding resolve_where
resolve_target_check_silently now target check message detach db =
    resolve_where
      (λ i.
        check_of_target target.id check.id SourceKind.check i
        || check_of_target target.id check.id SourceKind.check_tls i)
      (resolve_with now message detach) db

unfoldable pub resolve_check_tls_silently : ℕ → MonitorTarget → TargetCheck → String → Store → Store
unfolding resolve_where
resolve_check_tls_silently now target check message db =
    resolve_where (check_of_target target.id check.id SourceKind.check_tls)
      (resolve_with now message false) db
