-- ===== src/Incidents/Availability.antt =====
-- `IncidentService.process_result`: the incident of a target's own availability.
use monitoring_maxval.Base.{
  ℕ, Bool, true, ◌&&◌, not, none, some, [], ◌==◌, if◌then◌else◌, is_some, Option, false,
}
use monitoring_maxval.Base.Rows.{newest, update}
use monitoring_maxval.Model.{
  Store, MonitorTarget, UnstableLink, CheckResult, CheckStatus, Incident, IncidentStatus,
  SourceKind, is_active, same_kind,
}
use monitoring_maxval.UnstableLink.{
  record_unconfirmed_down, record_confirmed_down, record_recovered_up,
}
use monitoring_maxval.Incidents.Settings.{integer_setting}
use monitoring_maxval.Incidents.Attempts.{opening_notification, recovery_notification}
use monitoring_maxval.Incidents.Steps.{
  Outcome, add_incident, change_incident, fail_again, resolve, confirmed_failure,
}

-- The `WHERE` of the query for the open incident.
abbrev pub availability_of : ℕ → Incident → Bool
availability_of target_id i =
    (i.target_id == target_id)
    && is_active i.status
    && same_kind i.source_kind SourceKind.availability
    && not (is_some i.check_id)

-- The change to the two columns of the target that keep the marker of an unstable link.
unfoldable pub mark_target : ℕ → (UnstableLink → UnstableLink) → Store → Store
mark_target target_id mark db = record db {
  targets =
      update MonitorTarget.id target_id (λ t. record t { unstable = mark t.unstable }) db.targets;
}

abbrev pub availability_row : Store → ℕ → CheckResult → Incident
availability_row db target_id result = record {
  id = db.next_incident;
  target_id = target_id;
  check_id = none;
  status = IncidentStatus.active;
  source_kind = SourceKind.availability;
  source_key = none;
  severity = none;
  failure_count = integer_setting "failures_before_incident" 2 db.settings;
  opened_at = result.checked_at;
  resolved_at = none;
  last_failure_at = result.checked_at;
  last_message = result.message;
  open_notification_attempted_at = none;
  recovery_notification_attempted_at = none;
}

abbrev marked : ℕ → (UnstableLink → UnstableLink) → Outcome → Outcome
marked target_id mark (events, db) = (events, mark_target target_id mark db)

-- The branch of a DOWN result; the argument is the open incident that was found.
unfoldable pub process_down : ℕ → MonitorTarget → CheckResult → Option Incident → Store → Outcome
unfolding mark_target
process_down now target result none db =
    if confirmed_failure db target.id
    then marked target.id record_confirmed_down (
        add_incident (opening_notification now db target) (availability_row db target.id result) db)
    else ([], mark_target target.id record_unconfirmed_down db)
process_down now target result (some incident) db = marked target.id record_confirmed_down (
    change_incident
      (λ row. opening_notification now db target (fail_again result.checked_at result.message row))
      incident db)

-- The branch of an UP result.
unfoldable pub process_up : ℕ → MonitorTarget → CheckResult → Option Incident → Store → Outcome
unfolding mark_target
process_up now target result none db =
    ([], mark_target target.id (record_recovered_up result.checked_at false) db)
process_up now target result (some incident) db =
    marked target.id (record_recovered_up result.checked_at true) (
      change_incident (λ row. recovery_notification now db target (resolve result.checked_at row))
        incident db)

unfoldable pub process_result : ℕ → MonitorTarget → CheckResult → Store → Outcome
unfolding process_down process_up
process_result now target result db =
    let incident = newest Incident.id (availability_of target.id) db.incidents in
    elim (result.status) [
      | CheckStatus.down ↦ process_down now target result incident db
      | CheckStatus.up ↦ process_up now target result incident db
      | CheckStatus.unknown ↦ ([], db)
    ]
