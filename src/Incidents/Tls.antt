-- ===== src/Incidents/Tls.antt =====
-- `apply_check_tls_health`: the incident of an expiring certificate, which leaves availability alone.
use monitoring_maxval.Base.{ℕ, true, ◌&&◌, not, none, some, [], if◌then◌else◌, Option}
use monitoring_maxval.Base.Int.{pos}
use monitoring_maxval.Base.Text.{String}
use monitoring_maxval.Base.Rows.{newest}
use monitoring_maxval.Model.{
  Store, MonitorTarget, TargetCheck, Incident, IncidentStatus, SourceKind, Severity, TlsHealth,
}
use monitoring_maxval.Tls.{TlsEvaluation, tls_reason}
use monitoring_maxval.Incidents.Notices.{check_tls_notification}
use monitoring_maxval.Incidents.Attempts.{Notified, opening_notification, recovery_notification}
use monitoring_maxval.Incidents.Steps.{Outcome, add_incident, change_incident, fail_again, resolve}
use monitoring_maxval.Incidents.Checks.{check_of_target}
use monitoring_maxval.Incidents.Sources.{escalates}

abbrev pub tls_severity : TlsHealth → Severity
tls_severity TlsHealth.critical = Severity.critical
tls_severity _ = Severity.warning

abbrev pub tls_row : Store → ℕ → ℕ → Severity → String → ℕ → Incident
tls_row db target_id check_id severity message observed_at = record {
  id = db.next_incident;
  target_id = target_id;
  check_id = some check_id;
  status = IncidentStatus.active;
  source_kind = SourceKind.check_tls;
  source_key = none;
  severity = some severity;
  failure_count = pos 1;
  opened_at = observed_at;
  resolved_at = none;
  last_failure_at = observed_at;
  last_message = some message;
  open_notification_attempted_at = none;
  recovery_notification_attempted_at = none;
}

unfoldable pub worsen_tls : Store → MonitorTarget → Severity → String → ℕ → Incident → Notified
worsen_tls db target severity message observed_at i =
    let i' = record (fail_again observed_at (some message) i) { severity = some severity } in
    if escalates i.severity severity && not target.notifications_suppressed
    then (some (check_tls_notification db target i' true), i')
    else (none, i')

-- The branches, by the open incident that was found and by the health of the certificate.
unfoldable pub tls_step :
    ℕ → MonitorTarget → TargetCheck → String → ℕ → Option Incident → TlsHealth → Store → Outcome
tls_step now target check message observed_at none TlsHealth.ok db = ([], db)
tls_step now target check message observed_at (some incident) TlsHealth.ok db =
    change_incident
      (λ i.
        recovery_notification now db target
          (record (resolve observed_at i) { last_message = some message }))
      incident db
tls_step now target check message observed_at none health db =
    add_incident (opening_notification now db target)
      (tls_row db target.id check.id (tls_severity health) message observed_at) db
tls_step now target check message observed_at (some incident) health db =
    change_incident (worsen_tls db target (tls_severity health) message observed_at) incident db

unfoldable pub apply_check_tls_health :
    ℕ → MonitorTarget → TargetCheck → TlsEvaluation → ℕ → Store → Outcome
unfolding tls_step
apply_check_tls_health now target check evaluation observed_at db =
    tls_step now target check (tls_reason evaluation) observed_at
      (newest Incident.id (check_of_target target.id check.id SourceKind.check_tls) db.incidents)
      evaluation.health db
