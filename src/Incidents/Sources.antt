-- ===== src/Incidents/Sources.antt =====
-- `set_source_state` and `resolve_source_silently`: one incident for each source key, which opens,
-- escalates and closes with the severity that the source reports.
use monitoring_maxval.Base.{
  ℕ, Bool, true, ◌&&◌, not, none, some, [], ◌==◌, if◌then◌else◌, Option, false,
}
use monitoring_maxval.Base.Int.{pos}
use monitoring_maxval.Base.Text.{String, str_eq}
use monitoring_maxval.Base.Rows.{newest}
use monitoring_maxval.Model.{
  Store, MonitorTarget, Incident, IncidentStatus, SourceKind, Severity, is_active, same_kind,
}
use monitoring_maxval.Incidents.Notices.{source_opening_notification}
use monitoring_maxval.Incidents.Attempts.{Notified, opening_notification, recovery_notification}
use monitoring_maxval.Incidents.Steps.{Outcome, add_incident, change_incident, fail_again, resolve}

abbrev pub has_source_key : String → Incident → Bool
has_source_key key i = elim (i.source_key) [ none ↦ false | some k ↦ str_eq k key ]

-- The `WHERE` of the query for the open incident of a source.
abbrev pub source_of_target : ℕ → SourceKind → String → Incident → Bool
source_of_target target_id kind key i =
    (i.target_id == target_id)
    && is_active i.status
    && same_kind i.source_kind kind
    && has_source_key key i

-- `previous == WARNING and severity == CRITICAL`
abbrev pub escalates : Option Severity → Severity → Bool
escalates (some Severity.warning) Severity.critical = true
escalates _ _ = false

abbrev pub source_row : Store → ℕ → SourceKind → String → Severity → String → ℕ → Incident
source_row db target_id kind key severity message observed_at = record {
  id = db.next_incident;
  target_id = target_id;
  check_id = none;
  status = IncidentStatus.active;
  source_kind = kind;
  source_key = some key;
  severity = some severity;
  failure_count = pos 1;
  opened_at = observed_at;
  resolved_at = none;
  last_failure_at = observed_at;
  last_message = some message;
  open_notification_attempted_at = none;
  recovery_notification_attempted_at = none;
}

abbrev pub silent : (Incident → Incident) → Incident → Notified
silent f i = (none, f i)

-- The incident that is closed because its source is back to normal.
abbrev pub closed_source : ℕ → String → Incident → Incident
closed_source observed_at message i = record (resolve observed_at i) { last_message = some message }

-- The open incident, once more at fault at a severity, and the notification of an escalation.
unfoldable pub worsen : Store → MonitorTarget → Severity → String → ℕ → Bool → Incident → Notified
worsen db target severity message observed_at notify i =
    let i' = record (fail_again observed_at (some message) i) { severity = some severity } in
    if notify && escalates i.severity severity && not target.notifications_suppressed
    then (some (source_opening_notification db target i' true), i')
    else (none, i')

-- The branches, by the open incident that was found and by the severity.
unfoldable pub source_step :
    ℕ
    → MonitorTarget
    → SourceKind
    → String
    → String
    → ℕ
    → Bool
    → Option Incident
    → Option Severity
    → Store
    → Outcome
source_step now target kind key message observed_at notify none none db = ([], db)
source_step now target kind key message observed_at notify (some incident) none db =
    change_incident
      (λ i.
        if notify
        then recovery_notification now db target (closed_source observed_at message i)
        else silent (closed_source observed_at message) i)
      incident db
source_step now target kind key message observed_at notify none (some severity) db =
    add_incident (λ i. if notify then opening_notification now db target i else (none, i))
      (source_row db target.id kind key severity message observed_at) db
source_step now target kind key message observed_at notify (some incident) (some severity) db =
    change_incident (worsen db target severity message observed_at notify) incident db

-- The notifications and the store; the incident that the method returns beside them is the one that
-- the query finds, or the new one.
unfoldable pub set_source_state :
    ℕ → MonitorTarget → SourceKind → String → Option Severity → String → ℕ → Bool → Store → Outcome
unfolding source_step
set_source_state now target kind key severity message observed_at notify db =
    source_step now target kind key message observed_at notify
      (newest Incident.id (source_of_target target.id kind key) db.incidents) severity db

unfoldable pub resolve_source_silently :
    ℕ → MonitorTarget → SourceKind → String → String → ℕ → Store → Store
unfolding set_source_state
resolve_source_silently now target kind key message observed_at db =
    (set_source_state now target kind key none message observed_at false db).1
