-- ===== src/Incidents/Notices.antt =====
-- The notifications of incidents: what they say, and the columns that remember an attempt.
use monitoring_maxval.Base.{ℕ, Bool, none, some, ◌==◌, if◌then◌else◌, Option}
use monitoring_maxval.Base.Text.{String, ◌⧺◌, decimal, or_text}
use monitoring_maxval.Base.Rows.{find}
use monitoring_maxval.Model.{Store, Site, MonitorTarget, TargetCheck, Incident, is_critical}

pub data EventKind : Type 0 where
  opened recovered : EventKind

pub record Notification : Type 0 where
  pub subject : String
  pub body : String

pub record IncidentNotification : Type 0 where
  pub incident_id : ℕ
  pub kind : EventKind
  pub notification : Notification

-- `target.site.name`. The foreign key makes the row present.
unfoldable pub site_name : Store → MonitorTarget → String
site_name db target = elim (find Site.id target.site_id db.sites) [
  | none ↦ ""
  | some site ↦ site.name
]

-- `session.get(TargetCheck, incident.check_id) if incident.check_id else None`, which is also the
-- relationship `incident.check`
unfoldable pub check_of : Store → Incident → Option TargetCheck
check_of db incident = elim (incident.check_id) [
  | none ↦ none
  | some k ↦ if k == 0 then none else find TargetCheck.id k db.checks
]

abbrev pub check_name : Store → Incident → String → String
check_name db incident default = elim (check_of db incident) [
  | none ↦ default
  | some check ↦ check.name
]

abbrev severity_label : Incident → String
severity_label incident = elim (incident.severity) [
  | none ↦ "Warning"
  | some severity ↦ if is_critical severity then "Critical" else "Warning"
]

abbrev opening_prefix : Bool → String
opening_prefix escalation = if escalation then "Повышен уровень" else "Открыт инцидент"

abbrev pub place : Store → MonitorTarget → String
place db target = "Площадка: " ⧺ site_name db target ⧺ "\nОбъект: " ⧺ target.name ⧺ "\n"

unfoldable pub source_opening_notification :
    Store → MonitorTarget → Incident → Bool → IncidentNotification
source_opening_notification db target incident escalation = record {
  incident_id = incident.id;
  kind = EventKind.opened;
  notification = record {
    subject = "[Мониторинг Maxval] SNMP " ⧺ severity_label incident ⧺ ": " ⧺ target.name;
    body =
        opening_prefix escalation
        ⧺ " #"
        ⧺ decimal incident.id
        ⧺ ".\n\n"
        ⧺ place db target
        ⧺ "Уровень: "
        ⧺ severity_label incident
        ⧺ "\n"
        ⧺ or_text incident.last_message "Порог SNMP превышен"
        ⧺ "\n";
  };
}

unfoldable pub check_tls_notification :
    Store → MonitorTarget → Incident → Bool → IncidentNotification
check_tls_notification db target incident escalation = record {
  incident_id = incident.id;
  kind = EventKind.opened;
  notification = record {
    subject =
        "[Мониторинг Maxval] TLS "
        ⧺ severity_label incident
        ⧺ ": "
        ⧺ target.name
        ⧺ " · "
        ⧺ check_name db incident "HTTPS";
    body =
        opening_prefix escalation
        ⧺ " #"
        ⧺ decimal incident.id
        ⧺ ".\n\n"
        ⧺ place db target
        ⧺ "Проверка: "
        ⧺ check_name db incident "HTTPS"
        ⧺ "\n"
        ⧺ or_text incident.last_message "Срок сертификата требует внимания"
        ⧺ "\n";
  };
}
