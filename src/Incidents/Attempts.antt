-- ===== src/Incidents/Attempts.antt =====
-- `_opening_notification` and `_recovery_notification`: at most one attempt each, remembered in a
-- column of the incident.
use monitoring_maxval.Base.{ℕ, ◌||◌, none, some, if◌then◌else◌, is_some, not, Option, false}
use monitoring_maxval.Base.Text.{String, ◌⧺◌, decimal, decimal_ℤ, or_text}
use monitoring_maxval.Incidents.Notices.{
  EventKind, IncidentNotification, check_name, place, source_opening_notification,
  check_tls_notification,
}
use monitoring_maxval.Model.{Store, MonitorTarget, Incident, SourceKind}

abbrev failures : Incident → String
failures incident = "Неудачных проверок подряд: " ⧺ decimal_ℤ incident.failure_count ⧺ "\n"

abbrev total_failures : Incident → String
total_failures incident = "Всего неудачных проверок: " ⧺ decimal_ℤ incident.failure_count ⧺ "\n"

abbrev last_error : Incident → String
last_error incident = "Последняя ошибка: " ⧺ or_text incident.last_message "без сообщения" ⧺ "\n"

abbrev host_port : MonitorTarget → String
host_port target = "Адрес: " ⧺ target.address ⧺ ":" ⧺ decimal target.port ⧺ "\n"

-- What an opening notification says, by the kind of the incident.
unfoldable pub opening_notice : Store → MonitorTarget → Incident → SourceKind → IncidentNotification
unfolding source_opening_notification check_tls_notification
opening_notice db target incident SourceKind.snmp =
    source_opening_notification db target incident false
opening_notice db target incident SourceKind.check_tls =
    check_tls_notification db target incident false
opening_notice db target incident SourceKind.check =
    let check = check_name db incident "Дополнительная проверка" in
    record {
      incident_id = incident.id;
      kind = EventKind.opened;
      notification = record {
        subject = "[Мониторинг Maxval] Сервис недоступен: " ⧺ target.name ⧺ " · " ⧺ check;
        body =
            "Открыт инцидент #"
            ⧺ decimal incident.id
            ⧺ ".\n\n"
            ⧺ place db target
            ⧺ "Проверка: "
            ⧺ check
            ⧺ "\n"
            ⧺ failures incident
            ⧺ last_error incident;
      };
    }
opening_notice db target incident SourceKind.availability = record {
  incident_id = incident.id;
  kind = EventKind.opened;
  notification = record {
    subject = "[Мониторинг Maxval] Недоступен: " ⧺ target.name;
    body =
        "Открыт инцидент #"
        ⧺ decimal incident.id
        ⧺ ".\n\n"
        ⧺ place db target
        ⧺ host_port target
        ⧺ failures incident
        ⧺ last_error incident;
  };
}

-- What a recovery notification says, by the kind of the incident.
unfoldable pub recovery_notice :
    Store → MonitorTarget → Incident → SourceKind → IncidentNotification
recovery_notice db target incident SourceKind.snmp = record {
  incident_id = incident.id;
  kind = EventKind.recovered;
  notification = record {
    subject = "[Мониторинг Maxval] SNMP в норме: " ⧺ target.name;
    body =
        "SNMP-инцидент #"
        ⧺ decimal incident.id
        ⧺ " закрыт.\n\n"
        ⧺ place db target
        ⧺ or_text incident.last_message "Значение вернулось в норму"
        ⧺ "\n";
  };
}
recovery_notice db target incident SourceKind.check_tls =
    let check = check_name db incident "HTTPS" in
    record {
      incident_id = incident.id;
      kind = EventKind.recovered;
      notification = record {
        subject = "[Мониторинг Maxval] TLS в норме: " ⧺ target.name ⧺ " · " ⧺ check;
        body =
            "TLS-инцидент #"
            ⧺ decimal incident.id
            ⧺ " закрыт.\n\n"
            ⧺ place db target
            ⧺ "Проверка: "
            ⧺ check
            ⧺ "\n"
            ⧺ or_text incident.last_message "Срок сертификата снова в норме"
            ⧺ "\n";
      };
    }
recovery_notice db target incident SourceKind.check =
    let check = check_name db incident "Дополнительная проверка" in
    record {
      incident_id = incident.id;
      kind = EventKind.recovered;
      notification = record {
        subject = "[Мониторинг Maxval] Сервис восстановлен: " ⧺ target.name ⧺ " · " ⧺ check;
        body =
            "Инцидент #"
            ⧺ decimal incident.id
            ⧺ " закрыт.\n\n"
            ⧺ place db target
            ⧺ "Проверка: "
            ⧺ check
            ⧺ "\n"
            ⧺ total_failures incident;
      };
    }
recovery_notice db target incident SourceKind.availability = record {
  incident_id = incident.id;
  kind = EventKind.recovered;
  notification = record {
    subject = "[Мониторинг Maxval] Восстановлен: " ⧺ target.name;
    body =
        "Инцидент #"
        ⧺ decimal incident.id
        ⧺ " закрыт.\n\n"
        ⧺ place db target
        ⧺ host_port target
        ⧺ total_failures incident;
  };
}

-- The notification to send, if any, and the incident with the attempt remembered.
abbrev pub Notified : Type 0
Notified = Option IncidentNotification × Incident

unfoldable pub opening_notification : ℕ → Store → MonitorTarget → Incident → Notified
opening_notification now db target incident =
    if target.notifications_suppressed || is_some incident.open_notification_attempted_at
    then (none, incident)
    else (
      some (opening_notice db target incident incident.source_kind),
      record incident { open_notification_attempted_at = some now },
    )

unfoldable pub recovery_notification : ℕ → Store → MonitorTarget → Incident → Notified
recovery_notification now db target incident =
    if target.notifications_suppressed
      || not (is_some incident.open_notification_attempted_at)
      || is_some incident.recovery_notification_attempted_at
    then (none, incident)
    else (
      some (recovery_notice db target incident incident.source_kind),
      record incident { recovery_notification_attempted_at = some now },
    )
