-- ===== src/Incidents/Steps.antt =====
-- What the methods of `IncidentService` have in common: adding an incident, changing the loaded one,
-- and the test that the latest results confirm an outage.
use monitoring_maxval.Base.{
  ℕ, ◌+◌, Bool, ◌&&◌, ◌||◌, none, some, List, [], ◌∷◌, map, ◌==◌, ltb, length, take, all, keep,
  Option,
}
use monitoring_maxval.Base.Int.{pos, ◌+ℤ◌}
use monitoring_maxval.Base.Text.{String}
use monitoring_maxval.Base.Rows.{insert, update}
use monitoring_maxval.Base.Sort.{sort}
use monitoring_maxval.Model.{
  Store, Incident, IncidentStatus, CheckResult, TargetCheckResult, CheckStatus, is_down,
}
use monitoring_maxval.Incidents.Notices.{IncidentNotification}
use monitoring_maxval.Incidents.Attempts.{Notified}
use monitoring_maxval.Incidents.Settings.{failure_threshold}

abbrev pub Outcome : Type 0
Outcome = List IncidentNotification × Store

-- `if event is not None: events.append(event)`, on an empty list
abbrev pub to_events : Option IncidentNotification → List IncidentNotification
to_events none = []
to_events (some event) = event ∷ []

-- `session.add(incident); session.flush()` and what is done to the new row after that.
unfoldable pub add_incident : (Incident → Notified) → Incident → Store → Outcome
add_incident act row db = (
  to_events (act row).0,
  record db { incidents = insert (act row).1 db.incidents; next_incident = db.next_incident + 1 },
)

-- What is done to a loaded incident.
unfoldable pub change_incident : (Incident → Notified) → Incident → Store → Outcome
change_incident act row db = (
  to_events (act row).0,
  record db { incidents = update Incident.id row.id (λ r. (act r).1) db.incidents },
)

abbrev pub fail_again : ℕ → Option String → Incident → Incident
fail_again at message row = record row {
  failure_count = row.failure_count +ℤ pos 1;
  last_failure_at = at;
  last_message = message;
}

abbrev pub resolve : ℕ → Incident → Incident
resolve at row = record row { status = IncidentStatus.resolved; resolved_at = some at }

-- `ORDER BY checked_at DESC, id DESC`
abbrev pub later_result : CheckResult → CheckResult → Bool
later_result a b =
    ltb b.checked_at a.checked_at || ((a.checked_at == b.checked_at) && ltb b.id a.id)

abbrev pub later_check_result : TargetCheckResult → TargetCheckResult → Bool
later_check_result a b =
    ltb b.checked_at a.checked_at || ((a.checked_at == b.checked_at) && ltb b.id a.id)

-- The latest `threshold` statuses are that many, and all are DOWN.
unfoldable pub all_down : ℕ → List CheckStatus → Bool
all_down threshold statuses =
    let latest = take threshold statuses in length latest == threshold && all is_down latest

-- The statuses of the results of a target, the latest first.
unfoldable pub target_history : Store → ℕ → List CheckStatus
target_history db target_id =
    map CheckResult.status
      (sort later_result (keep (λ r. CheckResult.target_id r == target_id) db.results))

unfoldable pub check_history : Store → ℕ → ℕ → List CheckStatus
check_history db check_id config_version = map TargetCheckResult.status (
    sort later_check_result (
      keep
        (λ r.
          (TargetCheckResult.check_id r == check_id)
          && (TargetCheckResult.config_version r == config_version))
        db.check_results))

unfoldable pub confirmed_failure : Store → ℕ → Bool
confirmed_failure db target_id =
    all_down (failure_threshold db.settings) (target_history db target_id)

unfoldable pub confirmed_check_failure : Store → ℕ → ℕ → Bool
confirmed_check_failure db check_id config_version =
    all_down (failure_threshold db.settings) (check_history db check_id config_version)
