-- ===== src/Tests/Incidents.antt =====
-- Calls of the incident service: an outage of a target that ends.
use monitoring_maxval.Incidents.Attempts.{
  opening_notification, recovery_notification, opening_notice, recovery_notice,
}
use monitoring_maxval.Base.Sort.{sort, place}
use monitoring_maxval.Base.Text.{py_int}
use monitoring_maxval.Base.Int.{clamp}
use monitoring_maxval.Incidents.Settings.{failure_threshold, integer_setting}
use monitoring_maxval.Base.{ℕ, List, [], ◌∷◌, ◌+◌, ◌≤◌, ◌≡◌, refl, true}
use monitoring_maxval.Base.Rows.{count, newest, insert, update}
use monitoring_maxval.Model.{MonitorTarget, CheckStatus}
use monitoring_maxval.Incidents.Steps.{
  all_down, confirmed_failure, target_history, add_incident, change_incident,
}
use monitoring_maxval.Incidents.Availability.{process_result, process_down, process_up}
use monitoring_maxval.Incidents.Slots.{IsWellFormed}
use monitoring_maxval.Incidents.Accounts.{
  recoveries, openings, has_recovery, has_opening, can_escalate, is_unannounced,
}
use monitoring_maxval.Incidents.Run.{
  Call, run, perform, run-IsWellFormed, recoveries-run_le_one, openings-run_le_one,
  recoveries-run_announced,
}
use monitoring_maxval.Incidents.Suppression.{run_silent, target_of}
use monitoring_maxval.Tests.Sample.{router, result, failing, failing-IsWellFormed}

-- One DOWN and one UP.
abbrev outage : List (ℕ × Call)
outage =
    (10, Call.primary_result router (result 10 CheckStatus.down))
    ∷ (20, Call.primary_result router (result 20 CheckStatus.up))
    ∷ []

outage-IsWellFormed : IsWellFormed (run outage failing).1
outage-IsWellFormed = run-IsWellFormed outage failing failing-IsWellFormed

outage_recovers_once :
    recoveries 1 (run outage failing).0 + count (has_recovery 1) failing.incidents ≤ 1
outage_recovers_once = recoveries-run_le_one 1 outage failing failing-IsWellFormed

no_escalation : count (can_escalate 1) (run outage failing).1.incidents ≡ 0
unfolding count run perform process_result process_down process_up confirmed_failure all_down newest
    failure_threshold clamp integer_setting py_int target_history sort place add_incident insert
    opening_notification change_incident update recovery_notification
no_escalation = refl

outage_opens_once : openings 1 (run outage failing).0 + count (has_opening 1) failing.incidents ≤ 1
outage_opens_once = openings-run_le_one 1 outage failing failing-IsWellFormed no_escalation

none_yet : count is_unannounced failing.incidents ≡ 0
unfolding count
none_yet = refl

outage_is_announced :
    recoveries 1 (run outage failing).0
    ≤ openings 1 (run outage failing).0 + count (has_opening 1) failing.incidents
outage_is_announced =
    recoveries-run_announced 1 outage failing failing-IsWellFormed none_yet no_escalation

-- Both notifications are sent: the bounds are reached.
outage_notifies :
    (openings 1 (run outage failing).0 ≡ 1) × (recoveries 1 (run outage failing).0 ≡ 1)
unfolding run perform process_result process_down process_up confirmed_failure all_down newest
    failure_threshold clamp integer_setting py_int target_history sort place add_incident
    opening_notification opening_notice insert change_incident recovery_notification recovery_notice
outage_notifies = (refl, refl)

abbrev muted_router : MonitorTarget
muted_router = record router { notifications_suppressed = true }

abbrev muted_outage : List (ℕ × Call)
muted_outage =
    (10, Call.primary_result muted_router (result 10 CheckStatus.down))
    ∷ (20, Call.primary_result muted_router (result 20 CheckStatus.up))
    ∷ []

muted_outage_sends_nothing : (run muted_outage failing).0 ≡ []
unfolding target_of
muted_outage_sends_nothing = run_silent muted_outage failing (refl, (refl, tt))
