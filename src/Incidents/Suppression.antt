-- ===== src/Incidents/Suppression.antt =====
-- A target whose notifications are suppressed sends none, whatever happens to its incidents.
use monitoring_maxval.Base.{
  ℕ, Bool, true, false, Option, none, some, List, [], ◌∷◌, ◌≡◌, refl, ap, Bool-cases, inl, inr,
  arith,
}
use monitoring_maxval.Base.Text.{String}
use monitoring_maxval.Model.{
  Store, MonitorTarget, TargetCheck, CheckResult, TargetCheckResult, Incident, SourceKind, Severity,
  CheckStatus, TlsHealth,
}
use monitoring_maxval.Incidents.Attempts.{opening_notification, recovery_notification}
use monitoring_maxval.Incidents.Steps.{
  to_events, add_incident, change_incident, confirmed_failure, confirmed_check_failure,
}
use monitoring_maxval.Incidents.Availability.{process_result, process_down, process_up}
use monitoring_maxval.Incidents.Checks.{
  process_target_check_result, process_check_down, process_check_up,
}
use monitoring_maxval.Incidents.Sources.{set_source_state, source_step, worsen}
use monitoring_maxval.Incidents.Tls.{apply_check_tls_health, tls_step, worsen_tls}
use monitoring_maxval.Incidents.Run.{Call, perform, run}

module _ (now : ℕ) (db : Store) (target : MonitorTarget)
    (s : target.notifications_suppressed ≡ true) where
  opening_silent : (i : Incident) → (opening_notification now db target i).0 ≡ none
  unfolding opening_notification
  opening_silent i = rw s refl

  recovery_silent : (i : Incident) → (recovery_notification now db target i).0 ≡ none
  unfolding recovery_notification
  recovery_silent i = rw s refl

  process_down_silent :
      (result : CheckResult) (found : Option Incident)
      → (process_down now target result found db).0 ≡ []
  unfolding process_down add_incident change_incident
  process_down_silent result none = elim (Bool-cases (confirmed_failure db target.id)) [
    | inl c ↦ rw c (ap to_events (opening_silent _))
    | inr c ↦ rw c refl
  ]
  process_down_silent result (some i) = ap to_events (opening_silent _)

  process_up_silent :
      (result : CheckResult) (found : Option Incident)
      → (process_up now target result found db).0 ≡ []
  unfolding process_up change_incident
  process_up_silent result none = refl
  process_up_silent result (some i) = ap to_events (recovery_silent _)

  process_check_down_silent :
      (check : TargetCheck) (result : TargetCheckResult) (found : Option Incident)
      → (process_check_down now target check result found db).0 ≡ []
  unfolding process_check_down add_incident change_incident
  process_check_down_silent check result none =
      elim (Bool-cases (confirmed_check_failure db check.id result.config_version)) [
        | inl c ↦ rw c (ap to_events (opening_silent _))
        | inr c ↦ rw c refl
      ]
  process_check_down_silent check result (some i) = ap to_events (opening_silent _)

  process_check_up_silent :
      (check : TargetCheck) (result : TargetCheckResult) (found : Option Incident)
      → (process_check_up now target check result found db).0 ≡ []
  unfolding process_check_up change_incident
  process_check_up_silent check result none = refl
  process_check_up_silent check result (some i) = ap to_events (recovery_silent _)

  tls_step_silent :
      (check : TargetCheck) (message : String) (at : ℕ) (found : Option Incident)
      (health : TlsHealth)
      → (tls_step now target check message at found health db).0 ≡ []
  unfolding tls_step worsen_tls add_incident change_incident
  tls_step_silent check message at none TlsHealth.ok = refl
  tls_step_silent check message at (some i) TlsHealth.ok = ap to_events (recovery_silent _)
  tls_step_silent check message at none TlsHealth.warning = ap to_events (opening_silent _)
  tls_step_silent check message at none TlsHealth.critical = ap to_events (opening_silent _)
  tls_step_silent check message at (some i) TlsHealth.warning = ground (arith, s)
  tls_step_silent check message at (some i) TlsHealth.critical = ground (arith, s)

  source_step_silent :
      (kind : SourceKind) (key message : String) (at : ℕ) (notify : Bool) (found : Option Incident)
      (severity : Option Severity)
      → (source_step now target kind key message at notify found severity db).0 ≡ []
  unfolding source_step worsen add_incident change_incident
  source_step_silent kind key message at notify none none = refl
  source_step_silent kind key message at true (some i) none = ap to_events (recovery_silent _)
  source_step_silent kind key message at false (some i) none = refl
  source_step_silent kind key message at true none (some v) = ap to_events (opening_silent _)
  source_step_silent kind key message at false none (some v) = refl
  source_step_silent kind key message at notify (some i) (some v) = ground (arith, s)

-- The target of a call.
unfoldable pub target_of : Call → MonitorTarget
target_of (Call.primary_result target result) = target
target_of (Call.check_result target check result) = target
target_of (Call.tls_health target check evaluation at) = target
target_of (Call.source_state target key severity message at notify) = target
target_of (Call.resolve_check target check message detach) = target
target_of (Call.resolve_tls target check message) = target

-- Every call is about a target whose notifications are suppressed.
abbrev pub AreSuppressed : List (ℕ × Call) → Type 0
AreSuppressed [] = Unit
AreSuppressed ((now, call) ∷ calls) =
    ((target_of call).notifications_suppressed ≡ true) × AreSuppressed calls

process_result_silent :
    (now : ℕ) (target : MonitorTarget) (result : CheckResult) (db : Store) (status : CheckStatus)
    → target.notifications_suppressed ≡ true
    → (process_result now target (record result { status = status }) db).0 ≡ []
unfolding process_result
process_result_silent now target result db CheckStatus.up s =
    process_up_silent now db target s (record result { status = CheckStatus.up }) _
process_result_silent now target result db CheckStatus.down s =
    process_down_silent now db target s (record result { status = CheckStatus.down }) _
process_result_silent now target result db CheckStatus.unknown s = refl

process_target_check_result_silent :
    (now : ℕ) (target : MonitorTarget) (check : TargetCheck) (result : TargetCheckResult)
    (db : Store) (status : CheckStatus) (primary : Bool)
    → check.is_primary ≡ primary
    → target.notifications_suppressed ≡ true
    → (process_target_check_result now target check (record result { status = status }) db).0 ≡ []
unfolding process_target_check_result
process_target_check_result_silent now target check result db status true p s = rw p refl
process_target_check_result_silent now target check result db CheckStatus.up false p s = rw p (
    process_check_up_silent now db target s (record check { is_primary = false })
      (record result { status = CheckStatus.up }) _)
process_target_check_result_silent now target check result db CheckStatus.down false p s = rw p (
    process_check_down_silent now db target s (record check { is_primary = false })
      (record result { status = CheckStatus.down }) _)
process_target_check_result_silent now target check result db CheckStatus.unknown false p s =
    rw p refl

perform_silent :
    (now : ℕ) (call : Call) (db : Store)
    → (target_of call).notifications_suppressed ≡ true
    → (perform now call db).0 ≡ []
unfolding perform target_of apply_check_tls_health set_source_state
perform_silent now (Call.primary_result target result) db s =
    process_result_silent now target result db result.status s
perform_silent now (Call.check_result target check result) db s =
    process_target_check_result_silent now target check result db result.status check.is_primary
      refl s
perform_silent now (Call.tls_health target check evaluation at) db s =
    tls_step_silent now db target s check _ at _ evaluation.health
perform_silent now (Call.source_state target key severity message at notify) db s =
    source_step_silent now db target s SourceKind.snmp key message at notify _ severity
perform_silent now (Call.resolve_check target check message detach) db s = refl
perform_silent now (Call.resolve_tls target check message) db s = refl

-- If every call of a sequence is about a target whose notifications are suppressed, then no
-- notification is sent.
pub run_silent :
    (calls : List (ℕ × Call)) (db : Store) → AreSuppressed calls → (run calls db).0 ≡ []
unfolding run
run_silent [] db h = refl
run_silent ((now, call) ∷ calls) db h =
    rw (perform_silent now call db h.0) (run_silent calls (perform now call db).1 h.1)
