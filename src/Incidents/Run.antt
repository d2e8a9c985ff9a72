-- ===== src/Incidents/Run.antt =====
-- Sequences of calls of `IncidentService`, in any order and with any arguments, as the scheduler, the
-- SNMP service and the administration pages make them.
use monitoring_maxval.Base.{ℕ, ◌+◌, ◌≤◌, Bool, List, [], ◌∷◌, ◌++◌, ◌≡◌, arith, Option}
use monitoring_maxval.Base.Text.{String}
use monitoring_maxval.Base.Rows.{count, count_mono, count_or, has_key}
use monitoring_maxval.Model.{
  Store, MonitorTarget, TargetCheck, CheckResult, TargetCheckResult, Incident, SourceKind, Severity,
}
use monitoring_maxval.Tls.{TlsEvaluation}
use monitoring_maxval.Incidents.Notices.{IncidentNotification}
use monitoring_maxval.Incidents.Steps.{Outcome}
use monitoring_maxval.Incidents.Availability.{process_result}
use monitoring_maxval.Incidents.Checks.{
  process_target_check_result, resolve_target_check_silently, resolve_check_tls_silently,
}
use monitoring_maxval.Incidents.Sources.{set_source_state}
use monitoring_maxval.Incidents.Tls.{apply_check_tls_health}
use monitoring_maxval.Incidents.Slots.{IsWellFormed}
use monitoring_maxval.Incidents.Accounts.{
  recoveries, openings, has_recovery, has_opening, is_unannounced, can_escalate,
}
use monitoring_maxval.Incidents.Effect.{Effect}
use monitoring_maxval.Incidents.Methods.{process_result-Effect, process_target_check_result-Effect}
use monitoring_maxval.Incidents.SourceMethods.{
  apply_check_tls_health-Effect, set_source_state-Effect, resolve_target_check_silently-Effect,
  resolve_check_tls_silently-Effect,
}
use monitoring_maxval.Incidents.Invariant.{
  Effect-IsWellFormed, Effect-recoveries, Effect-openings, Effect-announced, Effect-can_escalate,
}

-- A call of a method with its arguments. Sources are SNMP sources, the only kind that the services pass.
pub data Call : Type 0 where
  primary_result : MonitorTarget → CheckResult → Call
  check_result : MonitorTarget → TargetCheck → TargetCheckResult → Call
  tls_health : MonitorTarget → TargetCheck → TlsEvaluation → ℕ → Call
  source_state : MonitorTarget → String → Option Severity → String → ℕ → Bool → Call
  resolve_check : MonitorTarget → TargetCheck → String → Bool → Call
  resolve_tls : MonitorTarget → TargetCheck → String → Call

-- One call at an instant.
unfoldable pub perform : ℕ → Call → Store → Outcome
perform now (Call.primary_result target result) db = process_result now target result db
perform now (Call.check_result target check result) db =
    process_target_check_result now target check result db
perform now (Call.tls_health target check evaluation at) db =
    apply_check_tls_health now target check evaluation at db
perform now (Call.source_state target key severity message at notify) db =
    set_source_state now target SourceKind.snmp key severity message at notify db
perform now (Call.resolve_check target check message detach) db =
    ([], resolve_target_check_silently now target check message detach db)
perform now (Call.resolve_tls target check message) db =
    ([], resolve_check_tls_silently now target check message db)

-- All the calls, each at its instant, and all the notifications.
unfoldable pub run : List (ℕ × Call) → Store → Outcome
run [] db = ([], db)
run ((now, call) ∷ calls) db =
    let (events, db') = perform now call db in
    let (later, db'') = run calls db' in (events ++ later, db'')

perform-Effect : (now : ℕ) (call : Call) (db : Store) → Effect db (perform now call db)
unfolding perform
perform-Effect now (Call.primary_result target result) db =
    process_result-Effect now db target result
perform-Effect now (Call.check_result target check result) db =
    process_target_check_result-Effect now db target check result
perform-Effect now (Call.tls_health target check evaluation at) db =
    apply_check_tls_health-Effect now db target check evaluation at
perform-Effect now (Call.source_state target key severity message at notify) db =
    set_source_state-Effect now db target key severity message at notify
perform-Effect now (Call.resolve_check target check message detach) db =
    resolve_target_check_silently-Effect now db target check message detach
perform-Effect now (Call.resolve_tls target check message) db =
    resolve_check_tls_silently-Effect now db target check message

-- Whatever calls of the service are made, in whatever order, starting from a store where no primary
-- key of an incident stands twice and every slot (the availability of a target, an additional check
-- of it, the certificate of such a check, an SNMP source of a target) has at most one open incident:
-- afterwards both hold again.
pub run-IsWellFormed :
    (calls : List (ℕ × Call)) (db : Store) → IsWellFormed db → IsWellFormed (run calls db).1
unfolding run
run-IsWellFormed [] db h = h
run-IsWellFormed ((now, call) ∷ calls) db h =
    run-IsWellFormed calls (perform now call db).1
      (Effect-IsWellFormed (perform-Effect now call db) h)

recoveries-append :
    (j : ℕ) (xs ys : List IncidentNotification)
    → recoveries j (xs ++ ys) ≡ recoveries j xs + recoveries j ys
recoveries-append j [] ys = omega arith
recoveries-append j (x ∷ xs) ys = omega (arith, recoveries-append j xs ys)

openings-append :
    (j : ℕ) (xs ys : List IncidentNotification)
    → openings j (xs ++ ys) ≡ openings j xs + openings j ys
openings-append j [] ys = omega arith
openings-append j (x ∷ xs) ys = omega (arith, openings-append j xs ys)

run-recoveries :
    (j : ℕ) (calls : List (ℕ × Call)) (db : Store)
    → IsWellFormed db
    → recoveries j (run calls db).0 + count (has_recovery j) db.incidents
      ≡ count (has_recovery j) (run calls db).1.incidents
unfolding run
run-recoveries j [] db h = omega arith
run-recoveries j ((now, call) ∷ calls) db h = omega (
  arith,
  recoveries-append j (perform now call db).0 (run calls (perform now call db).1).0,
  Effect-recoveries j (perform-Effect now call db) h,
  run-recoveries j calls (perform now call db).1
      (Effect-IsWellFormed (perform-Effect now call db) h),
)

run-can_escalate :
    (j : ℕ) (calls : List (ℕ × Call)) (db : Store)
    → count (can_escalate j) db.incidents ≤ count (can_escalate j) (run calls db).1.incidents
unfolding run
run-can_escalate j [] db = omega arith
run-can_escalate j ((now, call) ∷ calls) db = omega (
  arith,
  Effect-can_escalate j (perform-Effect now call db),
  run-can_escalate j calls (perform now call db).1,
)

run-openings :
    (j : ℕ) (calls : List (ℕ × Call)) (db : Store)
    → IsWellFormed db
    → count (can_escalate j) (run calls db).1.incidents ≡ 0
    → openings j (run calls db).0 + count (has_opening j) db.incidents
      ≡ count (has_opening j) (run calls db).1.incidents
unfolding run
run-openings j [] db h z = omega arith
run-openings j ((now, call) ∷ calls) db h z =
    let db' = (perform now call db).1 in
    omega (
      arith,
      openings-append j (perform now call db).0 (run calls db').0,
      Effect-openings j (perform-Effect now call db) h
          (omega (arith, run-can_escalate j calls db')),
      run-openings j calls db' (Effect-IsWellFormed (perform-Effect now call db) h) z,
    )

run-announced :
    (calls : List (ℕ × Call)) (db : Store)
    → IsWellFormed db
    → count is_unannounced db.incidents ≡ 0
    → count is_unannounced (run calls db).1.incidents ≡ 0
unfolding run
run-announced [] db h z = z
run-announced ((now, call) ∷ calls) db h z =
    run-announced calls (perform now call db).1 (Effect-IsWellFormed (perform-Effect now call db) h)
      (Effect-announced (perform-Effect now call db) h z)

-- Over any sequence of calls, from a store with unique primary keys of incidents and at most one open
-- incident in every slot, at most one recovery notification is sent for an incident, and none if the
-- attempt of one was marked in the incident before.
pub recoveries-run_le_one :
    (j : ℕ) (calls : List (ℕ × Call)) (db : Store)
    → IsWellFormed db
    → recoveries j (run calls db).0 + count (has_recovery j) db.incidents ≤ 1
recoveries-run_le_one j calls db h = omega (
  arith,
  run-recoveries j calls db h,
  (run-IsWellFormed calls db h).keys.once j,
  count_mono (has_recovery j) (has_key Incident.id j) (run calls db).1.incidents
      (λ i e. ground arith),
)

-- Over any sequence of calls, from a store with unique primary keys of incidents and at most one open
-- incident in every slot, at most one opening notification is sent for an incident that is not, when
-- the sequence ends, one of a certificate or an SNMP source, and none if the attempt of one was marked
-- in the incident before.
pub openings-run_le_one :
    (j : ℕ) (calls : List (ℕ × Call)) (db : Store)
    → IsWellFormed db
    → count (can_escalate j) (run calls db).1.incidents ≡ 0
    → openings j (run calls db).0 + count (has_opening j) db.incidents ≤ 1
openings-run_le_one j calls db h z = omega (
  arith,
  run-openings j calls db h z,
  (run-IsWellFormed calls db h).keys.once j,
  count_mono (has_opening j) (has_key Incident.id j) (run calls db).1.incidents
      (λ i e. ground arith),
)

-- Over any sequence of calls, from a store with unique primary keys of incidents, at most one open
-- incident in every slot and no recovery attempted without an opening, a recovery notification is sent
-- for an incident that is not, when the sequence ends, one of a certificate or an SNMP source, only if
-- its opening notification was marked as attempted before the sequence or is sent in it.
pub recoveries-run_announced :
    (j : ℕ) (calls : List (ℕ × Call)) (db : Store)
    → IsWellFormed db
    → count is_unannounced db.incidents ≡ 0
    → count (can_escalate j) (run calls db).1.incidents ≡ 0
    → recoveries j (run calls db).0
      ≤ openings j (run calls db).0 + count (has_opening j) db.incidents
recoveries-run_announced j calls db h u z = omega (
  arith,
  run-recoveries j calls db h,
  run-openings j calls db h z,
  run-announced calls db h u,
  count_or (has_recovery j) (has_opening j) is_unannounced (run calls db).1.incidents
      (λ i e. ground arith),
)
