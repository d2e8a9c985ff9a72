-- ===== src/Incidents/SourceMethods.antt =====
-- The effect of the methods that follow certificates and SNMP sources, and of the silent ones.
use monitoring_maxval.Base.{
  ℕ, Bool, true, none, some, [], ◌≡◌, refl, if◌then◌else◌, arith, Option, false,
}
use monitoring_maxval.Base.Text.{String}
use monitoring_maxval.Base.Rows.{newest, newest-In}
use monitoring_maxval.Model.{
  Store, MonitorTarget, TargetCheck, Incident, SourceKind, Severity, TlsHealth,
}
use monitoring_maxval.Tls.{TlsEvaluation, tls_reason}
use monitoring_maxval.Incidents.Attempts.{opening_notification, recovery_notification}
use monitoring_maxval.Incidents.Steps.{add_incident, change_incident}
use monitoring_maxval.Incidents.Checks.{
  check_of_target, resolve_target_check_silently, resolve_check_tls_silently,
}
use monitoring_maxval.Incidents.Sources.{
  source_of_target, closed_source, silent, source_step, set_source_state,
}
use monitoring_maxval.Incidents.Tls.{tls_step, apply_check_tls_health}
use monitoring_maxval.Incidents.Free.{tls_free, source_free}
use monitoring_maxval.Incidents.Accounts.{
  IsSound, opening-IsSound, recovery-IsSound, silent-IsSound,
}
use monitoring_maxval.Incidents.Effect.{
  Effect, worsen-IsSound, worsen_tls-IsSound, resolve-IsPlain, id-IsPlain,
}

-- The kind of an incident that the queries find.
check_tls_kind :
    (t c : ℕ) (i : Incident)
    → check_of_target t c SourceKind.check_tls i ≡ true
    → i.source_kind ≡ SourceKind.check_tls
check_tls_kind t c i h = ground arith

snmp_kind :
    (t : ℕ) (key : String) (i : Incident)
    → source_of_target t SourceKind.snmp key i ≡ true
    → i.source_kind ≡ SourceKind.snmp
snmp_kind t key i h = ground arith

module _ (now : ℕ) (db : Store) (target : MonitorTarget) where
  opens : (i : Incident) → IsSound (opening_notification now db target) i
  opens = opening-IsSound now db target (λ i. i) id-IsPlain

  tls_step-Effect :
      (check : TargetCheck) (message : String) (at : ℕ) (health : TlsHealth)
      (found : Option Incident)
      → newest Incident.id (check_of_target target.id check.id SourceKind.check_tls) db.incidents
        ≡ found
      → Effect db (tls_step now target check message at found health db)
  unfolding tls_step add_incident change_incident
  tls_step-Effect check message at TlsHealth.ok none e =
      Effect.unchanged refl (record { rows_lem = refl; next_lem = refl })
  tls_step-Effect check message at TlsHealth.ok (some i) e =
      Effect.changed _ i (newest-In Incident.id _ _ e).0
        (recovery-IsSound now db target _ (resolve-IsPlain at (λ _. some message)) i) refl
        (record { rows_lem = refl; next_lem = refl })
  tls_step-Effect check message at TlsHealth.warning none e =
      Effect.added (opening_notification now db target) _ refl (refl, refl)
        (tls_free db target.id check.id Severity.warning message at e) (opens _) refl
        (record { rows_lem = refl; next_lem = refl })
  tls_step-Effect check message at TlsHealth.critical none e =
      Effect.added (opening_notification now db target) _ refl (refl, refl)
        (tls_free db target.id check.id Severity.critical message at e) (opens _) refl
        (record { rows_lem = refl; next_lem = refl })
  tls_step-Effect check message at TlsHealth.warning (some i) e =
      let (stands, here) = newest-In Incident.id _ _ e in
      Effect.changed _ i stands
        (worsen_tls-IsSound db target Severity.warning message at i
          (check_tls_kind target.id check.id i here))
        refl (record { rows_lem = refl; next_lem = refl })
  tls_step-Effect check message at TlsHealth.critical (some i) e =
      let (stands, here) = newest-In Incident.id _ _ e in
      Effect.changed _ i stands
        (worsen_tls-IsSound db target Severity.critical message at i
          (check_tls_kind target.id check.id i here))
        refl (record { rows_lem = refl; next_lem = refl })

  pub apply_check_tls_health-Effect :
      (check : TargetCheck) (evaluation : TlsEvaluation) (at : ℕ)
      → Effect db (apply_check_tls_health now target check evaluation at db)
  unfolding apply_check_tls_health
  apply_check_tls_health-Effect check evaluation at =
      tls_step-Effect check (tls_reason evaluation) at evaluation.health _ refl

  closes :
      (at : ℕ) (message : String) (notify : Bool) (i : Incident)
      → IsSound
          (λ i.
            if notify
            then recovery_notification now db target (closed_source at message i)
            else silent (closed_source at message) i)
          i
  closes at message true i =
      recovery-IsSound now db target _ (resolve-IsPlain at (λ _. some message)) i
  closes at message false i =
      silent-IsSound now db target _ (resolve-IsPlain at (λ _. some message)) i

  announces :
      (notify : Bool) (i : Incident)
      → IsSound (λ i. if notify then opening_notification now db target i else (none, i)) i
  announces true i = opens i
  announces false i = silent-IsSound now db target (λ i. i) id-IsPlain i

  source_step-Effect :
      (key message : String) (at : ℕ) (notify : Bool) (severity : Option Severity)
      (found : Option Incident)
      → newest Incident.id (source_of_target target.id SourceKind.snmp key) db.incidents ≡ found
      → Effect db (source_step now target SourceKind.snmp key message at notify found severity db)
  unfolding source_step add_incident change_incident
  source_step-Effect key message at notify none none e =
      Effect.unchanged refl (record { rows_lem = refl; next_lem = refl })
  source_step-Effect key message at notify none (some i) e =
      Effect.changed _ i (newest-In Incident.id _ _ e).0 (closes at message notify i) refl
        (record { rows_lem = refl; next_lem = refl })
  source_step-Effect key message at notify (some severity) none e =
      Effect.added _ _ refl (refl, refl) (source_free db target.id key severity message at e)
        (announces notify _) refl (record { rows_lem = refl; next_lem = refl })
  source_step-Effect key message at notify (some severity) (some i) e =
      let (stands, here) = newest-In Incident.id _ _ e in
      Effect.changed _ i stands
        (worsen-IsSound db target severity message at notify i (snmp_kind target.id key i here))
        refl (record { rows_lem = refl; next_lem = refl })

  pub set_source_state-Effect :
      (key : String) (severity : Option Severity) (message : String) (at : ℕ) (notify : Bool)
      → Effect db (set_source_state now target SourceKind.snmp key severity message at notify db)
  unfolding set_source_state
  set_source_state-Effect key severity message at notify =
      source_step-Effect key message at notify severity _ refl

  pub resolve_target_check_silently-Effect :
      (check : TargetCheck) (message : String) (detach : Bool)
      → Effect db ([], resolve_target_check_silently now target check message detach db)
  unfolding resolve_target_check_silently
  resolve_target_check_silently-Effect check message detach =
      Effect.resolved _ now message detach refl (record { rows_lem = refl; next_lem = refl })

  pub resolve_check_tls_silently-Effect :
      (check : TargetCheck) (message : String)
      → Effect db ([], resolve_check_tls_silently now target check message db)
  unfolding resolve_check_tls_silently
  resolve_check_tls_silently-Effect check message =
      Effect.resolved _ now message false refl (record { rows_lem = refl; next_lem = refl })
