-- ===== src/Incidents/Methods.antt =====
-- The effect of each method of `IncidentService` on the incidents.
use monitoring_maxval.Base.{ℕ, none, some, List, [], ◌≡◌, refl, inl, inr, arith, Bool-cases, Option}
use monitoring_maxval.Base.Rows.{newest, newest-In}
use monitoring_maxval.Model.{
  Store, MonitorTarget, TargetCheck, UnstableLink, CheckResult, CheckStatus, TargetCheckResult,
  Incident, SourceKind,
}
use monitoring_maxval.Incidents.Notices.{IncidentNotification}
use monitoring_maxval.Incidents.Attempts.{opening_notification}
use monitoring_maxval.Incidents.Steps.{
  Outcome, add_incident, change_incident, fail_again, resolve, confirmed_failure,
  confirmed_check_failure,
}
use monitoring_maxval.Incidents.Availability.{
  availability_of, availability_row, mark_target, process_down, process_up, process_result,
}
use monitoring_maxval.Incidents.Checks.{
  check_of_target, check_row, check_message, mark_check, process_check_down, process_check_up,
  process_target_check_result,
}
use monitoring_maxval.Incidents.Free.{availability_free, check_free}
use monitoring_maxval.Incidents.Accounts.{IsSound, opening-IsSound, recovery-IsSound}
use monitoring_maxval.Incidents.Effect.{
  Effect, Leaves, fail_again-IsPlain, resolve-IsPlain, id-IsPlain,
}

mark_check_lem :
    (c : TargetCheck) (mark : UnstableLink → UnstableLink) (db : Store)
    → ((mark_check c mark db).incidents ≡ db.incidents)
      × ((mark_check c mark db).next_incident ≡ db.next_incident)
unfolding mark_check
mark_check_lem c mark db = ground arith

marked_check-Leaves :
    (c : TargetCheck) (mark : UnstableLink → UnstableLink) (events : List IncidentNotification)
    (db : Store)
    → Leaves db.incidents db.next_incident (events, mark_check c mark db)
marked_check-Leaves c mark events db = record {
  rows_lem = (mark_check_lem c mark db).0;
  next_lem = (mark_check_lem c mark db).1;
}

module _ (now : ℕ) (db : Store) (target : MonitorTarget) where
  opens : (i : Incident) → IsSound (opening_notification now db target) i
  opens = opening-IsSound now db target (λ i. i) id-IsPlain

  process_down-Effect :
      (result : CheckResult) (found : Option Incident)
      → newest Incident.id (availability_of target.id) db.incidents ≡ found
      → Effect db (process_down now target result found db)
  unfolding process_down mark_target add_incident change_incident
  process_down-Effect result none e = elim (Bool-cases (confirmed_failure db target.id)) [
    | inl c ↦ rw c (
        Effect.added (opening_notification now db target) (availability_row db target.id result)
          refl (refl, refl) (availability_free db target.id result e) (opens _) refl
          (record { rows_lem = refl; next_lem = refl }))
    | inr c ↦ rw c (Effect.unchanged refl (record { rows_lem = refl; next_lem = refl }))
  ]
  process_down-Effect result (some i) e =
      Effect.changed _ i (newest-In Incident.id _ _ e).0
        (opening-IsSound now db target (fail_again result.checked_at result.message)
          (fail_again-IsPlain _ _) i)
        refl (record { rows_lem = refl; next_lem = refl })

  process_up-Effect :
      (result : CheckResult) (found : Option Incident)
      → newest Incident.id (availability_of target.id) db.incidents ≡ found
      → Effect db (process_up now target result found db)
  unfolding process_up mark_target change_incident
  process_up-Effect result none e =
      Effect.unchanged refl (record { rows_lem = refl; next_lem = refl })
  process_up-Effect result (some i) e =
      Effect.changed _ i (newest-In Incident.id _ _ e).0
        (recovery-IsSound now db target (resolve result.checked_at)
          (resolve-IsPlain _ (λ r. r.last_message)) i)
        refl (record { rows_lem = refl; next_lem = refl })

  pub process_result-Effect :
      (result : CheckResult) → Effect db (process_result now target result db)
  unfolding process_result
  process_result-Effect result =
      elim (result.status)
        as (λ s. Effect db (elim s as (λ _. Outcome) [
          | CheckStatus.up ↦
              process_up now target result
                (newest Incident.id (availability_of target.id) db.incidents) db
          | CheckStatus.down ↦
              process_down now target result
                (newest Incident.id (availability_of target.id) db.incidents) db
          | CheckStatus.unknown ↦ ([], db)
        ])) [
          | CheckStatus.down ↦ process_down-Effect result _ refl
          | CheckStatus.up ↦ process_up-Effect result _ refl
          | CheckStatus.unknown ↦
              Effect.unchanged refl (record { rows_lem = refl; next_lem = refl })
        ]

  process_check_down-Effect :
      (check : TargetCheck) (result : TargetCheckResult) (found : Option Incident)
      → newest Incident.id (check_of_target target.id check.id SourceKind.check) db.incidents
        ≡ found
      → Effect db (process_check_down now target check result found db)
  unfolding process_check_down add_incident change_incident
  process_check_down-Effect check result none e =
      elim (Bool-cases (confirmed_check_failure db check.id result.config_version)) [
        | inl c ↦ rw c (
            Effect.added (opening_notification now db target)
              (check_row db target.id check.id result (check_message target check result.message))
              refl (refl, refl) (check_free db target.id check.id result _ e) (opens _) refl
              (marked_check-Leaves check _ _ _))
        | inr c ↦ rw c (Effect.unchanged refl (marked_check-Leaves check _ _ db))
      ]
  process_check_down-Effect check result (some i) e =
      Effect.changed _ i (newest-In Incident.id _ _ e).0
        (opening-IsSound now db target
          (fail_again result.checked_at (some (check_message target check result.message)))
          (fail_again-IsPlain _ _) i)
        refl (marked_check-Leaves check _ _ _)

  process_check_up-Effect :
      (check : TargetCheck) (result : TargetCheckResult) (found : Option Incident)
      → newest Incident.id (check_of_target target.id check.id SourceKind.check) db.incidents
        ≡ found
      → Effect db (process_check_up now target check result found db)
  unfolding process_check_up change_incident
  process_check_up-Effect check result none e =
      Effect.unchanged refl (marked_check-Leaves check _ _ db)
  process_check_up-Effect check result (some i) e =
      Effect.changed _ i (newest-In Incident.id _ _ e).0
        (recovery-IsSound now db target _
          (resolve-IsPlain result.checked_at
            (λ _. some (check_message target check (some "проверка снова успешна"))))
          i)
        refl (marked_check-Leaves check _ _ _)

  pub process_target_check_result-Effect :
      (check : TargetCheck) (result : TargetCheckResult)
      → Effect db (process_target_check_result now target check result db)
  unfolding process_target_check_result
  process_target_check_result-Effect check result = elim (Bool-cases (check.is_primary)) [
    | inl p ↦ rw p (Effect.unchanged refl (record { rows_lem = refl; next_lem = refl }))
    | inr p ↦
        rw p
          (elim (result.status)
            as (λ s. Effect db (elim s as (λ _. Outcome) [
              | CheckStatus.up ↦
                  process_check_up now target check result
                    (newest Incident.id (check_of_target target.id check.id SourceKind.check)
                      db.incidents)
                    db
              | CheckStatus.down ↦
                  process_check_down now target check result
                    (newest Incident.id (check_of_target target.id check.id SourceKind.check)
                      db.incidents)
                    db
              | CheckStatus.unknown ↦ ([], db)
            ])) [
              | CheckStatus.down ↦ process_check_down-Effect check result _ refl
              | CheckStatus.up ↦ process_check_up-Effect check result _ refl
              | CheckStatus.unknown ↦
                  Effect.unchanged refl (record { rows_lem = refl; next_lem = refl })
            ])
  ]
