-- ===== src/Monitoring/Open.antt =====
-- The open incidents of a target after a result, and what the incident service leaves alone.
use monitoring_maxval.Base.{ℕ, Bool, ◌||◌, none, some, [], ◌≡◌, refl, arith, bit, Option}
use monitoring_maxval.Base.Rows.{
  count, count-insert, count-update, count-pos, newest, newest-In, newest-none, KeysAreUnique,
}
use monitoring_maxval.Model.{Store, MonitorTarget, CheckResult, CheckStatus, Incident}
use monitoring_maxval.Incidents.Attempts.{opening_notification, recovery_notification}
use monitoring_maxval.Incidents.Steps.{
  Outcome, add_incident, change_incident, fail_again, resolve, confirmed_failure,
}
use monitoring_maxval.Incidents.Availability.{
  availability_of, availability_row, mark_target, process_down, process_up,
}

module _ (now : ℕ) (db : Store) (target : MonitorTarget) (result : CheckResult) where
  -- The open incidents of the target after a DOWN result.
  pub open-down :
      (found : Option Incident) (o : Bool)
      → newest Incident.id (availability_of target.id) db.incidents ≡ found
      → KeysAreUnique Incident.id db.next_incident db.incidents
      → count (availability_of target.id) db.incidents ≡ bit o
      → count (availability_of target.id) (process_down now target result found db).1.incidents
        ≡ bit (o || confirmed_failure db target.id)
  unfolding process_down add_incident change_incident mark_target opening_notification
  open-down none o e k c = ground (
    arith,
    newest-none Incident.id (availability_of target.id) db.incidents e,
    count-insert (availability_of target.id)
        (opening_notification now db target (availability_row db target.id result)).1 db.incidents,
  )
  open-down (some i) o e k c =
      let (stands, here) = newest-In Incident.id (availability_of target.id) db.incidents e in
      ground (
        arith,
        count-pos (availability_of target.id) i db.incidents stands here,
        count-update Incident.id (availability_of target.id) i
            (λ row.
              (opening_notification now db target
                (fail_again result.checked_at result.message row)).1)
            db.incidents stands (k.once i.id),
      )

  -- After an UP result there are none.
  pub open-up :
      (found : Option Incident) (o : Bool)
      → newest Incident.id (availability_of target.id) db.incidents ≡ found
      → KeysAreUnique Incident.id db.next_incident db.incidents
      → count (availability_of target.id) db.incidents ≡ bit o
      → count (availability_of target.id) (process_up now target result found db).1.incidents ≡ 0
  unfolding process_up change_incident mark_target recovery_notification
  open-up none o e k c = newest-none Incident.id (availability_of target.id) db.incidents e
  open-up (some i) o e k c =
      let (stands, here) = newest-In Incident.id (availability_of target.id) db.incidents e in
      ground (
        arith,
        count-update Incident.id (availability_of target.id) i
            (λ row. (recovery_notification now db target (resolve result.checked_at row)).1)
            db.incidents stands (k.once i.id),
      )

  -- The incident service leaves the results and the settings alone.
  pub process_result-results :
      (found : Option Incident) (s : CheckStatus)
      → let out = (elim s as (λ _. Outcome) [
        | CheckStatus.up ↦ process_up now target result found db
        | CheckStatus.down ↦ process_down now target result found db
        | CheckStatus.unknown ↦ ([], db)
      ]) in
        (out.1.results ≡ db.results)
        × (out.1.next_result ≡ db.next_result)
        × (out.1.settings ≡ db.settings)
  unfolding process_up process_down change_incident add_incident mark_target
  process_result-results none CheckStatus.up = (refl, refl, refl)
  process_result-results (some i) CheckStatus.up = (refl, refl, refl)
  process_result-results none CheckStatus.down = ground arith
  process_result-results (some i) CheckStatus.down = (refl, refl, refl)
  process_result-results found CheckStatus.unknown = (refl, refl, refl)
