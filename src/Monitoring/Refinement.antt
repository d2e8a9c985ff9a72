-- ===== src/Monitoring/Refinement.antt =====
-- The stored results and incidents of a target refine the state machine of its availability.
use monitoring_maxval.Base.{
  ℕ, ◌≤◌, ◌||◌, List, [], ◌∷◌, ◌≡◌, refl, ◌∙◌, ap, bit, subst, suc, leb, Option,
}
use monitoring_maxval.Base.Rows.{count, newest}
use monitoring_maxval.Model.{Store, MonitorTarget, CheckResult, CheckStatus, Incident}
use monitoring_maxval.Incidents.Steps.{Outcome, confirmed_failure}
use monitoring_maxval.Incidents.Settings.{failure_threshold}
use monitoring_maxval.Incidents.Steps.{target_history}
use monitoring_maxval.Incidents.Availability.{
  availability_of, process_down, process_up, process_result,
}
use monitoring_maxval.Incidents.Streak.{
  down_streak, down_streak-down, down_streak-other, all_down-eq-streak,
}
use monitoring_maxval.Monitoring.Saving.{CheckOutcome, record_outcome, result_row, add_result}
use monitoring_maxval.Incidents.Methods.{process_result-Effect}
use monitoring_maxval.Incidents.Invariant.{Effect-IsWellFormed}
use monitoring_maxval.Monitoring.Lifecycle.{
  Monitor, observe, Shows, stored_later, target_history-add_result,
}
use monitoring_maxval.Monitoring.Open.{open-down, open-up, process_result-results}

module _ (now last : ℕ) (db : Store) (target : MonitorTarget) (outcome : CheckOutcome)
    (m : Monitor) where
  abbrev stored_row : CheckResult
  stored_row = result_row db now target.id outcome

  abbrev stored_db : Store
  stored_db = add_result stored_row db

  history_lem :
      last ≤ now
      → Shows target.id last m db
      → target_history stored_db target.id ≡ outcome.status ∷ target_history db target.id
  history_lem le h = target_history-add_result db last stored_row le refl h.stored

  confirmed_lem :
      last ≤ now
      → Shows target.id last m db
      → outcome.status ≡ CheckStatus.down
      → confirmed_failure stored_db target.id ≡ leb (failure_threshold db.settings) (suc m.streak)
  unfolding confirmed_failure
  confirmed_lem le h e =
      rw (history_lem le h, e) (rw (all_down-eq-streak, down_streak-down) (rw h.streak))

  streak_lem :
      (s : CheckStatus)
      → last ≤ now
      → Shows target.id last m db
      → outcome.status ≡ s
      → down_streak (target_history stored_db target.id)
        ≡ (observe (failure_threshold db.settings) s m).streak
  unfolding observe
  streak_lem CheckStatus.up le h e =
      rw (history_lem le h, e) (down_streak-other CheckStatus.up _ refl)
  streak_lem CheckStatus.down le h e =
      rw (history_lem le h, e) (rw down_streak-down (ap suc h.streak))
  streak_lem CheckStatus.unknown le h e =
      rw (history_lem le h, e) (down_streak-other CheckStatus.unknown _ refl)

  abbrev found_row : Option Incident
  found_row = newest Incident.id (availability_of target.id) db.incidents

  abbrev processed : CheckStatus → Outcome
  processed s = elim s as (λ _. Outcome) [
    | CheckStatus.up ↦ process_up now target stored_row found_row stored_db
    | CheckStatus.down ↦ process_down now target stored_row found_row stored_db
    | CheckStatus.unknown ↦ ([], stored_db)
  ]

  open_lem :
      (s : CheckStatus)
      → last ≤ now
      → Shows target.id last m db
      → outcome.status ≡ s
      → count (availability_of target.id) (processed s).1.incidents
        ≡ bit (observe (failure_threshold db.settings) s m).is_open
  unfolding observe
  open_lem CheckStatus.up le h e =
      open-up now stored_db target stored_row found_row m.is_open refl h.wf.keys h.one_open
  open_lem CheckStatus.down le h e =
      open-down now stored_db target stored_row found_row m.is_open refl h.wf.keys h.one_open
      ∙ ap (λ c. bit (m.is_open || c)) (confirmed_lem le h e)
  open_lem CheckStatus.unknown le h e = h.one_open

  history_kept :
      (db' : Store)
      → db'.results ≡ stored_db.results
      → target_history db' target.id ≡ target_history stored_db target.id
  unfolding target_history
  history_kept db' e = rw e

  -- A result that is stored and processed moves the machine by one step, if the store showed its
  -- state before: at an instant that is not before the last result, with unique primary keys and at
  -- most one open incident for each slot. The threshold is the setting, held between 1 and 10.
  pub record_outcome-Shows :
      last ≤ now
      → Shows target.id last m db
      → Shows target.id now
          (observe (failure_threshold db.settings) outcome.status m)
          (record_outcome now target outcome db).1
  unfolding record_outcome process_result
  record_outcome-Shows le h =
      let (kept, next, _) =
        process_result-results now stored_db target stored_row found_row outcome.status in
      record {
        stored =
            rw (kept, next)
              (stored_later last now db.next_result db.results stored_row le refl refl h.stored);
        streak =
            rw (history_kept (process_result now target stored_row stored_db).1 kept)
              (streak_lem outcome.status le h refl);
        one_open = open_lem outcome.status le h refl;
        wf =
            Effect-IsWellFormed (process_result-Effect now stored_db target stored_row)
              (record { keys = h.wf.keys; one_open = h.wf.one_open });
      }

record_outcome-settings :
    (now : ℕ) (db : Store) (target : MonitorTarget) (outcome : CheckOutcome)
    → (record_outcome now target outcome db).1.settings ≡ db.settings
unfolding record_outcome process_result
record_outcome-settings now db target outcome =
    (process_result-results now (add_result (result_row db now target.id outcome) db) target
      (result_row db now target.id outcome)
      (newest Incident.id (availability_of target.id) db.incidents) outcome.status).2

-- The outcomes of a target, each with its instant, recorded one after the other.
unfoldable pub record_all : MonitorTarget → List (ℕ × CheckOutcome) → Store → Store
record_all target [] db = db
record_all target ((now, outcome) ∷ feed) db =
    record_all target feed (record_outcome now target outcome db).1

unfoldable pub observe_all : ℕ → List (ℕ × CheckOutcome) → Monitor → Monitor
observe_all threshold [] m = m
observe_all threshold ((now, outcome) ∷ feed) m =
    observe_all threshold feed (observe threshold outcome.status m)

-- The instants do not go back.
abbrev pub IsInOrder : ℕ → List (ℕ × CheckOutcome) → Type 0
IsInOrder last [] = Unit
IsInOrder last ((now, _) ∷ feed) = (last ≤ now) × IsInOrder now feed

abbrev pub last_instant : ℕ → List (ℕ × CheckOutcome) → ℕ
last_instant last [] = last
last_instant last ((now, _) ∷ feed) = last_instant now feed

-- Over any sequence of outcomes of a target, in the order of time, the stored results and incidents
-- go through the states of the machine: the streak is the number of DOWN results since the last other
-- one, and there is one open incident of the target's availability exactly if the machine is open.
pub record_all-Shows :
    (target : MonitorTarget) (feed : List (ℕ × CheckOutcome)) (last : ℕ) (db : Store) (m : Monitor)
    → IsInOrder last feed
    → Shows target.id last m db
    → Shows target.id
        (last_instant last feed)
        (observe_all (failure_threshold db.settings) feed m)
        (record_all target feed db)
unfolding record_all observe_all
record_all-Shows target [] last db m o h = h
record_all-Shows target ((now, outcome) ∷ feed) last db m o h =
    let db' = (record_outcome now target outcome db).1 in
    let ih =
      record_all-Shows target feed now db'
        (observe (failure_threshold db.settings) outcome.status m) o.1
        (record_outcome-Shows now last db target outcome m o.0 h) in
    subst
      (λ t.
        Shows target.id (last_instant now feed)
          (observe_all t feed (observe (failure_threshold db.settings) outcome.status m))
          (record_all target feed db'))
      (ap failure_threshold (record_outcome-settings now db target outcome)) ih
