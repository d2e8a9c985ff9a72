-- ===== src/Monitoring/Interval.antt =====
-- The interval of a target: a result that was just stored keeps the target from being due.
use monitoring_maxval.Base.{
  ℕ, ◌+◌, ◌*◌, ◌≤◌, Option, none, some, List, [], ◌∷◌, ◌==◌, ==-refl, leb, ◌≡◌, sym, arith,
  Bool-cases, Option-cases, inl, inr, subst,
}
use monitoring_maxval.Base.Rows.{In, insert, newest}
use monitoring_maxval.Incidents.Availability.{process_result, availability_of}
use monitoring_maxval.Model.{Store, MonitorTarget, CheckResult, Incident}
use monitoring_maxval.Schedules.{ZoneInfo}
use monitoring_maxval.Monitoring.Saving.{CheckOutcome, record_outcome, result_row, add_result}
use monitoring_maxval.Monitoring.Open.{process_result-results}
use monitoring_maxval.Monitoring.Due.{
  last_checked_at, later_of, due_lag, is_active_target, target_lag, due_among,
  get_due_targets_with_lag, second_us,
}

-- The last result is not older than the instant.
IsRecent : ℕ → Option ℕ → Type 0
IsRecent now none = ⊥
IsRecent now (some last) = now ≤ last

later_of-IsRecent : (now t : ℕ) (o : Option ℕ) → IsRecent now o → IsRecent now (later_of t o)
unfolding IsRecent
later_of-IsRecent now t none h = absurd h
later_of-IsRecent now t (some u) h = omega (arith, h)

last_checked_at-insert :
    (row : CheckResult) (rows : List CheckResult)
    → IsRecent row.checked_at (last_checked_at row.target_id (insert row rows))
unfolding last_checked_at insert IsRecent
last_checked_at-insert row [] = rw (==-refl row.target_id) (omega arith)
last_checked_at-insert row (r ∷ rows) = elim (Bool-cases (r.target_id == row.target_id)) [
  | inl e ↦ rw e (later_of-IsRecent row.checked_at r.checked_at _ (last_checked_at-insert row rows))
  | inr e ↦ rw e (last_checked_at-insert row rows)
]

-- A lag that is given is that of an interval that has passed.
HasPassed : ℕ → ℕ → Option ℕ → Type 0
HasPassed now t none = Unit
HasPassed now t (some lag) = t + lag ≤ now

due_lag-HasPassed :
    (now t interval : ℕ) (o : Option ℕ)
    → IsRecent t o
    → HasPassed now (t + interval) (due_lag now interval o)
unfolding due_lag HasPassed IsRecent
due_lag-HasPassed now t interval none h = absurd h
due_lag-HasPassed now t interval (some last) h = elim (Bool-cases (leb (last + interval) now)) [
  | inl e ↦ rw e (ground (arith, h))
  | inr e ↦ rw e tt
]

module _ (zone_info : ZoneInfo) (now t id : ℕ) (db : Store) where
  target_lag-HasPassed :
      (target : MonitorTarget)
      → target.id ≡ id
      → IsRecent t (last_checked_at id db.results)
      → HasPassed now (t + target.interval_seconds * second_us) (target_lag zone_info now db target)
  unfolding target_lag HasPassed
  target_lag-HasPassed target e h = elim (Bool-cases (is_active_target zone_info now db target)) [
    | inl a ↦ rw a (
        due_lag-HasPassed now t _ _
          (subst (λ n. IsRecent t (last_checked_at n db.results)) (sym e) h))
    | inr a ↦ rw a tt
  ]

  passed_row :
      (x : MonitorTarget) (row : MonitorTarget × ℕ) (lag : ℕ)
      → (x, lag) ≡ row
      → (x.id ≡ id → t + x.interval_seconds * second_us + lag ≤ now)
      → row.0.id ≡ id
      → t + row.0.interval_seconds * second_us + row.1 ≤ now
  passed_row x row lag p h =
      subst (λ w. w.0.id ≡ id → t + w.0.interval_seconds * second_us + w.1 ≤ now) p h

  due_among-HasPassed :
      (targets : List MonitorTarget) (row : MonitorTarget × ℕ)
      → IsRecent t (last_checked_at id db.results)
      → In row (due_among zone_info now db targets)
      → row.0.id ≡ id
      → t + row.0.interval_seconds * second_us + row.1 ≤ now
  unfolding due_among HasPassed
  due_among-HasPassed [] row r h e = absurd h
  due_among-HasPassed (x ∷ xs) row r h e = elim (Option-cases (target_lag zone_info now db x)) [
    | inl q ↦ due_among-HasPassed xs row r (rw (q, In) at h) e
    | inr (lag, q) ↦ elim (rw (q, In) at h) [
      | inl p ↦
          passed_row x row lag p
            (λ f.
              subst (HasPassed now (t + x.interval_seconds * second_us)) q
                (target_lag-HasPassed x f r))
            e
      | inr i ↦ due_among-HasPassed xs row r i e
    ]
  ]

record_outcome-IsRecent :
    (now : ℕ) (target : MonitorTarget) (outcome : CheckOutcome) (db : Store)
    → IsRecent now (last_checked_at target.id (record_outcome now target outcome db).1.results)
unfolding record_outcome process_result
record_outcome-IsRecent now target outcome db =
    let row = result_row db now target.id outcome in
    subst (λ l. IsRecent now (last_checked_at target.id l))
      (sym
        (process_result-results now (add_result row db) target row
          (newest Incident.id (availability_of target.id) db.incidents) outcome.status).0)
      (last_checked_at-insert row db.results)

-- In the store that the outcome of a target at an instant leaves, a due row of that target means that
-- its interval has passed since that instant, and the lag does not exceed the time since then.
pub record_outcome-get_due_targets_with_lag :
    (zone_info : ZoneInfo) (now later : ℕ) (target : MonitorTarget) (outcome : CheckOutcome)
    (db : Store) (row : MonitorTarget × ℕ)
    → In row (get_due_targets_with_lag zone_info later (record_outcome now target outcome db).1)
    → row.0.id ≡ target.id
    → now + row.0.interval_seconds * second_us + row.1 ≤ later
unfolding get_due_targets_with_lag
record_outcome-get_due_targets_with_lag zone_info now later target outcome db row h e =
    let db' = (record_outcome now target outcome db).1 in
    due_among-HasPassed zone_info later now target.id db' db'.targets row
      (record_outcome-IsRecent now target outcome db) h e
