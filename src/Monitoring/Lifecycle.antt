-- ===== src/Monitoring/Lifecycle.antt =====
-- The availability of a target as a small state machine: how many DOWN results there are in a row, and
-- whether an incident is open.
use monitoring_maxval.Base.{
  ℕ, ◌+◌, ◌≤◌, Bool, ◌||◌, List, [], ◌∷◌, map, ◌≡◌, ap, arith, bit, ◌==◌, ==-refl, suc, ◌<◌, leb,
  keep, keep-append, false,
}
use monitoring_maxval.Base.Rows.{count, insert}
use monitoring_maxval.Model.{Store, CheckResult, CheckStatus}
use monitoring_maxval.Base.Sort.{IsAhead, sort-insert}
use monitoring_maxval.Incidents.Steps.{target_history, later_result}
use monitoring_maxval.Incidents.Availability.{availability_of}
use monitoring_maxval.Incidents.Slots.{IsWellFormed}
use monitoring_maxval.Incidents.Streak.{down_streak}
use monitoring_maxval.Monitoring.Saving.{add_result}

-- The abstract state of a target.
pub record Monitor : Type 0 where
  pub streak : ℕ
  pub is_open : Bool

-- An UP closes, a DOWN opens once the streak is long enough, an UNKNOWN only ends the streak.
unfoldable pub observe : ℕ → CheckStatus → Monitor → Monitor
observe threshold CheckStatus.up m = record { streak = 0; is_open = false }
observe threshold CheckStatus.down m = record {
  streak = suc m.streak;
  is_open = m.is_open || leb threshold (suc m.streak);
}
observe threshold CheckStatus.unknown m = record { streak = 0; is_open = m.is_open }

-- No result is later than this instant, and all keys are below the next one.
abbrev pub AreStored : ℕ → ℕ → List CheckResult → Type 0
AreStored last next [] = Unit
AreStored last next (r ∷ rows) = (r.checked_at ≤ last) × (r.id < next) × AreStored last next rows

-- A store shows this state of a target.
pub record Shows (target_id last : ℕ) (m : Monitor) (db : Store) : Type 0 where
  pub stored : AreStored last db.next_result db.results
  pub streak : down_streak (target_history db target_id) ≡ m.streak
  pub one_open : count (availability_of target_id) db.incidents ≡ bit m.is_open
  pub wf : IsWellFormed db

pub stored_later :
    (last now next : ℕ) (rows : List CheckResult) (r : CheckResult)
    → last ≤ now
    → r.checked_at ≡ now
    → r.id ≡ next
    → AreStored last next rows
    → AreStored now (next + 1) (insert r rows)
unfolding insert
stored_later last now next [] r le e e' h = (omega arith, omega arith, tt)
stored_later last now next (x ∷ rows) r le e e' h =
    (omega arith, omega arith, stored_later last now next rows r le e e' h.2)

stored-IsAhead :
    (p : CheckResult → Bool) (last next : ℕ) (rows : List CheckResult) (r : CheckResult)
    → last ≤ r.checked_at
    → r.id ≡ next
    → AreStored last next rows
    → IsAhead later_result r (keep p rows)
stored-IsAhead p last next [] r le e h = tt
stored-IsAhead p last next (x ∷ rows) r le e h =
    ground (arith, stored-IsAhead p last next rows r le e h.2)

-- The history of a target after a new result of it is the old one behind that status.
pub target_history-add_result :
    (db : Store) (last : ℕ) (r : CheckResult)
    → last ≤ r.checked_at
    → r.id ≡ db.next_result
    → AreStored last db.next_result db.results
    → target_history (add_result r db) r.target_id ≡ r.status ∷ target_history db r.target_id
unfolding target_history insert
target_history-add_result db last r le e h =
    rw (keep-append (λ x. CheckResult.target_id x == r.target_id) db.results (r ∷ [])) (
      rw (==-refl r.target_id) (
        ap (map CheckResult.status) (
          sort-insert later_result r _ (stored-IsAhead _ last db.next_result db.results r le e h))))
