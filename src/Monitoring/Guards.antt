-- ===== src/Monitoring/Guards.antt =====
-- The race of a check with a change of its configuration.
use monitoring_maxval.Base.{ℕ, false, some, [], ◌==◌, ◌≡◌, refl, Option-cases, Bool-cases, inl, inr}
use monitoring_maxval.Base.Result.{ok}
use monitoring_maxval.Base.Rows.{find}
use monitoring_maxval.Model.{Store, MonitorTarget, TargetCheck}
use monitoring_maxval.Schedules.{ZoneInfo}
use monitoring_maxval.Monitoring.Saving.{CheckOutcome, save_for_check, save_target_check_result}

module _ (zone_info : ZoneInfo) (now target_id check_id version : ℕ) (outcome : CheckOutcome)
    (db : Store) where
  -- If the check has gone, or has by now another version of its configuration than the one that the
  -- outcome was measured under, then `save_target_check_result` neither raises nor sends a notification
  -- nor changes the database.
  pub save_target_check_result-stale :
      ((check : TargetCheck)
        → find TargetCheck.id check_id db.checks ≡ some check
        → (check.config_version == version) ≡ false)
      → save_target_check_result zone_info now target_id check_id outcome (some version) db
        ≡ ok ([], db)
  unfolding save_target_check_result save_for_check
  save_target_check_result-stale other =
      elim (Option-cases (find MonitorTarget.id target_id db.targets)) [
        | inl e ↦ rw (e, save_target_check_result) refl
        | inr (target, e) ↦ elim (Option-cases (find TargetCheck.id check_id db.checks)) [
          | inl f ↦ rw (e, save_target_check_result) (rw f refl)
          | inr (check, f) ↦ elim (Bool-cases (check.target_id == target_id)) [
            | inr q ↦ rw (e, save_target_check_result) (rw f (rw q refl))
            | inl q ↦ rw (e, save_target_check_result) (rw f (rw q (rw (other check f) refl)))
          ]
        ]
      ]
