-- ===== src/Thresholds/Open.antt =====
-- The incident of a threshold, after its level was given to the incident service.
use monitoring_maxval.Base.{ℕ, Bool, true, none, some, List, ◌&&◌, ◌≡◌, refl, ◌&&◌}
use monitoring_maxval.Base.Int.{ℤ}
use monitoring_maxval.Base.Result.{ok}
use monitoring_maxval.Base.Rows.{count}
use monitoring_maxval.Model.{MonitorTarget, Severity, Incident}
use monitoring_maxval.Incidents.Slots.{Slot, in_slot, IsWellFormed}
use monitoring_maxval.Incidents.Notices.{IncidentNotification}
use monitoring_maxval.Thresholds.Level.{ThresholdLevel, evaluate_level}
use monitoring_maxval.Thresholds.Tables.{SnmpThreshold}
use monitoring_maxval.Thresholds.Values.{threshold_value}
use monitoring_maxval.Thresholds.Service.{
  Texts, Stores, source_key, apply_level, evaluate_threshold,
}
use monitoring_maxval.Thresholds.SourceState.{
  has_severity, set_source_state-count, set_source_state-at_severity,
}

-- What a level asks of the open incidents of its source, of which there are `here`: none at the level
-- normal, otherwise one, which has the severity of that name.
abbrev pub Shows : ThresholdLevel → (Incident → Bool) → List Incident → Type 0
Shows ThresholdLevel.normal here is = count here is ≡ 0
Shows ThresholdLevel.warning here is =
    (count here is ≡ 1) × (count (λ i. here i && has_severity Severity.warning i) is ≡ 1)
Shows ThresholdLevel.critical here is =
    (count here is ≡ 1) × (count (λ i. here i && has_severity Severity.critical i) is ≡ 1)

module _ (texts : Texts) (now observed_at : ℕ) (target : MonitorTarget) where
  apply_level-Shows :
      (t : SnmpThreshold) (db : Stores) (value : ℤ) (level : ThresholdLevel)
      → IsWellFormed db.main
      → Shows level
          (in_slot (Slot.source target.id (source_key t.id)))
          (apply_level texts now observed_at target t value level db).1.main.incidents
  unfolding apply_level
  apply_level-Shows t db value ThresholdLevel.normal h =
      set_source_state-count now target (source_key t.id) _ observed_at true db.main h none
  apply_level-Shows t db value ThresholdLevel.warning h = (
    set_source_state-count now target (source_key t.id) _ observed_at true db.main h
        (some Severity.warning),
    set_source_state-at_severity now target (source_key t.id) _ observed_at true db.main h
        Severity.warning,
  )
  apply_level-Shows t db value ThresholdLevel.critical h = (
    set_source_state-count now target (source_key t.id) _ observed_at true db.main h
        (some Severity.critical),
    set_source_state-at_severity now target (source_key t.id) _ observed_at true db.main h
        Severity.critical,
  )

  -- Where the incidents are well formed, a threshold that has a fresh value and a level for it is
  -- evaluated without an exception; afterwards its source has no open incident if the level is normal,
  -- and otherwise exactly one, which is a warning at the level warning and critical at the level
  -- critical.
  pub evaluate_threshold-Shows :
      (t : SnmpThreshold) (db : Stores) {value : ℤ} {level : ThresholdLevel}
      → IsWellFormed db.main
      → threshold_value db.snmp observed_at t ≡ some value
      → evaluate_level t.operator t.warning_value t.critical_value value ≡ ok level
      → (out : List IncidentNotification × Stores) × (evaluate_threshold texts now observed_at
            target t db
          ≡ ok out)
        × Shows level (in_slot (Slot.source target.id (source_key t.id))) out.1.main.incidents
  unfolding evaluate_threshold
  evaluate_threshold-Shows t db {value} {level} h v l = (
    apply_level texts now observed_at target t value level db,
    rw (v, l, evaluate_threshold) refl,
    apply_level-Shows t db value level h,
  )
