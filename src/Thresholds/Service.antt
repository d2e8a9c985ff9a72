-- ===== src/Thresholds/Service.antt =====
-- `SnmpThresholdService.evaluate_target` and the resets of thresholds, on the incidents and the tables
-- of SNMP.
use monitoring_maxval.Base.{
  ℕ, Bool, true, false, ◌&&◌, not, Option, none, some, List, [], ◌∷◌, ◌++◌, keep, ◌==◌, ltb,
}
use monitoring_maxval.Base.Int.{ℤ}
use monitoring_maxval.Base.Text.{String, ◌⧺◌, decimal}
use monitoring_maxval.Base.Result.{Result, ok, err, ◌>>=◌}
use monitoring_maxval.Base.Rows.{find, update}
use monitoring_maxval.Base.Sort.{sort}
use monitoring_maxval.Base.Strings.{same_option}
use monitoring_maxval.Model.{Store, MonitorTarget, SourceKind, Severity}
use monitoring_maxval.Incidents.Notices.{IncidentNotification}
use monitoring_maxval.Incidents.Sources.{set_source_state, resolve_source_silently}
use monitoring_maxval.Thresholds.Level.{ThresholdLevel, ThresholdError, evaluate_level}
use monitoring_maxval.Thresholds.Tables.{SnmpStore, SnmpThreshold}
use monitoring_maxval.Thresholds.Values.{LineField, threshold_value}
use monitoring_maxval.Thresholds.Labels.{source_label, threshold_message}

-- `source_key`
unfoldable pub source_key : ℕ → String
source_key threshold_id = "threshold:" ⧺ decimal threshold_id

-- `format_threshold_value`, and the label of a line of a UPS.
pub record Texts : Type 0 where
  pub format : SnmpThreshold → ℤ → String
  pub line_label : LineField → String × String

-- The incidents' database and the tables of SNMP.
pub record Stores : Type 0 where
  pub main : Store
  pub snmp : SnmpStore

abbrev pub Evaluation : Type 0
Evaluation = Result ThresholdError (List IncidentNotification × Stores)

abbrev pub level_severity : ThresholdLevel → Option Severity
level_severity ThresholdLevel.critical = some Severity.critical
level_severity ThresholdLevel.warning = some Severity.warning
level_severity ThresholdLevel.normal = none

abbrev pub evaluated : ThresholdLevel → ℤ → ℕ → SnmpThreshold → SnmpThreshold
evaluated level value now t = record t {
  last_value = some value;
  last_evaluated_at = some now;
  current_level = level;
}

abbrev pub with_thresholds : List SnmpThreshold → SnmpStore → SnmpStore
with_thresholds thresholds snmp = record snmp { thresholds = thresholds }

module _ (texts : Texts) (now : ℕ) where
  -- A level is stored with the threshold and given to the incident service.
  unfoldable pub apply_level :
      ℕ
      → MonitorTarget
      → SnmpThreshold
      → ℤ
      → ThresholdLevel
      → Stores
      → List IncidentNotification × Stores
  apply_level observed_at target t value level db =
      let message =
        threshold_message texts.format t (source_label texts.line_label db.snmp t) value level in
      let (events, main) =
        set_source_state now target SourceKind.snmp (source_key t.id) (level_severity level) message
          observed_at true db.main in
      (
        events,
        record {
          main = main;
          snmp =
              with_thresholds
                (update SnmpThreshold.id t.id (evaluated level value observed_at)
                  db.snmp.thresholds)
                db.snmp;
        },
      )

  -- The body of the loop: without a fresh value nothing happens.
  unfoldable pub evaluate_threshold : ℕ → MonitorTarget → SnmpThreshold → Stores → Evaluation
  evaluate_threshold observed_at target t db = elim (threshold_value db.snmp observed_at t) [
    | none ↦ ok ([], db)
    | some value ↦ elim (evaluate_level t.operator t.warning_value t.critical_value value) [
      | err e ↦ err e
      | ok level ↦ ok (apply_level observed_at target t value level db)
    ]
  ]

  unfoldable pub evaluate_thresholds : ℕ → MonitorTarget → List SnmpThreshold → Stores → Evaluation
  evaluate_thresholds observed_at target [] db = ok ([], db)
  evaluate_thresholds observed_at target (t ∷ ts) db =
      evaluate_threshold observed_at target t db >>= λ (events, db').
      evaluate_thresholds observed_at target ts db' >>= λ (later, db''). ok (events ++ later, db'')

  -- `SELECT ... WHERE target_id = ... AND enabled ORDER BY id`
  abbrev pub enabled_thresholds : ℕ → List SnmpThreshold → List SnmpThreshold
  enabled_thresholds target_id ts =
      sort (λ a b. ltb (SnmpThreshold.id a) (SnmpThreshold.id b))
        (keep (λ t. (SnmpThreshold.target_id t == target_id) && t.enabled) ts)

  unfoldable pub evaluate_target : ℕ → ℕ → Stores → Evaluation
  evaluate_target target_id observed_at db =
      elim (find MonitorTarget.id target_id db.main.targets) [
        | none ↦ ok ([], db)
        | some target ↦
            evaluate_thresholds observed_at target (enabled_thresholds target_id db.snmp.thresholds)
              db
      ]

abbrev pub cleared : Bool → SnmpThreshold → SnmpThreshold
cleared disable t = record t {
  current_level = ThresholdLevel.normal;
  last_value = none;
  last_evaluated_at = none;
  enabled = t.enabled && not disable;
}

unfoldable pub reset_threshold : ℕ → String → Bool → SnmpThreshold → Stores → Stores
reset_threshold now message disable t db = record {
  main = elim (find MonitorTarget.id t.target_id db.main.targets) [
    | none ↦ db.main
    | some target ↦
        resolve_source_silently now target SourceKind.snmp (source_key t.id) message now db.main
  ];
  snmp =
      with_thresholds (update SnmpThreshold.id t.id (cleared disable) db.snmp.thresholds) db.snmp;
}

unfoldable pub reset_all : ℕ → String → Bool → List SnmpThreshold → Stores → Stores
reset_all now message disable [] db = db
reset_all now message disable (t ∷ ts) db =
    reset_all now message disable ts (reset_threshold now message disable t db)

unfoldable pub reset_target : ℕ → ℕ → String → Stores → Stores
reset_target now target_id message db =
    reset_all now message false
      (keep (λ t. SnmpThreshold.target_id t == target_id) db.snmp.thresholds) db

abbrev refers_to : ℕ → Option ℕ → Bool
refers_to id o = same_option (λ a b. a == b) o (some id)

unfoldable pub reset_for_interface : ℕ → ℕ → String → Bool → Stores → Stores
reset_for_interface now interface_id message disable db =
    reset_all now message disable
      (keep (λ t. refers_to interface_id (SnmpThreshold.interface_id t)) db.snmp.thresholds) db

unfoldable pub reset_for_supply : ℕ → ℕ → String → Bool → Stores → Stores
reset_for_supply now supply_id message disable db =
    reset_all now message disable
      (keep (λ t. refers_to supply_id (SnmpThreshold.supply_id t)) db.snmp.thresholds) db

unfoldable pub reset_for_metric : ℕ → ℕ → String → Stores → Stores
reset_for_metric now metric_id message db =
    reset_all now message false
      (keep (λ t. refers_to metric_id (SnmpThreshold.metric_id t)) db.snmp.thresholds) db
