-- ===== src/Tests/Limits.antt =====
-- A threshold on an SNMP metric of a target.
use monitoring_maxval.Base.Sort.{sort, place}
use monitoring_maxval.Base.{◌≤◌, true, none, some, List, [], ◌∷◌, ◌≡◌, refl, arith}
use monitoring_maxval.Base.Int.{pos}
use monitoring_maxval.Base.Result.{ok}
use monitoring_maxval.Base.Rows.{find}
use monitoring_maxval.Incidents.Notices.{IncidentNotification}
use monitoring_maxval.Incidents.Slots.{Slot, in_slot, IsWellFormed}
use monitoring_maxval.Thresholds.Level.{
  ThresholdLevel, finite, validate_threshold_values, evaluate_level, crossed,
}
use monitoring_maxval.Thresholds.Levels.{
  rank, IsThreshold, validate_threshold_values-IsThreshold, evaluate_level-rank,
}
use monitoring_maxval.Thresholds.Tables.{SnmpStore, SnmpThreshold, SnmpMetric, SourceOf}
use monitoring_maxval.Thresholds.Values.{threshold_value}
use monitoring_maxval.Thresholds.Service.{
  Texts, Stores, source_key, evaluate_threshold, evaluate_target,
}
use monitoring_maxval.Thresholds.Open.{Shows, evaluate_threshold-Shows}
use monitoring_maxval.Thresholds.Total.{evaluate_target-IsWellFormed}
use monitoring_maxval.Tests.Sample.{sample, router, sample-IsWellFormed}

abbrev threshold : SnmpThreshold
threshold = record {
  id = 7;
  target_id = 3;
  source_kind = SourceOf.metric;
  metric_id = some 2;
  interface_id = none;
  supply_id = none;
  field = "value";
  operator = "gt";
  warning_value = some (pos 50);
  critical_value = some (pos 80);
  enabled = true;
  current_level = ThresholdLevel.normal;
  last_value = none;
  last_evaluated_at = none;
}

abbrev metric : SnmpMetric
metric = record {
  id = 2;
  target_id = 3;
  oid = some "1.3.6";
  name = "load";
  unit = none;
  enabled = true;
  display_order = 1;
}

abbrev readings : SnmpStore
readings = record {
  thresholds = threshold ∷ [];
  configs = [];
  ups_states = [];
  ups_lines = [];
  metrics = metric ∷ [];
  samples = record { id = 1; metric_id = 2; collected_at = 100; value = pos 95 } ∷ [];
  interfaces = [];
  interface_samples = [];
  supplies = [];
}

abbrev stores : Stores
stores = record { main = sample; snmp = readings }

abbrev texts : Texts
texts = record { format = λ t value. "95"; line_label = λ f. ("", "") }

threshold_reads : threshold_value readings 100 threshold ≡ some (pos 95)
unfolding threshold_value find sort place
threshold_reads = refl

is_critical :
    evaluate_level "gt" (some (pos 50)) (some (pos 80)) (pos 95) ≡ ok ThresholdLevel.critical
unfolding evaluate_level crossed
is_critical = refl

evaluate_threshold-Shows_example :
    (out : List IncidentNotification × Stores) × (evaluate_threshold texts 100 100 router threshold
        stores
      ≡ ok out)
    × Shows ThresholdLevel.critical (in_slot (Slot.source 3 (source_key 7))) out.1.main.incidents
evaluate_threshold-Shows_example =
    evaluate_threshold-Shows texts 100 100 router threshold stores {value = pos 95}
      {level = ThresholdLevel.critical} sample-IsWellFormed threshold_reads is_critical

evaluate_target-IsWellFormed_example :
    (out : List IncidentNotification × Stores) × (evaluate_target texts 100 3 100 stores ≡ ok out)
    × IsWellFormed out.1.main
evaluate_target-IsWellFormed_example =
    evaluate_target-IsWellFormed texts 100 3 100 stores refl sample-IsWellFormed

validate_runs :
    validate_threshold_values "gt" (some (finite (pos 50))) (some (finite (pos 80))) ≡ ok tt
unfolding validate_threshold_values
validate_runs = refl

validate_threshold_values-IsThreshold_example : IsThreshold "gt" (some (pos 50)) (some (pos 80))
validate_threshold_values-IsThreshold_example =
    validate_threshold_values-IsThreshold "gt" (some (finite (pos 50))) (some (finite (pos 80)))
      validate_runs

evaluate_level-rank_example :
    (levels : ThresholdLevel × ThresholdLevel) × (evaluate_level "gt"
        (some (pos 50))
        (some (pos 80))
        (pos 60)
      ≡ ok levels.0)
    × (evaluate_level "gt" (some (pos 50)) (some (pos 80)) (pos 95) ≡ ok levels.1)
    × (rank levels.0 ≤ rank levels.1)
evaluate_level-rank_example =
    evaluate_level-rank "gt" (some (pos 50)) (some (pos 80)) (pos 60) (pos 95) refl (omega arith)
