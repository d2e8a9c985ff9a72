-- ===== src/Thresholds/Total.antt =====
-- The evaluation of the thresholds of a target returns.
use monitoring_maxval.Base.{
  ℕ, Bool, true, ◌&&◌, List, [], ◌∷◌, keep, ltb, ◌==◌, all, ◌≡◌, refl, arith, Option-cases, inl,
  inr,
}
use monitoring_maxval.Base.Result.{Result, ok, Post, returned, raised, and_then}
use monitoring_maxval.Base.Rows.{find}
use monitoring_maxval.Base.Sort.{place, sort}
use monitoring_maxval.Model.{MonitorTarget}
use monitoring_maxval.Incidents.Slots.{IsWellFormed}
use monitoring_maxval.Incidents.SourceMethods.{set_source_state-Effect}
use monitoring_maxval.Incidents.Invariant.{Effect-IsWellFormed}
use monitoring_maxval.Thresholds.Levels.{evaluate_level-level_by}
use monitoring_maxval.Incidents.Notices.{IncidentNotification}
use monitoring_maxval.Thresholds.Level.{is_operator, ThresholdError}
use monitoring_maxval.Thresholds.Tables.{SnmpThreshold}
use monitoring_maxval.Thresholds.Values.{threshold_value}
use monitoring_maxval.Thresholds.Service.{
  enabled_thresholds, Texts, Stores, source_key, apply_level, evaluate_threshold,
  evaluate_thresholds, evaluate_target,
}

abbrev Ok : {A : Type 0} → (A → Type 0) → Result ThresholdError A → Type 0
Ok P r = Post P (λ _. ⊥) r

module _ (texts : Texts) (now observed_at : ℕ) (target : MonitorTarget) where
  -- The thresholds of a target are evaluated without an exception.
  evaluate_threshold-Ok :
      (t : SnmpThreshold) (db : Stores)
      → is_operator t.operator ≡ true
      → IsWellFormed db.main
      → Ok (λ o. IsWellFormed o.1.main) (evaluate_threshold texts now observed_at target t db)
  unfolding evaluate_threshold apply_level
  evaluate_threshold-Ok t db o h = elim (Option-cases (threshold_value db.snmp observed_at t)) [
    | inl e ↦ rw (e, evaluate_threshold) (returned h)
    | inr (value, e) ↦
        let l = evaluate_level-level_by t.operator t.warning_value t.critical_value value o in
        rw (e, l, evaluate_threshold)
          (returned (
            Effect-IsWellFormed
              (set_source_state-Effect now db.main target (source_key t.id) _ _ observed_at true)
              h))
  ]

  evaluate_thresholds-Ok :
      (ts : List SnmpThreshold) (db : Stores)
      → all (λ t. is_operator (SnmpThreshold.operator t)) ts ≡ true
      → IsWellFormed db.main
      → Ok (λ o. IsWellFormed o.1.main) (evaluate_thresholds texts now observed_at target ts db)
  unfolding evaluate_thresholds
  evaluate_thresholds-Ok [] db o h = returned h
  evaluate_thresholds-Ok (t ∷ ts) db o h =
      and_then (evaluate_threshold-Ok t db (ground (arith, o)) h)
        λ x i. and_then (evaluate_thresholds-Ok ts x.1 (ground (arith, o)) i) λ y j. returned j

all-keep :
    (p q : SnmpThreshold → Bool) (ts : List SnmpThreshold)
    → all p ts ≡ true
    → all p (keep q ts) ≡ true
all-keep p q [] h = refl
all-keep p q (t ∷ ts) h = ground (arith, h, all-keep p q ts)

all-place :
    (first : SnmpThreshold → SnmpThreshold → Bool) (p : SnmpThreshold → Bool) (t : SnmpThreshold)
    (ts : List SnmpThreshold)
    → p t ≡ true
    → all p ts ≡ true
    → all p (place first t ts) ≡ true
unfolding place
all-place first p t [] a h = ground (arith, a)
all-place first p t (u ∷ ts) a h = ground (arith, a, h, all-place first p t ts a)

all-sort :
    (first : SnmpThreshold → SnmpThreshold → Bool) (p : SnmpThreshold → Bool)
    (ts : List SnmpThreshold)
    → all p ts ≡ true
    → all p (sort first ts) ≡ true
unfolding sort
all-sort first p [] h = refl
all-sort first p (t ∷ ts) h =
    all-place first p t (sort first ts) (ground (arith, h))
      (all-sort first p ts (ground (arith, h)))

of_Ok :
    {A : Type 0} {P : A → Type 0} {r : Result ThresholdError A}
    → Ok P r
    → (a : A) × (r ≡ ok a) × P a
of_Ok (returned {a} h) = (a, refl, h)
of_Ok (raised h) = absurd h

-- If all thresholds have a known operator, the evaluation of a target returns, and the incidents are
-- well formed after it if they were before: unique keys, and one open incident for a slot at most.
pub evaluate_target-IsWellFormed :
    (texts : Texts) (now target_id observed_at : ℕ) (db : Stores)
    → all (λ t. is_operator (SnmpThreshold.operator t)) db.snmp.thresholds ≡ true
    → IsWellFormed db.main
    → (out : List IncidentNotification × Stores) × (evaluate_target texts now target_id observed_at
          db
        ≡ ok out)
      × IsWellFormed out.1.main
unfolding evaluate_target
evaluate_target-IsWellFormed texts now target_id observed_at db o h =
    elim (Option-cases (find MonitorTarget.id target_id db.main.targets)) [
      | inl e ↦ rw (e, evaluate_target) (([], db), refl, h)
      | inr (target, e) ↦
          rw (e, evaluate_target)
            (of_Ok (
              evaluate_thresholds-Ok texts now observed_at target
                (enabled_thresholds texts now target_id db.snmp.thresholds) db
                (all-sort (λ a b. ltb (SnmpThreshold.id a) (SnmpThreshold.id b))
                  (λ t. is_operator (SnmpThreshold.operator t))
                  (keep (λ t. (SnmpThreshold.target_id t == target_id) && t.enabled)
                    db.snmp.thresholds)
                  (all-keep (λ t. is_operator (SnmpThreshold.operator t)) _ db.snmp.thresholds o))
                h))
    ]
