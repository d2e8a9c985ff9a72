-- ===== src/Thresholds/Levels.antt =====
-- The levels of a threshold that was validated.
use monitoring_maxval.Base.{
  ℕ, ◌≤◌, Bool, true, false, ◌&&◌, ◌||◌, not, Option, none, some, if◌then◌else◌, is_some, ◌≡◌, refl,
  arith, subst, Bool-cases, inl, inr,
}
use monitoring_maxval.Base.Int.{ℤ, ◌≤ℤ◌}
use monitoring_maxval.Base.Result.{
  Result, ok, err, Post, returned, raised, and_then, require-Post, value_of, Any, weaken,
}
use monitoring_maxval.Base.Text.{String, str_eq}
use monitoring_maxval.Base.Strings.{if_some}
use monitoring_maxval.Thresholds.Level.{
  ThresholdLevel, ThresholdError, is_operator, crossed, evaluate_level, Limit, is_finite,
  limit_value, validate_threshold_values, in_order,
}

abbrev pub rank : ThresholdLevel → ℕ
rank ThresholdLevel.normal = 0
rank ThresholdLevel.warning = 1
rank ThresholdLevel.critical = 2

-- The second value is at least as far on the side of the operator as the first.
abbrev pub IsWorse : String → ℤ → ℤ → Type 0
IsWorse operator a b = if str_eq operator "gt" then a ≤ℤ b else b ≤ℤ a

crossed-IsWorse :
    (operator : String) (a b : ℤ) (limit : Option ℤ)
    → IsWorse operator a b
    → crossed operator a limit ≡ true
    → crossed operator b limit ≡ true
unfolding crossed
crossed-IsWorse operator a b none w h = h
crossed-IsWorse operator a b (some l) w h = elim (Bool-cases (str_eq operator "gt")) [
  | inl q ↦ rw q (let h' = rw q at h in let w' = rw q at w in ground (arith, h', w'))
  | inr q ↦ rw q (let h' = rw q at h in let w' = rw q at w in ground (arith, h', w'))
]

-- The level by the limits that are crossed.
abbrev level_by : Bool → Bool → ThresholdLevel
level_by true w = ThresholdLevel.critical
level_by false true = ThresholdLevel.warning
level_by false false = ThresholdLevel.normal

pub evaluate_level-level_by :
    (operator : String) (warn_at critical_at : Option ℤ) (value : ℤ)
    → is_operator operator ≡ true
    → evaluate_level operator warn_at critical_at value
      ≡ ok (level_by (crossed operator value critical_at) (crossed operator value warn_at))
unfolding evaluate_level
evaluate_level-level_by operator warn_at critical_at value h =
    rw h (elim (Bool-cases (crossed operator value critical_at)) [
      | inl c ↦ rw c refl
      | inr c ↦ elim (Bool-cases (crossed operator value warn_at)) [
        | inl w ↦ rw (c, w) refl
        | inr w ↦ rw (c, w) refl
      ]
    ])

rank-level_by :
    (c w c' w' : Bool)
    → (c ≡ true → c' ≡ true)
    → (w ≡ true → w' ≡ true)
    → rank (level_by c w) ≤ rank (level_by c' w')
rank-level_by true w c' w' f g = rw (f refl) (omega arith)
rank-level_by false true true w' f g = omega arith
rank-level_by false true false w' f g = rw (g refl) (omega arith)
rank-level_by false false c' w' f g = omega arith

-- What is worth being called a threshold: the operator is known, a limit is given, and a value that
-- crosses the critical limit crosses the warning limit too, if there are both.
pub record IsThreshold (operator : String) (warn_at critical_at : Option ℤ) : Type 0 where
  pub operator_lem : is_operator operator ≡ true
  pub some_limit : (is_some warn_at || is_some critical_at) ≡ true
  pub nested :
      (value : ℤ)
      → (not (crossed operator value critical_at)
          || if_some (λ w. crossed operator value (some w)) warn_at)
        ≡ true

in_order-crossed :
    (operator : String) (warn_at critical_at : Option ℤ) (value : ℤ)
    → is_operator operator ≡ true
    → in_order operator warn_at critical_at ≡ ok tt
    → crossed operator value critical_at ≡ true
    → if_some (λ w. crossed operator value (some w)) warn_at ≡ true
unfolding crossed
in_order-crossed operator none critical_at value o e h = refl
in_order-crossed operator (some w) none value o e h = cc
in_order-crossed operator (some w) (some c) value o e h = elim (Bool-cases (str_eq operator "gt")) [
  | inl q ↦ rw q (let h' = rw q at h in let e' = rw q at e in ground (arith, h', e'))
  | inr q ↦
      rw q (
        let h' = rw q at h in
        let e' = rw q at e in let o' = rw q at o in ground (arith, h', e', o'))
]

in_order-Post :
    (operator : String) (warn_at critical_at : Option ℤ)
    → Post
        (λ _. in_order operator warn_at critical_at ≡ ok tt)
        Any
        (in_order operator warn_at critical_at)
in_order-Post operator warn_at critical_at = go (in_order operator warn_at critical_at)
  where
    go : (r : Result ThresholdError (Unit {0})) → Post (λ _. r ≡ ok tt) Any r
    go (ok tt) = returned refl
    go (err e) = raised tt

same_some :
    (a b : Option Limit)
    → (is_finite a && is_finite b) ≡ true
    → (is_some a || is_some b) ≡ true
    → (is_some (limit_value a) || is_some (limit_value b)) ≡ true
same_some none b f h = ground (arith, f, h)
same_some (some a) b f h = ground (arith, f, h)

validate_threshold_values-Post :
    (operator : String) (warn_at critical_at : Option Limit)
    → Post
        (λ _. IsThreshold operator (limit_value warn_at) (limit_value critical_at))
        Any
        (validate_threshold_values operator warn_at critical_at)
unfolding validate_threshold_values
validate_threshold_values-Post operator warn_at critical_at =
    and_then (require-Post (is_operator operator) ThresholdError.unknown_operator) λ _ o.
      and_then (require-Post (is_some warn_at || is_some critical_at) ThresholdError.no_limit)
        λ _ l.
          and_then
            (require-Post (is_finite warn_at && is_finite critical_at) ThresholdError.not_finite)
            λ _ f.
              weaken (in_order-Post operator (limit_value warn_at) (limit_value critical_at)) λ _ e.
                record {
                  operator_lem = o;
                  some_limit = same_some warn_at critical_at f l;
                  nested = λ v. elim (Bool-cases (crossed operator v (limit_value critical_at))) [
                    | inl h ↦ rw h (
                        in_order-crossed operator (limit_value warn_at) (limit_value critical_at) v
                          o e h)
                    | inr h ↦ rw h refl
                  ];
                }

-- What was validated is worth being called a threshold: its operator is known, it has a limit, and a
-- value that crosses the critical limit crosses the warning limit too, if there are both.
pub validate_threshold_values-IsThreshold :
    (operator : String) (warn_at critical_at : Option Limit)
    → validate_threshold_values operator warn_at critical_at ≡ ok tt
    → IsThreshold operator (limit_value warn_at) (limit_value critical_at)
validate_threshold_values-IsThreshold operator warn_at critical_at e = value_of {a = tt} (
    subst (Post (λ _. IsThreshold operator (limit_value warn_at) (limit_value critical_at)) Any) e
      (validate_threshold_values-Post operator warn_at critical_at))

-- For a known operator every value has a level, and a value further on the side of the operator
-- has no milder one.
pub evaluate_level-rank :
    (operator : String) (warn_at critical_at : Option ℤ) (a b : ℤ)
    → is_operator operator ≡ true
    → IsWorse operator a b
    → (levels : ThresholdLevel × ThresholdLevel) × (evaluate_level operator warn_at critical_at a
        ≡ ok levels.0)
      × (evaluate_level operator warn_at critical_at b ≡ ok levels.1)
      × (rank levels.0 ≤ rank levels.1)
evaluate_level-rank operator warn_at critical_at a b o w = (
  (
    level_by (crossed operator a critical_at) (crossed operator a warn_at),
    level_by (crossed operator b critical_at) (crossed operator b warn_at),
  ),
  evaluate_level-level_by operator warn_at critical_at a o,
  evaluate_level-level_by operator warn_at critical_at b o,
  rank-level_by (crossed operator a critical_at) (crossed operator a warn_at)
      (crossed operator b critical_at) (crossed operator b warn_at)
      (crossed-IsWorse operator a b critical_at w) (crossed-IsWorse operator a b warn_at w),
)
