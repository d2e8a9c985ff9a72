-- ===== src/Thresholds/Level.antt =====
-- The level of a value and the validation of a threshold. Values count units of 10^-10, the last place
-- of the columns of readings; the rounding of `float` is left out.
use monitoring_maxval.Base.{
  ℕ, ◌+◌, Bool, true, false, ◌&&◌, ◌||◌, not, Option, none, some, if◌then◌else◌, is_some, ltb,
}
use monitoring_maxval.Base.Int.{ℤ, pos, negsuc, ltb_ℤ, sub_ℕ}
use monitoring_maxval.Base.Result.{Result, ok, err, ◌>>◌, require}
use monitoring_maxval.Base.Text.{String, str_eq}

pub data ThresholdLevel : Type 0 where
  normal warning critical : ThresholdLevel

pub data ThresholdError : Type 0 where
  unknown_operator no_limit not_finite critical_below_warning critical_above_warning :
      ThresholdError

abbrev pub is_operator : String → Bool
is_operator operator = str_eq operator "gt" || str_eq operator "lt"

-- `crossed`, for a known operator
unfoldable pub crossed : String → ℤ → Option ℤ → Bool
crossed operator value none = false
crossed operator value (some limit) =
    if str_eq operator "gt" then ltb_ℤ limit value else ltb_ℤ value limit

-- An unknown operator raises as soon as there is a limit to compare with.
unfoldable pub evaluate_level :
    String → Option ℤ → Option ℤ → ℤ → Result ThresholdError ThresholdLevel
evaluate_level operator warn_at critical_at value =
    if not (is_operator operator) && (is_some critical_at || is_some warn_at)
    then err ThresholdError.unknown_operator
    else if crossed operator value critical_at
    then ok ThresholdLevel.critical
    else if crossed operator value warn_at
    then ok ThresholdLevel.warning
    else ok ThresholdLevel.normal

-- A limit that comes from a form: a number, or one of the floats that are none.
pub data Limit : Type 0 where
  finite : ℤ → Limit
  infinite : Limit

abbrev pub is_finite : Option Limit → Bool
is_finite (some infinite) = false
is_finite _ = true

abbrev pub limit_value : Option Limit → Option ℤ
limit_value (some (finite a)) = some a
limit_value _ = none

abbrev pub in_order : String → Option ℤ → Option ℤ → Result ThresholdError (Unit {0})
in_order operator (some warn_at) (some critical_at) =
    if str_eq operator "gt" && ltb_ℤ critical_at warn_at
    then err ThresholdError.critical_below_warning
    else if str_eq operator "lt" && ltb_ℤ warn_at critical_at
    then err ThresholdError.critical_above_warning
    else ok tt
in_order operator _ _ = ok tt

unfoldable pub validate_threshold_values :
    String → Option Limit → Option Limit → Result ThresholdError (Unit {0})
validate_threshold_values operator warn_at critical_at = do
  require (is_operator operator) ThresholdError.unknown_operator
  require (is_some warn_at || is_some critical_at) ThresholdError.no_limit
  require (is_finite warn_at && is_finite critical_at) ThresholdError.not_finite
  in_order operator (limit_value warn_at) (limit_value critical_at)

-- `_counter_total` of two counters
unfoldable pub counter_total : Option ℕ → Option ℕ → Option ℕ
counter_total (some a) (some b) = some (a + b)
counter_total _ _ = none

unfoldable pub safe_counter_delta : Option ℕ → Option ℕ → Option ℕ
safe_counter_delta (some current) (some previous) =
    if ltb current previous
    then none
    else elim (sub_ℕ current previous) [ pos n ↦ some n | negsuc n ↦ none ]
safe_counter_delta _ _ = none
