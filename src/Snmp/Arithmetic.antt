-- ===== src/Snmp/Arithmetic.antt =====
-- The operators and functions of `CompiledSnmpFormula.evaluate`. The decimal arithmetic, with its context, is the interface
-- `DecimalArithmetic`.
use monitoring_maxval.Base.{ℕ, Bool, Option, none, some, List, [], ◌∷◌, if◌then◌else◌, ◌||◌}
use monitoring_maxval.Base.Int.{ℤ, pos}
use monitoring_maxval.Base.Result.{Result, ok, err, ◌>>=◌}
use monitoring_maxval.Base.Text.{String, Text, str_eq}
use monitoring_maxval.Snmp.Syntax.{UnaryOp, BinaryOp, FormulaError}

-- What the code uses of the decimal module. `none` is an exception, for `of_text` that of a text that
-- is no number. `quantize n a` rounds to n places, half up.
pub record DecimalArithmetic (D : Type 0) : Type 0 where
  pub of_text : Text → Option D
  pub of_ℕ : ℕ → D
  pub is_finite : D → Bool
  pub is_zero : D → Bool
  pub less : D → D → Bool
  pub add : D → D → Option D
  pub sub : D → D → Option D
  pub mul : D → D → Option D
  pub div : D → D → Option D
  pub negate : D → Option D
  pub absolute : D → Option D
  pub quantize : ℤ → D → Option D
  pub to_int : D → Option ℤ

abbrev pub or_signal {ℓ} : {A : Type ℓ} → Option A → Result FormulaError A
or_signal none = err FormulaError.signal
or_signal (some a) = ok a

module _ {D : Type 0} (arithmetic : DecimalArithmetic D) where
  -- `_decimal`
  unfoldable pub to_decimal : Text → Result FormulaError D
  to_decimal t = elim (arithmetic.of_text t) [
    | none ↦ err FormulaError.not_number
    | some d ↦ if arithmetic.is_finite d then ok d else err FormulaError.not_finite
  ]

  -- `KIB`, `MIB` and `GIB`
  unfoldable pub unit_value : String → D
  unit_value x =
      if str_eq x "KiB"
      then arithmetic.of_ℕ 1024
      else if str_eq x "MiB"
      then arithmetic.of_ℕ 1048576
      else arithmetic.of_ℕ 1073741824

  unfoldable pub apply_unary : UnaryOp → D → Result FormulaError D
  apply_unary UnaryOp.minus a = or_signal (arithmetic.negate a)
  apply_unary _ a = ok a

  unfoldable pub apply_binary : BinaryOp → D → D → Result FormulaError D
  apply_binary BinaryOp.add a b = or_signal (arithmetic.add a b)
  apply_binary BinaryOp.sub a b = or_signal (arithmetic.sub a b)
  apply_binary BinaryOp.mul a b = or_signal (arithmetic.mul a b)
  apply_binary _ a b =
      if arithmetic.is_zero b
      then err FormulaError.division_by_zero
      else or_signal (arithmetic.div a b)

  abbrev pub free_percent : D → D → Result FormulaError D
  free_percent total used = do
    free ← or_signal (arithmetic.sub total used)
    share ← or_signal (arithmetic.mul free (arithmetic.of_ℕ 100))
    or_signal (arithmetic.div share total)

  abbrev pub storage_figure : String → D → D → Result FormulaError D
  storage_figure f total used =
      if str_eq f "hr_storage_total_bytes"
      then ok total
      else if str_eq f "hr_storage_used_bytes"
      then ok used
      else if str_eq f "hr_storage_free_bytes"
      then or_signal (arithmetic.sub total used)
      else if arithmetic.is_zero total
      then err FormulaError.empty_storage
      else free_percent total used

  -- The four functions of a storage, from its unit, its size and its use.
  unfoldable pub storage_value : String → D → D → D → Result FormulaError D
  storage_value f allocation total used = do
    total_bytes ← or_signal (arithmetic.mul total allocation)
    used_bytes ← or_signal (arithmetic.mul used allocation)
    storage_figure f total_bytes used_bytes

  abbrev smaller : D → D → D
  smaller best d = if arithmetic.less d best then d else best

  abbrev larger : D → D → D
  larger best d = if arithmetic.less best d then d else best

  unfoldable pub extremum : (D → D → D) → D → List D → D
  extremum choose best [] = best
  extremum choose best (d ∷ ds) = extremum choose (choose best d) ds

  abbrev pub round_to : D → Option ℤ → Result FormulaError D
  round_to a none = err FormulaError.signal
  round_to a (some n) = or_signal (arithmetic.quantize n a)

  abbrev pub rounded : D → List D → Result FormulaError D
  rounded a (p ∷ []) = round_to a (arithmetic.to_int p)
  rounded a _ = or_signal (arithmetic.quantize (pos 0) a)

  -- The functions of evaluated arguments.
  unfoldable pub apply_function : String → List D → Result FormulaError D
  apply_function f [] = err (
      if str_eq f "min" || str_eq f "max" || str_eq f "abs" || str_eq f "round"
      then FormulaError.crash
      else FormulaError.unknown_function)
  apply_function f (a ∷ rest) =
      if str_eq f "min"
      then ok (extremum smaller a rest)
      else if str_eq f "max"
      then ok (extremum larger a rest)
      else if str_eq f "abs"
      then or_signal (arithmetic.absolute a)
      else if str_eq f "round"
      then rounded a rest
      else err FormulaError.unknown_function

  abbrev pub finite : D → Result FormulaError D
  finite d = if arithmetic.is_finite d then ok d else err FormulaError.not_finite
