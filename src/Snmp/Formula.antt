-- ===== src/Snmp/Formula.antt =====
-- `compile_snmp_formula` and `CompiledSnmpFormula.evaluate` (services/snmp_formula.py).
use monitoring_maxval.Base.{
  ℕ, suc, Bool, true, false, ◌&&◌, ◌||◌, not, Option, none, some, List, [], ◌∷◌, ◌++◌, ltb, leb,
  ◌==◌, length, if◌then◌else◌,
}
use monitoring_maxval.Base.Int.{ℤ, pos, negsuc}
use monitoring_maxval.Base.Result.{Result, ok, err, ◌>>=◌}
use monitoring_maxval.Base.Text.{String, Text, same_text, str_eq, codes, decimal, strip, ◌⧺◌}
use monitoring_maxval.Snmp.Oid.{canonical_oid}
use monitoring_maxval.Snmp.Syntax.{is_unary, is_binary, Node, Nodes, FormulaError}

unfoldable pub has_text : Text → List Text → Bool
has_text t [] = false
has_text t (s ∷ ss) = same_text s t || has_text t ss

abbrev pub is_unit_name : String → Bool
is_unit_name x = str_eq x "KiB" || str_eq x "MiB" || str_eq x "GiB"

abbrev pub is_storage : String → Bool
is_storage f =
    str_eq f "hr_storage_total_bytes"
    || str_eq f "hr_storage_used_bytes"
    || str_eq f "hr_storage_free_bytes"
    || str_eq f "hr_storage_free_percent"

-- `min` and `max`
abbrev pub is_extremum : String → Bool
is_extremum f = str_eq f "min" || str_eq f "max"

abbrev pub is_simple : String → Bool
is_simple f = is_extremum f || str_eq f "abs" || str_eq f "round"

abbrev storage_oid : ℕ → ℕ → Text
storage_oid column index = codes ("1.3.6.1.2.1.25.2.3.1." ⧺ decimal column ⧺ "." ⧺ decimal index)

-- `_storage_oids`: the sources of the unit, the size and the use.
unfoldable pub storage_oids : ℤ → Result FormulaError (Text × Text × Text)
storage_oids (negsuc n) = err FormulaError.bad_index
storage_oids (pos n) =
    if leb 1 n && leb n 2147483647
    then ok (storage_oid 4 n, storage_oid 5 n, storage_oid 6 n)
    else err FormulaError.bad_index

abbrev pub with_source : Text → List Text → List Text
with_source oid sources = if has_text oid sources then sources else sources ++ (oid ∷ [])

unfoldable pub add_source : Text → List Text → Result FormulaError (List Text)
unfolding has_text
add_source oid sources =
    if ltb 16 (length (with_source oid sources))
    then err FormulaError.too_many_sources
    else ok (with_source oid sources)

unfoldable pub validate_oid : Nodes → List Text → Result FormulaError (List Text)
validate_oid (Nodes.more (Node.literal t) Nodes.end) sources = elim (canonical_oid t) [
  | none ↦ err FormulaError.bad_oid
  | some oid ↦ add_source oid sources
]
validate_oid _ sources = err FormulaError.bad_oid_argument

unfoldable pub validate_storage : Nodes → List Text → Result FormulaError (List Text)
validate_storage (Nodes.more (Node.whole n) Nodes.end) sources = do
  (unit, total, used) ← storage_oids n
  s ← add_source unit sources
  s' ← add_source total s
  add_source used s'
validate_storage _ sources = err FormulaError.bad_index_argument

abbrev pub count_args : Nodes → ℕ
count_args Nodes.end = 0
count_args (Nodes.more n ns) = suc (count_args ns)

-- `allowed_counts`
abbrev pub has_count : String → ℕ → Bool
has_count f n =
    if is_extremum f then leb 2 n else if str_eq f "abs" then n == 1 else leb 1 n && leb n 2

-- The second argument of `round` is an integer from 0 to 9.
abbrev pub are_places : String → Nodes → Bool
are_places f (Nodes.more _ (Nodes.more (Node.whole (pos n)) Nodes.end)) =
    not (str_eq f "round") || leb n 9
are_places f (Nodes.more _ (Nodes.more _ Nodes.end)) = not (str_eq f "round")
are_places f _ = true

abbrev pub check_places : String → Nodes → List Text → Result FormulaError (List Text)
check_places f args sources = if are_places f args then ok sources else err FormulaError.bad_places

unfoldable mutual
  -- The sources with those of the node, or the error.
  pub validate : Node → List Text → Result FormulaError (List Text)
  validate (Node.whole n) s = ok s
  validate (Node.float t) s = ok s
  validate (Node.flag b) s = err FormulaError.bad_constant
  validate (Node.literal t) s = err FormulaError.bad_constant
  validate Node.constant s = err FormulaError.bad_constant
  validate (Node.name x) s = if is_unit_name x then ok s else err FormulaError.unknown_name
  validate (Node.unary op a) s =
      let operand = validate a s in if is_unary op then operand else err FormulaError.not_allowed
  validate (Node.binary op l r) s =
      let operands = validate l s >>= λ s'. validate r s' in
      if is_binary op then operands else err FormulaError.not_allowed
  validate (Node.call f args keywords) s =
      let all_arguments = validate_all args s in
      if keywords
      then err FormulaError.bad_function
      else if str_eq f "oid"
      then validate_oid args s
      else if is_storage f
      then validate_storage args s
      else if is_simple f
      then (if has_count f (count_args args)
          then (all_arguments >>= λ s'. check_places f args s')
          else err FormulaError.bad_count)
      else err FormulaError.bad_function
  validate Node.other s = err FormulaError.not_allowed

  pub validate_all : Nodes → List Text → Result FormulaError (List Text)
  validate_all Nodes.end s = ok s
  validate_all (Nodes.more n ns) s = validate n s >>= λ s'. validate_all ns s'

pub record CompiledSnmpFormula : Type 0 where
  pub expression : Text
  pub tree : Node
  pub source_oids : List Text

abbrev pub compiled : Text → Node → Result FormulaError CompiledSnmpFormula
compiled source tree = elim (validate tree []) [
  | err e ↦ err e
  | ok oids ↦ ok (record { expression = source; tree = tree; source_oids = oids })
]

-- `parse` is `ast.parse` in the mode of expressions, `none` its `SyntaxError`.
unfoldable pub compile_snmp_formula :
    (Text → Option Node) → Text → Result FormulaError CompiledSnmpFormula
compile_snmp_formula parse expression =
    let source = strip expression in
    if (length source == 0) || ltb 2000 (length source)
    then err FormulaError.bad_length
    else elim (parse source) [
      | none ↦ err FormulaError.bad_syntax
      | some tree ↦ compiled source tree
    ]
