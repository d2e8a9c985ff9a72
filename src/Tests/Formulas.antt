-- ===== src/Tests/Formulas.antt =====
-- Runs of the formulas on the quotient of two readings, with an arithmetic on whole numbers.
use monitoring_maxval.Schedules.{split_on}
use monitoring_maxval.Base.{
  arith, ℕ, ◌+◌, ◌-◌, ◌*◌, ◌/◌, true, false, Option, none, some, [], ◌∷◌, ◌≡◌, refl, ltb, ◌==◌,
  if◌then◌else◌,
}
use monitoring_maxval.Base.Int.{ℤ, pos}
use monitoring_maxval.Base.Result.{ok, err}
use monitoring_maxval.Base.Text.{String, Text, codes, py_int_codes, same_text, strip}
use monitoring_maxval.Snmp.Oid.{canonical_oid}
use monitoring_maxval.Snmp.Syntax.{BinaryOp, Node, Nodes, FormulaError, is_structural}
use monitoring_maxval.Snmp.Formula.{
  CompiledSnmpFormula, compile_snmp_formula, has_text, validate, validate_oid, add_source,
}
use monitoring_maxval.Snmp.Arithmetic.{DecimalArithmetic, apply_binary}
use monitoring_maxval.Snmp.Evaluate.{evaluate, visit, evaluate_oid, source}
use monitoring_maxval.Snmp.Sound.{compile_snmp_formula-evaluate}
use monitoring_maxval.Snmp.Sources.{evaluate-compile_snmp_formula}
use monitoring_maxval.Snmp.Bounds.{AreFew, compile_snmp_formula-AreFew}

abbrev whole_of : Option ℤ → Option ℕ
whole_of (some (pos n)) = some n
whole_of _ = none

abbrev whole_numbers : DecimalArithmetic ℕ
whole_numbers = record {
  of_text = λ t. whole_of (py_int_codes t);
  of_ℕ = λ n. n;
  is_finite = λ n. true;
  is_zero = λ n. n == 0;
  less = ltb;
  add = λ m n. some (m + n);
  sub = λ m n. if ltb m n then none else some (m - n);
  mul = λ m n. some (m * n);
  div = λ m n. if n == 0 then none else some (m / n);
  negate = λ n. if n == 0 then some 0 else none;
  absolute = λ n. some n;
  quantize = λ p n. some n;
  to_int = λ n. some (pos n);
}

abbrev read : String → Node
read oid = Node.call "oid" (Nodes.more (Node.literal (codes oid)) Nodes.end) false

-- oid(".1.3.6") / oid("1.3.7")
abbrev quotient : Node
quotient = Node.binary BinaryOp.div (read ".1.3.6") (read "1.3.7")

abbrev parse : Text → Option Node
parse t = if same_text t (codes "a/b") then some quotient else none

abbrev formula : CompiledSnmpFormula
formula = record {
  expression = codes "a/b";
  tree = quotient;
  source_oids = codes "1.3.6" ∷ codes "1.3.7" ∷ [];
}

abbrev poll : ℕ → Text → Option ℕ
poll n oid =
    if same_text (codes "1.3.6") oid
    then some 84
    else if same_text (codes "1.3.7") oid
    then some 2
    else some n

abbrev partial_poll : Text → Option ℕ
partial_poll oid = if same_text (codes "1.3.6") oid then some 84 else none

compile_runs : compile_snmp_formula parse (codes " a/b ") ≡ ok formula
unfolding compile_snmp_formula strip validate validate_oid canonical_oid split_on add_source
compile_runs = refl

evaluate_runs : evaluate whole_numbers (poll 0) formula ≡ ok 42
unfolding evaluate visit evaluate_oid canonical_oid split_on strip source apply_binary
evaluate_runs = refl

evaluate_misses : evaluate whole_numbers partial_poll formula ≡ err FormulaError.missing_source
unfolding evaluate visit evaluate_oid canonical_oid split_on strip source
evaluate_misses = refl

compile_refuses : compile_snmp_formula parse (codes "a//b") ≡ err FormulaError.bad_syntax
unfolding compile_snmp_formula strip
compile_refuses = refl

compile_snmp_formula-evaluate_example : is_structural FormulaError.missing_source ≡ false
compile_snmp_formula-evaluate_example =
    compile_snmp_formula-evaluate parse (codes " a/b ") whole_numbers partial_poll compile_runs
      evaluate_misses

agree :
    (oid : Text)
    → has_text oid (codes "1.3.6" ∷ codes "1.3.7" ∷ []) ≡ true
    → poll 0 oid ≡ poll 1 oid
unfolding has_text
agree oid h = ground (arith, h)

evaluate-compile_snmp_formula_example :
    evaluate whole_numbers (poll 0) formula ≡ evaluate whole_numbers (poll 1) formula
evaluate-compile_snmp_formula_example =
    evaluate-compile_snmp_formula parse (codes " a/b ") whole_numbers (poll 0) (poll 1) compile_runs
      agree

compile_snmp_formula-AreFew_example : AreFew (codes "1.3.6" ∷ codes "1.3.7" ∷ [])
compile_snmp_formula-AreFew_example =
    compile_snmp_formula-AreFew parse (codes " a/b ") {formula = formula} compile_runs
