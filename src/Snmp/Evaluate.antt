-- ===== src/Snmp/Evaluate.antt =====
-- `CompiledSnmpFormula.evaluate` (services/snmp_formula.py) on the tree of a formula.
use monitoring_maxval.Base.{Option, none, some, List, [], ◌∷◌, if◌then◌else◌}
use monitoring_maxval.Base.Result.{Result, ok, err, ◌>>=◌}
use monitoring_maxval.Base.Text.{String, Text, str_eq, codes, decimal_ℤ}
use monitoring_maxval.Snmp.Oid.{canonical_oid}
use monitoring_maxval.Snmp.Syntax.{is_unary, is_binary, Node, Nodes, FormulaError}
use monitoring_maxval.Snmp.Formula.{CompiledSnmpFormula, storage_oids, is_storage, is_unit_name}
use monitoring_maxval.Snmp.Arithmetic.{
  DecimalArithmetic, to_decimal, unit_value, apply_unary, apply_binary, storage_value,
  apply_function, finite,
}

module _ {D : Type 0} (arithmetic : DecimalArithmetic D) (values : Text → Option D) where
  unfoldable pub source : Text → Result FormulaError D
  source oid = elim (values oid) [ none ↦ err FormulaError.missing_source | some d ↦ ok d ]

  -- A node that `compile_snmp_formula` refuses as the argument counts as a crash.
  unfoldable pub evaluate_oid : Nodes → Result FormulaError D
  evaluate_oid (Nodes.more (Node.literal t) _) = elim (canonical_oid t) [
    | none ↦ err FormulaError.crash
    | some oid ↦ source oid
  ]
  evaluate_oid _ = err FormulaError.crash

  unfoldable pub evaluate_storage : String → Nodes → Result FormulaError D
  evaluate_storage f (Nodes.more (Node.whole n) _) = do
    (unit, total, used) ← storage_oids n
    a ← source unit
    t ← source total
    u ← source used
    storage_value arithmetic f a t u
  evaluate_storage f _ = err FormulaError.crash

  unfoldable mutual
    pub visit : Node → Result FormulaError D
    visit (Node.whole n) = to_decimal arithmetic (codes (decimal_ℤ n))
    visit (Node.float t) = to_decimal arithmetic t
    visit (Node.flag b) = err FormulaError.not_number
    visit (Node.name x) =
        if is_unit_name x then ok (unit_value arithmetic x) else err FormulaError.bad_construction
    visit (Node.unary op a) =
        let value = visit a >>= λ d. apply_unary arithmetic op d in
        if is_unary op then value else err FormulaError.bad_construction
    visit (Node.binary op l r) =
        let right = visit r in
        let value = visit l >>= λ a. right >>= λ b. apply_binary arithmetic op a b in
        if is_binary op then value else err FormulaError.bad_construction
    visit (Node.call f args keywords) =
        let arguments = visit_all args in
        if str_eq f "oid"
        then evaluate_oid args
        else if is_storage f
        then evaluate_storage f args
        else arguments >>= λ ds. apply_function arithmetic f ds
    visit (Node.literal t) = err FormulaError.bad_construction
    visit Node.constant = err FormulaError.bad_construction
    visit Node.other = err FormulaError.bad_construction

    pub visit_all : Nodes → Result FormulaError (List D)
    visit_all Nodes.end = ok []
    visit_all (Nodes.more n ns) =
        let rest = visit_all ns in visit n >>= λ d. rest >>= λ ds. ok (d ∷ ds)

  unfoldable pub evaluate : CompiledSnmpFormula → Result FormulaError D
  evaluate formula = visit formula.tree >>= λ d. finite arithmetic d
