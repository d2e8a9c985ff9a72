-- ===== src/Snmp/Sources.antt =====
-- Which sources a compiled formula reads.
use monitoring_maxval.Base.{true, Option, some, List, ◌≡◌, refl, subst}
use monitoring_maxval.Base.Int.{ℤ}
use monitoring_maxval.Base.Result.{ok, Post, value_of}
use monitoring_maxval.Base.Text.{String, Text}
use monitoring_maxval.Snmp.Oid.{canonical_oid}
use monitoring_maxval.Snmp.Syntax.{Node, Nodes}
use monitoring_maxval.Snmp.Formula.{has_text, CompiledSnmpFormula, compile_snmp_formula}
use monitoring_maxval.Snmp.Valid.{IsValid, AreValid, AreStorage, Any}
use monitoring_maxval.Snmp.Arithmetic.{DecimalArithmetic}
use monitoring_maxval.Snmp.Evaluate.{
  source, evaluate_oid, evaluate_storage, visit, visit_all, evaluate,
}
use monitoring_maxval.Snmp.Sound.{IsCompiled, compile_snmp_formula-Post, IsCompiled-IsValid}

module _ {D : Type 0} (a : DecimalArithmetic D) (v w : Text → Option D) (s : List Text)
    (agree : (oid : Text) → has_text oid s ≡ true → v oid ≡ w oid) where
  source_agree : (oid : Text) → has_text oid s ≡ true → source a v oid ≡ source a w oid
  unfolding source
  source_agree oid h = rw (agree oid h, source) refl

  evaluate_oid_agree :
      (t oid : Text)
      → canonical_oid t ≡ some oid
      → has_text oid s ≡ true
      → evaluate_oid a v (Nodes.more (Node.literal t) Nodes.end)
        ≡ evaluate_oid a w (Nodes.more (Node.literal t) Nodes.end)
  unfolding evaluate_oid
  evaluate_oid_agree t oid c h = rw (c, evaluate_oid) (source_agree oid h)

  evaluate_storage_agree :
      (f : String) (n : ℤ)
      → AreStorage s n
      → evaluate_storage a v f (Nodes.more (Node.whole n) Nodes.end)
        ≡ evaluate_storage a w f (Nodes.more (Node.whole n) Nodes.end)
  unfolding evaluate_storage
  evaluate_storage_agree f n h =
      rw
        (
          h.oids,
          source_agree h.unit h.has_unit,
          source_agree h.total h.has_total,
          source_agree h.used h.has_used,
        )
        refl

  mutual
    unfolding visit visit_all

    visit_agree : {n : Node} → IsValid s n → visit a v n ≡ visit a w n
    visit_agree IsValid.whole = refl
    visit_agree IsValid.float = refl
    visit_agree (IsValid.unit_name h) = rw h refl
    visit_agree (IsValid.unary h i) = rw (h, visit_agree i) refl
    visit_agree (IsValid.binary h i j) = rw (h, visit_agree i, visit_agree j) refl
    visit_agree (IsValid.read_oid {t} {oid} q c h) = rw q (evaluate_oid_agree t oid c h)
    visit_agree (IsValid.read_storage {f} {n} q p h) = rw (q, p) (evaluate_storage_agree f n h)
    visit_agree (IsValid.function q p m c i) = rw (q, p, visit_all_agree i) refl

    visit_all_agree : {ns : Nodes} → AreValid s ns → visit_all a v ns ≡ visit_all a w ns
    visit_all_agree AreValid.end = refl
    visit_all_agree (AreValid.more i is) = rw (visit_agree i, visit_all_agree is) refl

  evaluate_agree :
      (c : CompiledSnmpFormula)
      → c.source_oids ≡ s
      → IsValid s c.tree
      → evaluate a v c ≡ evaluate a w c
  unfolding evaluate
  evaluate_agree c e h = rw (visit_agree h) refl

-- Two polls that agree on the sources which the compiler has listed give the formula the same value
-- or the same error.
pub evaluate-compile_snmp_formula :
    {D : Type 0} (parse : Text → Option Node) (expression : Text) (arithmetic : DecimalArithmetic D)
    (v w : Text → Option D) {formula : CompiledSnmpFormula}
    → compile_snmp_formula parse expression ≡ ok formula
    → ((oid : Text) → has_text oid formula.source_oids ≡ true → v oid ≡ w oid)
    → evaluate arithmetic v formula ≡ evaluate arithmetic w formula
evaluate-compile_snmp_formula parse expression arithmetic v w {formula} p agree =
    let h = value_of (subst (Post IsCompiled Any) p (compile_snmp_formula-Post parse expression)) in
    evaluate_agree arithmetic v w formula.source_oids agree formula refl
      (IsCompiled-IsValid formula h)
