-- ===== src/Snmp/Bounds.antt =====
-- How many sources a compiled formula has.
use monitoring_maxval.Base.{
  ◌≤◌, Bool, true, false, Option, List, [], ◌∷◌, ◌++◌, ◌≡◌, refl, inl, inr, arith, Bool-cases,
  Option-cases, length, ltb, if◌then◌else◌, subst,
}
use monitoring_maxval.Base.Rows.{count, count-insert, insert}
use monitoring_maxval.Base.Result.{
  Result, ok, err, ◌>>=◌, Post, returned, raised, and_then, value_of,
}
use monitoring_maxval.Base.Text.{String, Text, str_eq, same_text, same_text-≡}
use monitoring_maxval.Snmp.Oid.{canonical_oid}
use monitoring_maxval.Snmp.Syntax.{is_unary, is_binary, Node, Nodes, FormulaError}
use monitoring_maxval.Snmp.Formula.{
  has_text, is_unit_name, is_storage, is_simple, has_count, count_args, storage_oids, validate,
  CompiledSnmpFormula, compile_snmp_formula, add_source, with_source, validate_oid,
  validate_storage, validate_all, check_places, are_places,
}
use monitoring_maxval.Snmp.Valid.{Any}
use monitoring_maxval.Snmp.Sound.{IsCompiled, compile_snmp_formula-Post}

-- What `add_source` keeps holds of the sources of a whole formula.
module _ {P : List Text → Type 0}
    (keeps : (oid : Text) (s : List Text) → P s → Post P Any (add_source oid s)) where
  validate_oid_keeps : (args : Nodes) (s : List Text) → P s → Post P Any (validate_oid args s)
  unfolding validate_oid
  validate_oid_keeps (Nodes.more (Node.literal t) Nodes.end) s h =
      elim (Option-cases (canonical_oid t)) [
        | inl e ↦ rw (e, validate_oid) (raised tt)
        | inr (o, e) ↦ rw (e, validate_oid) (keeps o s h)
      ]
  validate_oid_keeps _ s h = raised tt

  validate_storage_keeps :
      (args : Nodes) (s : List Text) → P s → Post P Any (validate_storage args s)
  unfolding validate_storage
  validate_storage_keeps (Nodes.more (Node.whole n) Nodes.end) s h = go (storage_oids n)
    where
      go :
          (r : Result FormulaError (Text × Text × Text))
          → Post P Any (
              r >>= λ (unit, total, used).
              add_source unit s >>= λ s'. add_source total s' >>= λ s''. add_source used s'')
      go (err e) = raised tt
      go (ok (unit, total, used)) =
          and_then (keeps unit s h) λ s₁ h₁. and_then (keeps total s₁ h₁) λ s₂ h₂. keeps used s₂ h₂
  validate_storage_keeps _ s h = raised tt

  check_places_keeps :
      (f : String) (args : Nodes) (s : List Text) → P s → Post P Any (check_places f args s)
  check_places_keeps f args s h = elim (Bool-cases (are_places f args)) [
    | inl q ↦ rw q (returned h)
    | inr q ↦ rw q (raised tt)
  ]

  if_keeps :
      (b : Bool) (e : FormulaError) {r : Result FormulaError (List Text)}
      → Post P Any r
      → Post P Any (if b then r else err e)
  if_keeps true e h = h
  if_keeps false e h = raised tt

  mutual
    unfolding validate validate_all

    pub validate_keeps : (n : Node) (s : List Text) → P s → Post P Any (validate n s)
    validate_keeps (Node.whole n) s h = returned h
    validate_keeps (Node.float t) s h = returned h
    validate_keeps (Node.flag b) s h = raised tt
    validate_keeps (Node.literal t) s h = raised tt
    validate_keeps Node.constant s h = raised tt
    validate_keeps Node.other s h = raised tt
    validate_keeps (Node.name x) s h = if_keeps (is_unit_name x) _ (returned h)
    validate_keeps (Node.unary op a) s h = if_keeps (is_unary op) _ (validate_keeps a s h)
    validate_keeps (Node.binary op l r) s h =
        if_keeps (is_binary op) _ (and_then (validate_keeps l s h) λ s₁ i. validate_keeps r s₁ i)
    validate_keeps (Node.call f args true) s h = raised tt
    validate_keeps (Node.call f args false) s h = elim (Bool-cases (str_eq f "oid")) [
      | inl q ↦ rw q (validate_oid_keeps args s h)
      | inr q ↦ elim (Bool-cases (is_storage f)) [
        | inl p ↦ rw (q, p) (validate_storage_keeps args s h)
        | inr p ↦
            rw (q, p)
              (if_keeps (is_simple f) _ (
                if_keeps (has_count f (count_args args)) _
                  (and_then (validate_all_keeps args s h) λ s₁ i. check_places_keeps f args s₁ i)))
      ]
    ]

    validate_all_keeps : (ns : Nodes) (s : List Text) → P s → Post P Any (validate_all ns s)
    validate_all_keeps Nodes.end s h = returned h
    validate_all_keeps (Nodes.more n ns) s h =
        and_then (validate_keeps n s h) λ s₁ i. validate_all_keeps ns s₁ i

-- At most sixteen sources, none of them twice.
pub record AreFew (s : List Text) : Type 0 where
  pub size : length s ≤ 16
  pub once : (t : Text) → count (λ o. same_text o t) s ≤ 1

has_text-count :
    (t : Text) (s : List Text) → has_text t s ≡ false → count (λ o. same_text o t) s ≡ 0
unfolding has_text count
has_text-count t [] h = refl
has_text-count t (o ∷ s) h = ground (arith, has_text-count t s)

once_with :
    (o t : Text) (s : List Text)
    → has_text o s ≡ false
    → count (λ x. same_text x t) s ≤ 1
    → count (λ x. same_text x t) (s ++ (o ∷ [])) ≤ 1
unfolding insert
once_with o t s h le = elim (Bool-cases (same_text o t)) [
  | inl q ↦
      ground (arith, same_text-≡ o t q, has_text-count o s h, count-insert (λ x. same_text x t) o s)
  | inr q ↦ ground (arith, q, le, count-insert (λ x. same_text x t) o s)
]

add_source-AreFew : (o : Text) (s : List Text) → AreFew s → Post AreFew Any (add_source o s)
unfolding add_source
add_source-AreFew o s h = elim (Bool-cases (ltb 16 (length (with_source o s)))) [
  | inl q ↦ rw q (raised tt)
  | inr q ↦ rw q (
      returned (record {
        size = ground (arith, q);
        once = λ t. elim (Bool-cases (has_text o s)) [
          | inl i ↦ rw i (h.once t)
          | inr i ↦ rw i (once_with o t s i (h.once t))
        ];
      }))
]

-- A compiled formula has at most sixteen sources, and none of them twice.
pub compile_snmp_formula-AreFew :
    (parse : Text → Option Node) (expression : Text) {formula : CompiledSnmpFormula}
    → compile_snmp_formula parse expression ≡ ok formula
    → AreFew formula.source_oids
unfolding IsCompiled count
compile_snmp_formula-AreFew parse expression {formula} p =
    let h = value_of (subst (Post IsCompiled Any) p (compile_snmp_formula-Post parse expression)) in
    value_of (
      subst (Post AreFew Any) h (
        validate_keeps add_source-AreFew formula.tree []
          (record { size = omega arith; once = λ t. omega arith })))
