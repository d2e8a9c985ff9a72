-- ===== src/Snmp/Sound.antt =====
-- A compiled formula fails only on the values of a poll, and reads only the sources it was compiled for.
use monitoring_maxval.Base.{
  ◌==◌, ℕ, suc, ◌≤◌, true, false, ◌||◌, Option, none, some, List, [], ◌∷◌, ◌≡◌, refl, ap, inl, inr,
  arith, Bool-cases, Option-cases, length, ltb, if◌then◌else◌, subst,
}
use monitoring_maxval.Base.Int.{ℤ}
use monitoring_maxval.Base.Result.{
  Result, ok, err, ◌>>=◌, Post, returned, raised, and_then, value_of, error_of,
}
use monitoring_maxval.Base.Text.{String, Text, str_eq, strip}
use monitoring_maxval.Snmp.Oid.{canonical_oid}
use monitoring_maxval.Snmp.Syntax.{UnaryOp, BinaryOp, Node, Nodes, FormulaError, is_structural}
use monitoring_maxval.Snmp.Formula.{
  is_simple, is_extremum, has_count, count_args, validate, CompiledSnmpFormula,
  compile_snmp_formula, compiled,
}
use monitoring_maxval.Snmp.Valid.{IsValid, AreValid, AreStorage, validate-Post, Accepts, Any}
use monitoring_maxval.Snmp.Arithmetic.{
  DecimalArithmetic, to_decimal, apply_unary, apply_binary, storage_value, storage_figure,
  free_percent, apply_function, or_signal, round_to, rounded, finite,
}
use monitoring_maxval.Snmp.Evaluate.{
  source, evaluate_oid, evaluate_storage, visit, visit_all, evaluate,
}

-- The error is about the values of a poll.
abbrev IsData : FormulaError → Type 0
IsData e = is_structural e ≡ false

abbrev Anything {ℓ} : {A : Type ℓ} → A → Type ℓ
Anything a = Unit

module _ {D : Type 0} (a : DecimalArithmetic D) (values : Text → Option D) where
  or_signal-Post : {A : Type 0} (o : Option A) → Post Anything IsData (or_signal o)
  unfolding is_structural
  or_signal-Post none = raised refl
  or_signal-Post (some d) = returned tt

  to_decimal-Post : (t : Text) → Post Anything IsData (to_decimal a t)
  unfolding to_decimal is_structural
  to_decimal-Post t = elim (Option-cases (a.of_text t)) [
    | inl e ↦ rw (e, to_decimal) (raised refl)
    | inr (d, e) ↦ elim (Bool-cases (a.is_finite d)) [
      | inl f ↦ rw (e, to_decimal, f) (returned tt)
      | inr f ↦ rw (e, to_decimal, f) (raised refl)
    ]
  ]

  source-Post : (oid : Text) → Post Anything IsData (source a values oid)
  unfolding source is_structural
  source-Post oid = elim (Option-cases (values oid)) [
    | inl e ↦ rw (e, source) (raised refl)
    | inr (d, e) ↦ rw (e, source) (returned tt)
  ]

  apply_unary-Post : (op : UnaryOp) (d : D) → Post Anything IsData (apply_unary a op d)
  unfolding apply_unary
  apply_unary-Post UnaryOp.minus d = or_signal-Post _
  apply_unary-Post UnaryOp.plus d = returned tt
  apply_unary-Post UnaryOp.other d = returned tt

  divide-Post :
      (x y : D)
      → Post Anything IsData
          (if a.is_zero y then err FormulaError.division_by_zero else or_signal (a.div x y))
  unfolding is_structural
  divide-Post x y = elim (Bool-cases (a.is_zero y)) [
    | inl z ↦ rw z (raised refl)
    | inr z ↦ rw z (or_signal-Post _)
  ]

  apply_binary-Post : (op : BinaryOp) (x y : D) → Post Anything IsData (apply_binary a op x y)
  unfolding apply_binary
  apply_binary-Post BinaryOp.add x y = or_signal-Post _
  apply_binary-Post BinaryOp.sub x y = or_signal-Post _
  apply_binary-Post BinaryOp.mul x y = or_signal-Post _
  apply_binary-Post BinaryOp.div x y = divide-Post x y
  apply_binary-Post BinaryOp.other x y = divide-Post x y

  free_percent-Post : (total used : D) → Post Anything IsData (free_percent a total used)
  free_percent-Post total used =
      and_then
        {f = λ free. or_signal (a.mul free (a.of_ℕ 100)) >>= λ share. or_signal (a.div share total)}
        (or_signal-Post (a.sub total used))
        λ free _.
          and_then {f = λ share. or_signal (a.div share total)}
            (or_signal-Post (a.mul free (a.of_ℕ 100))) λ share _. or_signal-Post (a.div share total)

  storage_figure-Post :
      (f : String) (total used : D) → Post Anything IsData (storage_figure a f total used)
  unfolding is_structural
  storage_figure-Post f total used = elim (Bool-cases (str_eq f "hr_storage_total_bytes")) [
    | inl q ↦ rw q (returned tt)
    | inr q ↦ elim (Bool-cases (str_eq f "hr_storage_used_bytes")) [
      | inl r ↦ rw (q, r) (returned tt)
      | inr r ↦ elim (Bool-cases (str_eq f "hr_storage_free_bytes")) [
        | inl t ↦ rw (q, r, t) (or_signal-Post _)
        | inr t ↦ elim (Bool-cases (a.is_zero total)) [
          | inl z ↦ rw (q, r, t, z) (raised refl)
          | inr z ↦ rw (q, r, t, z) (free_percent-Post total used)
        ]
      ]
    ]
  ]

  storage_value-Post : (f : String) (x y z : D) → Post Anything IsData (storage_value a f x y z)
  unfolding storage_value
  storage_value-Post f x y z =
      and_then {f = λ t. or_signal (a.mul z x) >>= λ u. storage_figure a f t u}
        (or_signal-Post (a.mul y x))
        λ t _.
          and_then {f = λ u. storage_figure a f t u} (or_signal-Post (a.mul z x))
            λ u _. storage_figure-Post f t u

  round_to-Post : (d : D) (n : Option ℤ) → Post Anything IsData (round_to a d n)
  unfolding is_structural
  round_to-Post d none = raised refl
  round_to-Post d (some n) = or_signal-Post _

  rounded-Post : (d : D) (rest : List D) → Post Anything IsData (rounded a d rest)
  rounded-Post d [] = or_signal-Post _
  rounded-Post d (p ∷ []) = round_to-Post d _
  rounded-Post d (p ∷ q ∷ rest) = or_signal-Post _

  apply_function-Post :
      (f : String) (d : D) (rest : List D)
      → is_simple f ≡ true
      → Post Anything IsData (apply_function a f (d ∷ rest))
  unfolding apply_function
  apply_function-Post f d rest h = elim (Bool-cases (str_eq f "min")) [
    | inl q ↦ rw q (returned tt)
    | inr q ↦ elim (Bool-cases (str_eq f "max")) [
      | inl r ↦ rw (q, r) (returned tt)
      | inr r ↦ elim (Bool-cases (str_eq f "abs")) [
        | inl t ↦ rw (q, r, t) (or_signal-Post _)
        | inr t ↦ elim (Bool-cases (str_eq f "round")) [
          | inl w ↦ rw (q, r, t, w) (rounded-Post d rest)
          | inr w ↦ absurd {0} (ground (arith, q, r, t, w, h))
        ]
      ]
    ]
  ]

  -- The arguments of a function that wants some are there.
  are_some : (f : String) (n : ℕ) → is_simple f ≡ true → has_count f n ≡ true → 1 ≤ n
  are_some f n h c = elim (Bool-cases (is_extremum f)) [
    | inl e ↦ ground (arith, e, c)
    | inr e ↦ elim (Bool-cases (str_eq f "abs")) [
      | inl g ↦ ground (arith, e, g, c)
      | inr g ↦ ground (arith, e, g, c)
    ]
  ]

  apply_some :
      (f : String) (ds : List D) {n : ℕ}
      → is_simple f ≡ true
      → 1 ≤ n
      → length ds ≡ n
      → Post Anything IsData (apply_function a f ds)
  apply_some f [] h le e = absurd {0} (omega (arith, le, e))
  apply_some f (d ∷ ds) h le e = apply_function-Post f d ds h

  evaluate_oid-Post :
      (t oid : Text)
      → canonical_oid t ≡ some oid
      → Post Anything IsData (evaluate_oid a values (Nodes.more (Node.literal t) Nodes.end))
  unfolding evaluate_oid
  evaluate_oid-Post t oid c = rw (c, evaluate_oid) (source-Post oid)

  evaluate_storage-Post :
      {s : List Text} (f : String) (n : ℤ)
      → AreStorage s n
      → Post Anything IsData (evaluate_storage a values f (Nodes.more (Node.whole n) Nodes.end))
  unfolding evaluate_storage
  evaluate_storage-Post f n h = rw h.oids (
      and_then (source-Post h.unit) λ x _.
        and_then (source-Post h.total)
          λ t _. and_then (source-Post h.used) λ u _. storage_value-Post f x t u)

  mutual
    unfolding visit visit_all

    visit-Post : {s : List Text} {n : Node} → IsValid s n → Post Anything IsData (visit a values n)
    visit-Post IsValid.whole = to_decimal-Post _
    visit-Post IsValid.float = to_decimal-Post _
    visit-Post (IsValid.unit_name h) = rw h (returned tt)
    visit-Post (IsValid.unary {op} h i) =
        rw h (and_then (visit-Post i) λ d _. apply_unary-Post op d)
    visit-Post (IsValid.binary {op} h i j) =
        rw h
          (and_then (visit-Post i) λ x _. and_then (visit-Post j) λ y _. apply_binary-Post op x y)
    visit-Post (IsValid.read_oid {t} {oid} q c h) = rw q (evaluate_oid-Post t oid c)
    visit-Post (IsValid.read_storage {f} {n} q p h) = rw (q, p) (evaluate_storage-Post f n h)
    visit-Post (IsValid.function {f} {args} q p m c i) =
        rw (q, p)
          (and_then {f = λ ds. apply_function a f ds} (visit_all-Post i)
            λ ds e. apply_some f ds m (are_some f (count_args args) m c) e)

    visit_all-Post :
        {s : List Text} {ns : Nodes}
        → AreValid s ns
        → Post (λ ds. length ds ≡ count_args ns) IsData (visit_all a values ns)
    visit_all-Post AreValid.end = returned refl
    visit_all-Post (AreValid.more i is) =
        and_then (visit-Post i) λ d _. and_then (visit_all-Post is) λ ds e. returned (ap suc e)

  finite-Post : (d : D) → Post Anything IsData (finite a d)
  unfolding is_structural
  finite-Post d = elim (Bool-cases (a.is_finite d)) [
    | inl f ↦ rw f (returned tt)
    | inr f ↦ rw f (raised refl)
  ]

  evaluate-Post :
      (c : CompiledSnmpFormula)
      → IsValid c.source_oids c.tree
      → Post Anything IsData (evaluate a values c)
  unfolding evaluate
  evaluate-Post c h = and_then {f = λ d. finite a d} (visit-Post h) λ d _. finite-Post d

-- What the compiler returns was validated.
unfoldable pub IsCompiled : CompiledSnmpFormula → Type 0
IsCompiled c = validate c.tree [] ≡ ok c.source_oids

compiled-Post : (source : Text) (tree : Node) → Post IsCompiled Any (compiled source tree)
unfolding IsCompiled
compiled-Post source tree = go (validate tree []) refl
  where
    go :
        (r : Result FormulaError (List Text))
        → validate tree [] ≡ r
        → Post IsCompiled Any (elim r [
          | err e ↦ err e
          | ok oids ↦ ok (record { expression = source; tree = tree; source_oids = oids })
        ])
    go (err e) q = raised tt
    go (ok oids) q = returned q

pub compile_snmp_formula-Post :
    (parse : Text → Option Node) (expression : Text)
    → Post IsCompiled Any (compile_snmp_formula parse expression)
unfolding compile_snmp_formula
compile_snmp_formula-Post parse expression =
    elim (Bool-cases ((length (strip expression) == 0) || ltb 2000 (length (strip expression)))) [
      | inl q ↦ rw q (raised tt)
      | inr q ↦ rw q (elim (Option-cases (parse (strip expression))) [
        | inl e ↦ rw e (raised tt)
        | inr (tree, e) ↦ rw e (compiled-Post (strip expression) tree)
      ])
    ]

pub IsCompiled-IsValid : (c : CompiledSnmpFormula) → IsCompiled c → IsValid c.source_oids c.tree
unfolding IsCompiled
IsCompiled-IsValid c h =
    (value_of (subst (Post (Accepts [] c.tree) Any) h (validate-Post c.tree []))).1

-- A formula that the compiler accepts is evaluated without an error about the formula: what can
-- still go wrong is a value of the poll (missing, not finite, a zero divisor) or an exception of the
-- decimal arithmetic, for every parser, every arithmetic and all values.
pub compile_snmp_formula-evaluate :
    {D : Type 0} (parse : Text → Option Node) (expression : Text) (arithmetic : DecimalArithmetic D)
    (values : Text → Option D) {formula : CompiledSnmpFormula} {e : FormulaError}
    → compile_snmp_formula parse expression ≡ ok formula
    → evaluate arithmetic values formula ≡ err e
    → is_structural e ≡ false
compile_snmp_formula-evaluate parse expression arithmetic values {formula} p q =
    let h = value_of (subst (Post IsCompiled Any) p (compile_snmp_formula-Post parse expression)) in
    error_of (
      subst (Post Anything IsData) q
        (evaluate-Post arithmetic values formula (IsCompiled-IsValid formula h)))
