-- ===== src/Snmp/Valid.antt =====
-- What the compiler of formulas has made sure of.
use monitoring_maxval.Base.{
  Bool, true, false, some, List, [], ◌∷◌, ◌++◌, ◌≡◌, refl, subst, inl, inr, arith, Bool-cases,
  Option-cases, length, ltb, or_true,
}
use monitoring_maxval.Base.Int.{ℤ}
use monitoring_maxval.Base.Result.{Result, ok, err, ◌>>=◌, Post, returned, raised, and_then, weaken}
use monitoring_maxval.Base.Text.{String, Text, same_text_refl, str_eq}
use monitoring_maxval.Snmp.Oid.{canonical_oid}
use monitoring_maxval.Snmp.Syntax.{
  is_unary, is_binary, UnaryOp, BinaryOp, Node, Nodes, FormulaError,
}
use monitoring_maxval.Snmp.Formula.{
  has_text, is_unit_name, is_storage, is_simple, has_count, count_args, storage_oids, add_source,
  with_source, validate_oid, validate_storage, validate, validate_all, check_places, are_places,
}

-- All sources of the first list stand in the second.
pub record Extends (s s' : List Text) : Type 0 where
  pub keeps : (oid : Text) → has_text oid s ≡ true → has_text oid s' ≡ true

Extends-refl : {s : List Text} → Extends s s
Extends-refl = record { keeps = λ oid h. h }

pub record AreStorage (s : List Text) (n : ℤ) : Type 0 where
  pub unit : Text
  pub total : Text
  pub used : Text
  pub oids : storage_oids n ≡ ok (unit, total, used)
  pub has_unit : has_text unit s ≡ true
  pub has_total : has_text total s ≡ true
  pub has_used : has_text used s ≡ true

-- A node that the compiler accepts, its sources being among these.
mutual
  pub data IsValid (s : List Text) : Node → Type 0 where
    whole : {n : ℤ} → IsValid s (Node.whole n)
    float : {t : Text} → IsValid s (Node.float t)
    unit_name : {x : String} → is_unit_name x ≡ true → IsValid s (Node.name x)
    unary :
        {op : UnaryOp} {a : Node} → is_unary op ≡ true → IsValid s a → IsValid s (Node.unary op a)
    binary :
        {op : BinaryOp} {l r : Node}
        → is_binary op ≡ true
        → IsValid s l
        → IsValid s r
        → IsValid s (Node.binary op l r)
    read_oid :
        {f : String} {t oid : Text} {k : Bool}
        → str_eq f "oid" ≡ true
        → canonical_oid t ≡ some oid
        → has_text oid s ≡ true
        → IsValid s (Node.call f (Nodes.more (Node.literal t) Nodes.end) k)
    read_storage :
        {f : String} {n : ℤ} {k : Bool}
        → str_eq f "oid" ≡ false
        → is_storage f ≡ true
        → AreStorage s n
        → IsValid s (Node.call f (Nodes.more (Node.whole n) Nodes.end) k)
    function :
        {f : String} {args : Nodes} {k : Bool}
        → str_eq f "oid" ≡ false
        → is_storage f ≡ false
        → is_simple f ≡ true
        → has_count f (count_args args) ≡ true
        → AreValid s args
        → IsValid s (Node.call f args k)

  pub data AreValid (s : List Text) : Nodes → Type 0 where
    end : AreValid s Nodes.end
    more : {n : Node} {ns : Nodes} → IsValid s n → AreValid s ns → AreValid s (Nodes.more n ns)

AreStorage-Extends : {s s' : List Text} {n : ℤ} → Extends s s' → AreStorage s n → AreStorage s' n
AreStorage-Extends e h = record {
  unit = h.unit;
  total = h.total;
  used = h.used;
  oids = h.oids;
  has_unit = e.keeps h.unit h.has_unit;
  has_total = e.keeps h.total h.has_total;
  has_used = e.keeps h.used h.has_used;
}

mutual
  IsValid-Extends : {s s' : List Text} {n : Node} → Extends s s' → IsValid s n → IsValid s' n
  IsValid-Extends e whole = whole
  IsValid-Extends e float = float
  IsValid-Extends e (unit_name h) = unit_name h
  IsValid-Extends e (unary h a) = unary h (IsValid-Extends e a)
  IsValid-Extends e (binary h l r) = binary h (IsValid-Extends e l) (IsValid-Extends e r)
  IsValid-Extends e (read_oid {oid} q c h) = read_oid q c (e.keeps oid h)
  IsValid-Extends e (read_storage q p h) = read_storage q p (AreStorage-Extends e h)
  IsValid-Extends e (function q p m c h) = function q p m c (AreValid-Extends e h)

  AreValid-Extends : {s s' : List Text} {ns : Nodes} → Extends s s' → AreValid s ns → AreValid s' ns
  AreValid-Extends e end = end
  AreValid-Extends e (more h hs) = more (IsValid-Extends e h) (AreValid-Extends e hs)

-- Any error.
abbrev pub Any : FormulaError → Type 0
Any e = Unit

has_text-append_left :
    (o : Text) (s s' : List Text) → has_text o s ≡ true → has_text o (s ++ s') ≡ true
unfolding has_text
has_text-append_left o [] s' h = cc
has_text-append_left o (x ∷ s) s' h = ground (arith, has_text-append_left o s s')

has_text-append_self : (o : Text) (s : List Text) → has_text o (s ++ (o ∷ [])) ≡ true
unfolding has_text
has_text-append_self o [] = rw (same_text_refl o) refl
has_text-append_self o (x ∷ s) = rw (has_text-append_self o s) (or_true _)

add_source-Post :
    (o : Text) (s : List Text)
    → Post (λ s'. Extends s s' × (has_text o s' ≡ true)) Any (add_source o s)
unfolding add_source
add_source-Post o s = elim (Bool-cases (ltb 16 (length (with_source o s)))) [
  | inl q ↦ rw q (raised tt)
  | inr q ↦ rw q (
      returned (elim (Bool-cases (has_text o s)) [
        | inl h ↦ rw h (Extends-refl, h)
        | inr h ↦ rw h (
          record { keeps = λ p i. has_text-append_left p s (o ∷ []) i },
          has_text-append_self o s,
        )
      ]))
]

abbrev pub Accepts : List Text → Node → List Text → Type 0
Accepts s n s' = Extends s s' × IsValid s' n

abbrev AcceptsAll : List Text → Nodes → List Text → Type 0
AcceptsAll s ns s' = Extends s s' × AreValid s' ns

validate_oid-Post :
    (f : String) (args : Nodes) (k : Bool) (s : List Text)
    → str_eq f "oid" ≡ true
    → Post (Accepts s (Node.call f args k)) Any (validate_oid args s)
unfolding validate_oid
validate_oid-Post f (Nodes.more (Node.literal t) Nodes.end) k s q =
    elim (Option-cases (canonical_oid t)) [
      | inl e ↦ rw (e, validate_oid) (raised tt)
      | inr (o, e) ↦
          rw (e, validate_oid) (weaken (add_source-Post o s) (λ s' h. (h.0, read_oid q e h.1)))
    ]
validate_oid-Post f _ k s q = raised tt

Extends-trans : {s t u : List Text} → Extends s t → Extends t u → Extends s u
Extends-trans e f = record { keeps = λ o h. f.keeps o (e.keeps o h) }

validate_storage-Post :
    (f : String) (args : Nodes) (k : Bool) (s : List Text)
    → str_eq f "oid" ≡ false
    → is_storage f ≡ true
    → Post (Accepts s (Node.call f args k)) Any (validate_storage args s)
unfolding validate_storage
validate_storage-Post f (Nodes.more (Node.whole n) Nodes.end) k s q p = go (storage_oids n) refl
  where
    go :
        (r : Result FormulaError (Text × Text × Text))
        → storage_oids n ≡ r
        → Post (Accepts s (Node.call f (Nodes.more (Node.whole n) Nodes.end) k)) Any (
            r >>= λ (unit, total, used).
            add_source unit s >>= λ s'. add_source total s' >>= λ s''. add_source used s'')
    go (err e) r = raised tt
    go (ok (unit, total, used)) r = and_then (add_source-Post unit s) λ s₁ h₁.
        and_then (add_source-Post total s₁) λ s₂ h₂. weaken (add_source-Post used s₂) λ s₃ h₃. (
          Extends-trans h₁.0 (Extends-trans h₂.0 h₃.0),
          read_storage q p (record {
            unit = unit;
            total = total;
            used = used;
            oids = r;
            has_unit = h₃.0.keeps unit (h₂.0.keeps unit h₁.1);
            has_total = h₃.0.keeps total h₂.1;
            has_used = h₃.1;
          }),
        )
validate_storage-Post f _ k s q p = raised tt

check_places-Post :
    (f : String) (args : Nodes) (s : List Text) → Post (λ s'. s ≡ s') Any (check_places f args s)
check_places-Post f args s = elim (Bool-cases (are_places f args)) [
  | inl h ↦ rw h (returned refl)
  | inr h ↦ rw h (raised tt)
]

mutual
  unfolding validate validate_all

  pub validate-Post : (n : Node) (s : List Text) → Post (Accepts s n) Any (validate n s)
  validate-Post (Node.whole n) s = returned (Extends-refl, whole)
  validate-Post (Node.float t) s = returned (Extends-refl, float)
  validate-Post (Node.flag b) s = raised tt
  validate-Post (Node.literal t) s = raised tt
  validate-Post Node.constant s = raised tt
  validate-Post Node.other s = raised tt
  validate-Post (Node.name x) s = elim (Bool-cases (is_unit_name x)) [
    | inl h ↦ rw h (returned (Extends-refl, unit_name h))
    | inr h ↦ rw h (raised tt)
  ]
  validate-Post (Node.unary op a) s = elim (Bool-cases (is_unary op)) [
    | inl h ↦ rw h (weaken (validate-Post a s) (λ s' i. (i.0, unary h i.1)))
    | inr h ↦ rw h (raised tt)
  ]
  validate-Post (Node.binary op l r) s = elim (Bool-cases (is_binary op)) [
    | inl h ↦ rw h (
        and_then (validate-Post l s) λ s₁ i.
          weaken (validate-Post r s₁)
            λ s₂ j. (Extends-trans i.0 j.0, binary h (IsValid-Extends j.0 i.1) j.1))
    | inr h ↦ rw h (raised tt)
  ]
  validate-Post (Node.call f args true) s = raised tt
  validate-Post (Node.call f args false) s = elim (Bool-cases (str_eq f "oid")) [
    | inl q ↦ rw q (validate_oid-Post f args false s q)
    | inr q ↦ elim (Bool-cases (is_storage f)) [
      | inl p ↦ rw (q, p) (validate_storage-Post f args false s q p)
      | inr p ↦ elim (Bool-cases (is_simple f)) [
        | inr m ↦ rw (q, p, m) (raised tt)
        | inl m ↦ elim (Bool-cases (has_count f (count_args args))) [
          | inr c ↦ rw (q, p, m, c) (raised tt)
          | inl c ↦
              rw (q, p, m, c)
                (and_then (validate_all-Post args s) λ s₁ i.
                  weaken (check_places-Post f args s₁) λ s₂ e.
                    subst (Accepts s (Node.call f args false)) e (i.0, function q p m c i.1))
        ]
      ]
    ]
  ]

  validate_all-Post : (ns : Nodes) (s : List Text) → Post (AcceptsAll s ns) Any (validate_all ns s)
  validate_all-Post Nodes.end s = returned (Extends-refl, end)
  validate_all-Post (Nodes.more n ns) s = and_then (validate-Post n s) λ s₁ i.
      weaken (validate_all-Post ns s₁)
        λ s₂ j. (Extends-trans i.0 j.0, more (IsValid-Extends j.0 i.1) j.1)
