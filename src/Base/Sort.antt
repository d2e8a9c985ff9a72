-- ===== src/Base/Sort.antt =====
-- `ORDER BY`: the rows sorted by a test that tells which of two rows comes first.
use Prim.Native.Nat.{◌+◌}
use mathlib.Core.Path.{◌≡◌, refl, subst}
use mathlib.Core.Logic.{inl, inr}
use mathlib.Core.Bool.{Bool, true}
use mathlib.Core.List.{List, [], ◌∷◌}
use native.Mathlib.Omega.{arith}
use monitoring_maxval.Base.Lists.{keep}
use monitoring_maxval.Base.Tests.{Bool-cases, if◌then◌else◌, bit}
use monitoring_maxval.Base.Rows.{In, count, insert}

module _ {A : Type 0} (first : A → A → Bool) where
  unfoldable pub place : A → List A → List A
  place a [] = a ∷ []
  place a (x ∷ xs) = let rest = place a xs in if first x a then x ∷ rest else a ∷ x ∷ xs

  unfoldable pub sort : List A → List A
  sort [] = []
  sort (x ∷ xs) = place x (sort xs)

  count-place : (p : A → Bool) (a : A) (xs : List A) → count p (place a xs) ≡ bit (p a) + count p xs
  unfolding place count
  count-place p a [] = refl
  count-place p a (x ∷ xs) = ground (arith, count-place p a xs)

  -- Sorting loses no row and adds none.
  pub count-sort : (p : A → Bool) (xs : List A) → count p (sort xs) ≡ count p xs
  unfolding sort count
  count-sort p [] = refl
  count-sort p (x ∷ xs) = ground (arith, count-place p x (sort xs), count-sort p xs)

  -- The row comes before each of these.
  abbrev pub IsAhead : A → List A → Type 0
  IsAhead a [] = Unit
  IsAhead a (x ∷ xs) = (first a x ≡ true) × IsAhead a xs

  -- A new row that comes before all others stands in front.
  pub sort-insert : (a : A) (xs : List A) → IsAhead a xs → sort (insert a xs) ≡ a ∷ sort xs
  unfolding sort place insert
  sort-insert a [] h = refl
  sort-insert a (x ∷ xs) h = rw (sort-insert a xs h.1) (rw h.0)

module _ {A : Type 0} where
  pub In-keep : (p : A → Bool) {a : A} (xs : List A) → In a (keep p xs) → In a xs × (p a ≡ true)
  In-keep p [] i = absurd i
  In-keep p {a} (x ∷ xs) i = elim (Bool-cases (p x)) [
    | inl q ↦ elim (rw q at i) [
      | inl e ↦ (inl e, subst (λ y. p y ≡ true) e q)
      | inr j ↦ (inr (In-keep p xs j).0, (In-keep p xs j).1)
    ]
    | inr q ↦ let j = rw q at i in (inr (In-keep p xs j).0, (In-keep p xs j).1)
  ]

  In-place :
      (before : A → A → Bool) {a : A} (b : A) (xs : List A)
      → In a (place before b xs)
      → In a (b ∷ xs)
  unfolding place
  In-place before b [] i = i
  In-place before {a} b (x ∷ xs) i = elim (Bool-cases (before x b)) [
    | inl q ↦ elim (rw q at i) [
      | inl e ↦ inr (inl e)
      | inr j ↦ elim (In-place before b xs j) [ inl e ↦ inl e | inr k ↦ inr (inr k) ]
    ]
    | inr q ↦ rw q at i
  ]

  pub In-sort : (before : A → A → Bool) (a : A) (xs : List A) → In a (sort before xs) → In a xs
  unfolding sort
  In-sort before a [] i = i
  In-sort before a (x ∷ xs) i = elim (In-place before {a = a} x (sort before xs) i) [
    | inl e ↦ inl e
    | inr j ↦ inr (In-sort before a xs j)
  ]
