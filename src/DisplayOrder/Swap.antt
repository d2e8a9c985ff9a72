-- ===== src/DisplayOrder/Swap.antt =====
-- Lists of keys in which one key changes places with a neighbour: by its position, and by the key.
use monitoring_maxval.Base.{
  ℕ, zero, suc, Option, none, some, List, [], ◌∷◌, ◌≡◌, refl, arith, map, ap, if◌then◌else◌, ◌==◌,
  Option-cases, inl, inr,
}
use monitoring_maxval.DisplayOrder.{Columns, position_of}

-- The elements at this position and at the next one change places, if there are two.
abbrev pub swap_at {ℓ} : {A : Type ℓ} → ℕ → List A → List A
swap_at j [] = []
swap_at zero (x ∷ []) = x ∷ []
swap_at zero (x ∷ y ∷ xs) = y ∷ x ∷ xs
swap_at (suc j) (x ∷ xs) = x ∷ swap_at j xs

pub swap_at-swap_at {ℓ} : {A : Type ℓ} (j : ℕ) (xs : List A) → swap_at j (swap_at j xs) ≡ xs
swap_at-swap_at j [] = refl
swap_at-swap_at zero (x ∷ []) = refl
swap_at-swap_at zero (x ∷ y ∷ xs) = refl
swap_at-swap_at (suc j) (x ∷ xs) = ap (λ ys. x ∷ ys) (swap_at-swap_at j xs)

pub map-swap_at :
    {A B : Type 0} (h : A → B) (j : ℕ) (xs : List A) → map h (swap_at j xs) ≡ swap_at j (map h xs)
map-swap_at h j [] = refl
map-swap_at h zero (x ∷ []) = refl
map-swap_at h zero (x ∷ y ∷ xs) = refl
map-swap_at h (suc j) (x ∷ xs) = ap (λ ys. h x ∷ ys) (map-swap_at h j xs)

-- The key stands after the one that follows it, if one follows.
abbrev pub moved_down : ℕ → List ℕ → List ℕ
moved_down k [] = []
moved_down k (x ∷ []) = x ∷ []
moved_down k (x ∷ y ∷ ids) =
    let rest = moved_down k (y ∷ ids) in if x == k then y ∷ x ∷ ids else x ∷ rest

-- The key stands before the one that precedes it, if one does.
abbrev pub moved_up : ℕ → List ℕ → List ℕ
moved_up k [] = []
moved_up k (x ∷ []) = x ∷ []
moved_up k (x ∷ y ∷ ids) =
    let rest = moved_up k (y ∷ ids) in
    if x == k then x ∷ y ∷ ids else if y == k then y ∷ x ∷ ids else x ∷ rest

-- Where a key stands first.
abbrev pub place_of : ℕ → List ℕ → Option ℕ
place_of k [] = none
place_of k (x ∷ ids) =
    let rest = place_of k ids in
    if x == k then some 0 else elim rest [ none ↦ none | some i ↦ some (suc i) ]

pub position_of-place_of :
    {A : Type 0} (columns : Columns A) (k : ℕ) (xs : List A)
    → position_of columns k xs ≡ place_of k (map columns.key xs)
unfolding position_of
position_of-place_of columns k [] = refl
position_of-place_of columns k (x ∷ xs) = rw (position_of-place_of columns k xs) refl

pub moved-none :
    (k : ℕ) (ids : List ℕ)
    → place_of k ids ≡ none
    → (moved_up k ids ≡ ids) × (moved_down k ids ≡ ids)
moved-none k [] e = (refl, refl)
moved-none k (x ∷ []) e = (refl, refl)
moved-none k (x ∷ y ∷ ids) e = elim (Option-cases (place_of k (y ∷ ids))) [
  | inl q ↦ ground (arith, moved-none k (y ∷ ids) q)
  | inr (i, q) ↦ ground arith
]

pub moved_down-some :
    (k j : ℕ) (ids : List ℕ) → place_of k ids ≡ some j → moved_down k ids ≡ swap_at j ids
moved_down-some k j [] e = refl
moved_down-some k zero (x ∷ []) e = refl
moved_down-some k (suc j) (x ∷ []) e = refl
moved_down-some k zero (x ∷ y ∷ ids) e = elim (Option-cases (place_of k (y ∷ ids))) [
  | inl q ↦ ground arith
  | inr (i, q) ↦ ground arith
]
moved_down-some k (suc j) (x ∷ y ∷ ids) e = elim (Option-cases (place_of k (y ∷ ids))) [
  | inl q ↦ ground arith
  | inr (i, q) ↦ ground (arith, moved_down-some k j (y ∷ ids))
]

pub moved_up-zero : (k : ℕ) (ids : List ℕ) → place_of k ids ≡ some 0 → moved_up k ids ≡ ids
moved_up-zero k [] e = refl
moved_up-zero k (x ∷ []) e = refl
moved_up-zero k (x ∷ y ∷ ids) e = elim (Option-cases (place_of k (y ∷ ids))) [
  | inl q ↦ ground arith
  | inr (i, q) ↦ ground arith
]

pub moved_up-suc :
    (k j : ℕ) (ids : List ℕ) → place_of k ids ≡ some (suc j) → moved_up k ids ≡ swap_at j ids
moved_up-suc k j [] e = refl
moved_up-suc k zero (x ∷ []) e = refl
moved_up-suc k (suc j) (x ∷ []) e = refl
moved_up-suc k zero (x ∷ y ∷ ids) e = elim (Option-cases (place_of k ids)) [
  | inl q ↦ ground arith
  | inr (i, q) ↦ ground arith
]
moved_up-suc k (suc j) (x ∷ y ∷ ids) e = elim (Option-cases (place_of k ids)) [
  | inl q ↦ ground arith
  | inr (i, q) ↦ ground (arith, moved_up-suc k j (y ∷ ids))
]
