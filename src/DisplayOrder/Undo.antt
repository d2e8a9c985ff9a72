-- ===== src/DisplayOrder/Undo.antt =====
-- A move and the move in the other direction.
use monitoring_maxval.Base.{
  ℕ, zero, suc, Bool, true, false, not, Option, none, some, List, [], ◌∷◌, ◌≡◌, ◌≢◌, refl, sym, ap,
  ◌∙◌, arith, map, get_elem?, ◌==◌, Bool-cases, Option-cases, inl, inr,
}
use monitoring_maxval.Base.Rows.{update}
use monitoring_maxval.DisplayOrder.{
  Columns, renumber, exchange_with, position_of, move_at, move_row, group_of,
}
use monitoring_maxval.DisplayOrder.Sorted.{IsFresh, AreDistinct}
use monitoring_maxval.DisplayOrder.Swap.{
  swap_at, swap_at-swap_at, moved_up, moved_down, place_of, position_of-place_of, moved_down-some,
  moved_up-suc,
}
use monitoring_maxval.DisplayOrder.Numbered.{AreColumns}
use monitoring_maxval.DisplayOrder.Shown.{
  position_of-get_elem?, elems_differ, shown, group-AreDistinct,
}
use monitoring_maxval.DisplayOrder.Moves.{moved, move_row-shown}

place_of-swap_up :
    (k j : ℕ) (ids : List ℕ) → place_of k ids ≡ some (suc j) → place_of k (swap_at j ids) ≡ some j
place_of-swap_up k j [] e = cc
place_of-swap_up k zero (x ∷ []) e = ground arith
place_of-swap_up k zero (x ∷ y ∷ ids) e = elim (Option-cases (place_of k ids)) [
  | inl q ↦ ground arith
  | inr (i, q) ↦ ground arith
]
place_of-swap_up k (suc j) (x ∷ ids) e = elim (Option-cases (place_of k ids)) [
  | inl q ↦ ground arith
  | inr (i, q) ↦ ground (arith, place_of-swap_up k j ids)
]

place_of-swap_down :
    (k j : ℕ) (ids : List ℕ) {m : ℕ}
    → place_of k ids ≡ some j
    → get_elem? ids (suc j) ≡ some m
    → k ≢ m
    → place_of k (swap_at j ids) ≡ some (suc j)
place_of-swap_down k j [] e g n = cc
place_of-swap_down k zero (x ∷ []) e g n = cc
place_of-swap_down k zero (x ∷ y ∷ ids) {m} e g n = elim (Option-cases (place_of k ids)) [
  | inl q ↦ ground arith
  | inr (i, q) ↦ ground arith
]
place_of-swap_down k (suc j) (x ∷ ids) {m} e g n = elim (Option-cases (place_of k ids)) [
  | inl q ↦ ground arith
  | inr (i, q) ↦ ground (arith, place_of-swap_down k j ids {m = m})
]

undo_up :
    (k j : ℕ) (ids : List ℕ) → place_of k ids ≡ some (suc j) → moved_down k (moved_up k ids) ≡ ids
undo_up k j ids e =
    ap (moved_down k) (moved_up-suc k j ids e)
    ∙ moved_down-some k j (swap_at j ids) (place_of-swap_up k j ids e)
    ∙ swap_at-swap_at j ids

undo_down :
    (k j : ℕ) (ids : List ℕ) {m : ℕ}
    → place_of k ids ≡ some j
    → get_elem? ids (suc j) ≡ some m
    → k ≢ m
    → moved_up k (moved_down k ids) ≡ ids
undo_down k j ids {m} e g n =
    ap (moved_up k) (moved_down-some k j ids e)
    ∙ moved_up-suc k j (swap_at j ids) (place_of-swap_down k j ids {m = m} e g n)
    ∙ swap_at-swap_at j ids

get_elem?-map :
    {A B : Type 0} (f : A → B) (j : ℕ) (xs : List A) {a : A}
    → get_elem? xs j ≡ some a
    → get_elem? (map f xs) j ≡ some (f a)
get_elem?-map f j [] e = cc
get_elem?-map f zero (x ∷ xs) {a} e = cc
get_elem?-map f (suc j) (x ∷ xs) {a} e = get_elem?-map f j xs {a = a} e

module _ {A : Type 0} (columns : Columns A) (in_group : A → Bool)
    (laws : AreColumns columns in_group) where
  IsFresh-update :
      (k j n : ℕ) (xs : List A)
      → IsFresh columns k xs
      → IsFresh columns k (update columns.key j (columns.set_order n) xs)
  unfolding update
  IsFresh-update k j n [] h = h
  IsFresh-update k j n (x ∷ xs) h =
      (ground (arith, laws.key_stays n x, h.0), IsFresh-update k j n xs h.1)

  AreDistinct-update :
      (j n : ℕ) (xs : List A)
      → AreDistinct columns xs
      → AreDistinct columns (update columns.key j (columns.set_order n) xs)
  unfolding update
  AreDistinct-update j n [] h = h
  AreDistinct-update j n (x ∷ xs) h = elim (Bool-cases (columns.key x == j)) [
    | inl q ↦ rw q (
        rw (laws.key_stays n x)
          (IsFresh-update (columns.key x) j n xs h.0, AreDistinct-update j n xs h.1))
    | inr q ↦ rw q (IsFresh-update (columns.key x) j n xs h.0, AreDistinct-update j n xs h.1)
  ]

  AreDistinct-renumber :
      (n : ℕ) (group xs : List A)
      → AreDistinct columns xs
      → AreDistinct columns (renumber columns n group xs)
  unfolding renumber
  AreDistinct-renumber n [] xs h = h
  AreDistinct-renumber n (x ∷ group) xs h =
      AreDistinct-renumber (suc n) group
        (update columns.key (columns.key x) (columns.set_order n) xs)
        (AreDistinct-update (columns.key x) n xs h)

  AreDistinct-exchange_with :
      (k i j : ℕ) (o : Option A) (xs : List A)
      → AreDistinct columns xs
      → AreDistinct columns (exchange_with columns k i j o xs).1
  AreDistinct-exchange_with k i j none xs h = h
  AreDistinct-exchange_with k i j (some b) xs h =
      AreDistinct-update (columns.key b) (suc i)
        (update columns.key k (columns.set_order (suc j)) xs) (AreDistinct-update k (suc j) xs h)

  AreDistinct-move_at :
      (is_up : Bool) (k : ℕ) (o : Option ℕ) (group xs : List A)
      → AreDistinct columns xs
      → AreDistinct columns (move_at columns is_up k o group xs).1
  AreDistinct-move_at true k none group xs h = h
  AreDistinct-move_at false k none group xs h = h
  AreDistinct-move_at true k (some zero) group xs h = h
  AreDistinct-move_at true k (some (suc j)) group xs h =
      AreDistinct-exchange_with k (suc j) j (get_elem? group j) xs h
  AreDistinct-move_at false k (some j) group xs h =
      AreDistinct-exchange_with k j (suc j) (get_elem? group (suc j)) xs h

  pub AreDistinct-move_row :
      (is_up : Bool) (k : ℕ) (table : List A)
      → AreDistinct columns table
      → AreDistinct columns (move_row columns in_group is_up k table).1
  unfolding move_row
  AreDistinct-move_row is_up k table h =
      let g = group_of columns in_group table in
      AreDistinct-move_at is_up k (position_of columns k g) g (renumber columns 1 g table)
        (AreDistinct-renumber 1 g table h)

  -- Where a move had a neighbour to change with, the opposite move undoes it.
  undo_at :
      (is_up : Bool) (k : ℕ) (o : Option ℕ) (table xs : List A)
      → AreDistinct columns table
      → position_of columns k (group_of columns in_group table) ≡ o
      → (move_at columns is_up k o (group_of columns in_group table) xs).0 ≡ true
      → moved (not is_up) k (moved is_up k (shown columns in_group laws table))
        ≡ shown columns in_group laws table
  undo_at true k none table xs d e h = cc
  undo_at false k none table xs d e h = cc
  undo_at true k (some zero) table xs d e h = cc
  undo_at true k (some (suc j)) table xs d e h =
      undo_up k j (shown columns in_group laws table)
        (sym (position_of-place_of columns k (group_of columns in_group table)) ∙ e)
  undo_at false k (some j) table xs d e h =
      let g = group_of columns in_group table in
      elim (Option-cases (get_elem? g (suc j))) [
        | inl q ↦ let r = rw q at h in cc
        | inr (b, q) ↦
            let (a, p, r) = position_of-get_elem? columns k j g e in
            undo_down k j (shown columns in_group laws table) {m = columns.key b}
              (sym (position_of-place_of columns k g) ∙ e)
              (get_elem?-map columns.key (suc j) g {a = b} q)
              (λ s.
                elems_differ columns j g {a = a} {b = b}
                  (group-AreDistinct columns in_group laws table d) p q (r ∙ s))
      ]

  undo_row :
      (is_up : Bool) (k : ℕ) (table : List A)
      → AreDistinct columns table
      → (move_row columns in_group is_up k table).0 ≡ true
      → moved (not is_up) k (moved is_up k (shown columns in_group laws table))
        ≡ shown columns in_group laws table
  unfolding move_row
  undo_row is_up k table d h =
      let g = group_of columns in_group table in
      undo_at is_up k (position_of columns k g) table (renumber columns 1 g table) d refl h

  pub move_row-move_row :
      (is_up : Bool) (k : ℕ) (table : List A)
      → AreDistinct columns table
      → (move_row columns in_group is_up k table).0 ≡ true
      → shown columns in_group laws
          (move_row columns in_group (not is_up) k (move_row columns in_group is_up k table).1).1
        ≡ shown columns in_group laws table
  move_row-move_row is_up k table d h =
      move_row-shown columns in_group laws (not is_up) k (move_row columns in_group is_up k table).1
        (AreDistinct-move_row is_up k table d)
      ∙ ap (moved (not is_up) k) (move_row-shown columns in_group laws is_up k table d)
      ∙ undo_row is_up k table d h
