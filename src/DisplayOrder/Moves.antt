-- ===== src/DisplayOrder/Moves.antt =====
-- `move` on the order in which a group is shown.
use monitoring_maxval.Base.{
  ℕ, zero, suc, Bool, true, false, Option, none, some, List, ◌≡◌, refl, sym, ap, ◌∙◌, map,
  get_elem?, Option-cases, inl, inr,
}
use monitoring_maxval.DisplayOrder.{
  Columns, renumber, exchange_with, position_of, move_at, move_row, group_of,
}
use monitoring_maxval.DisplayOrder.Sorted.{AreDistinct}
use monitoring_maxval.DisplayOrder.Swap.{
  swap_at, map-swap_at, moved_up, moved_down, place_of, position_of-place_of, moved-none,
  moved_down-some, moved_up-zero, moved_up-suc,
}
use monitoring_maxval.DisplayOrder.Numbered.{AreColumns}
use monitoring_maxval.DisplayOrder.Shown.{
  swap_at_end, elem_before, position_of-get_elem?, elems_differ, shown, group-AreDistinct,
  unchanged, swapped, exchange_down, exchange_up, change, change-IsNumbering, change-map,
}

-- The order of the keys after a move.
abbrev pub moved : Bool → ℕ → List ℕ → List ℕ
moved true = moved_up
moved false = moved_down

module _ {A : Type 0} (columns : Columns A) (in_group : A → Bool)
    (laws : AreColumns columns in_group) where
  place_of-shown :
      (k : ℕ) (table : List A) {o : Option ℕ}
      → position_of columns k (group_of columns in_group table) ≡ o
      → place_of k (shown columns in_group laws table) ≡ o
  place_of-shown k table e =
      sym (position_of-place_of columns k (group_of columns in_group table)) ∙ e

  down-shown :
      (k j : ℕ) (table : List A)
      → AreDistinct columns table
      → position_of columns k (group_of columns in_group table) ≡ some j
      → shown columns in_group laws
          (exchange_with columns k j
            (suc j)
            (get_elem? (group_of columns in_group table) (suc j))
            (renumber columns 1 (group_of columns in_group table) table)).1
        ≡ swap_at j (shown columns in_group laws table)
  down-shown k j table d e =
      let g = group_of columns in_group table in
      elim (Option-cases (get_elem? g (suc j))) [
        | inl q ↦ rw q (
            unchanged columns in_group laws table d
            ∙ sym (ap (map columns.key) (swap_at_end j g q))
            ∙ map-swap_at columns.key j g)
        | inr (b, q) ↦
            let (a, p, r) = position_of-get_elem? columns k j g e in
            let n =
              elems_differ columns j g {a = a} {b = b}
                (group-AreDistinct columns in_group laws table d) p q in
            rw q (
              rw (sym r) (
                ap (shown columns in_group laws) (
                  change-map columns in_group laws (columns.key a) j (columns.key b) (suc j) g
                    table)
                ∙ swapped columns in_group laws
                    (change columns in_group laws (columns.key b) (suc j) (columns.key a)
                      (suc (suc j)) g)
                    table j {a = a} {b = b}
                    (change-IsNumbering columns in_group laws (columns.key b) (suc j)
                      (columns.key a) (suc (suc j)) g)
                    d p q
                    (exchange_down columns in_group laws j (columns.key a) (columns.key b) g n)))
      ]

  up-shown :
      (k j : ℕ) (table : List A)
      → AreDistinct columns table
      → position_of columns k (group_of columns in_group table) ≡ some (suc j)
      → shown columns in_group laws
          (exchange_with columns k
            (suc j)
            j
            (get_elem? (group_of columns in_group table) j)
            (renumber columns 1 (group_of columns in_group table) table)).1
        ≡ swap_at j (shown columns in_group laws table)
  up-shown k j table d e =
      let g = group_of columns in_group table in
      let (b, q, r) = position_of-get_elem? columns k (suc j) g e in
      let (a, p) = elem_before j g {b = b} q in
      let n =
        elems_differ columns j g {a = a} {b = b} (group-AreDistinct columns in_group laws table d) p
          q in
      rw p (
        rw (sym r) (
          ap (shown columns in_group laws)
            (change-map columns in_group laws (columns.key b) (suc j) (columns.key a) j g table)
          ∙ swapped columns in_group laws
              (change columns in_group laws (columns.key a) (suc (suc j)) (columns.key b) (suc j) g)
              table j {a = a} {b = b}
              (change-IsNumbering columns in_group laws (columns.key a) (suc (suc j))
                (columns.key b) (suc j) g)
              d p q (exchange_up columns in_group laws j (columns.key a) (columns.key b) g n)))

  move_at-shown :
      (is_up : Bool) (k : ℕ) (o : Option ℕ) (table : List A)
      → AreDistinct columns table
      → position_of columns k (group_of columns in_group table) ≡ o
      → shown columns in_group laws
          (move_at columns is_up k o
            (group_of columns in_group table)
            (renumber columns 1 (group_of columns in_group table) table)).1
        ≡ moved is_up k (shown columns in_group laws table)
  move_at-shown true k none table d e =
      unchanged columns in_group laws table d
      ∙ sym (moved-none k (shown columns in_group laws table) (place_of-shown k table e)).0
  move_at-shown false k none table d e =
      unchanged columns in_group laws table d
      ∙ sym (moved-none k (shown columns in_group laws table) (place_of-shown k table e)).1
  move_at-shown true k (some zero) table d e =
      unchanged columns in_group laws table d
      ∙ sym (moved_up-zero k (shown columns in_group laws table) (place_of-shown k table e))
  move_at-shown true k (some (suc j)) table d e =
      up-shown k j table d e
      ∙ sym (moved_up-suc k j (shown columns in_group laws table) (place_of-shown k table e))
  move_at-shown false k (some j) table d e =
      down-shown k j table d e
      ∙ sym (moved_down-some k j (shown columns in_group laws table) (place_of-shown k table e))

  -- Whether there is a neighbour or not, `move_row` leaves the group in the order in which the row has
  -- changed places with the neighbour in that direction, and in the same order if there is none.
  pub move_row-shown :
      (is_up : Bool) (k : ℕ) (table : List A)
      → AreDistinct columns table
      → shown columns in_group laws (move_row columns in_group is_up k table).1
        ≡ moved is_up k (shown columns in_group laws table)
  unfolding move_row
  move_row-shown is_up k table d =
      move_at-shown is_up k (position_of columns k (group_of columns in_group table)) table d refl
