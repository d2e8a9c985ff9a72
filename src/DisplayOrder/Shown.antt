-- ===== src/DisplayOrder/Shown.antt =====
-- The order in which a group is shown, the keys of its rows by `ORDER BY`, under the changes of numbers
-- that `move` makes.
use monitoring_maxval.Base.{
  ℕ, zero, suc, Bool, none, some, List, [], ◌∷◌, ◌≡◌, ◌≢◌, refl, sym, ap, ◌∙◌, arith, map, keep,
  get_elem?, if◌then◌else◌, ◌==◌, ==→eq, Bool-cases, Option-cases, inl, inr,
}
use monitoring_maxval.Base.Sort.{sort}
use monitoring_maxval.Base.Rows.{update}
use monitoring_maxval.DisplayOrder.{Columns, is_before, renumber, exchange, position_of, group_of}
use monitoring_maxval.DisplayOrder.Sorted.{
  IsFresh, AreDistinct, AreNumbered, AreDistinct-sort, sort-AreNumbered, sort-sort, sort-map,
  through,
}
use monitoring_maxval.DisplayOrder.Swap.{swap_at, map-swap_at}
use monitoring_maxval.DisplayOrder.Numbered.{
  AreColumns, IsNumbering, on_key, numbering, map-map, update-map, renumber-map, after-IsNumbering,
  numbering-IsNumbering, on_key_twice-IsNumbering,
}
use monitoring_maxval.DisplayOrder.Renumbered.{
  sort-swap_at, fresh_elem, numbering-AreNumbered, Exchanged, swap_at-AreNumbered,
}

pub swap_at_end :
    {A : Type 0} (j : ℕ) (xs : List A) → get_elem? xs (suc j) ≡ none → swap_at j xs ≡ xs
swap_at_end j [] e = refl
swap_at_end zero (x ∷ []) e = refl
swap_at_end zero (x ∷ y ∷ xs) e = cc
swap_at_end (suc j) (x ∷ xs) e = ap (λ ys. x ∷ ys) (swap_at_end j xs e)

pub elem_before :
    {A : Type 0} (j : ℕ) (xs : List A) {b : A}
    → get_elem? xs (suc j) ≡ some b
    → (a : A) × (get_elem? xs j ≡ some a)
elem_before j [] e = cc
elem_before zero (x ∷ xs) e = (x, refl)
elem_before (suc j) (x ∷ xs) {b} e = elem_before j xs {b = b} e

keep-map :
    {A : Type 0} (p : A → Bool) (f : A → A) (xs : List A)
    → ((a : A) → p (f a) ≡ p a)
    → keep p (map f xs) ≡ map f (keep p xs)
keep-map p f [] h = refl
keep-map p f (x ∷ xs) h = ground (arith, h x, keep-map p f xs h)

map_keys :
    {A : Type 0} (key : A → ℕ) (f : A → A) (xs : List A)
    → ((a : A) → key (f a) ≡ key a)
    → map key (map f xs) ≡ map key xs
map_keys key f [] h = refl
map_keys key f (x ∷ xs) h = rw (h x) (ap (λ ys. key x ∷ ys) (map_keys key f xs h))

module _ {A : Type 0} (columns : Columns A) where
  pub position_of-get_elem? :
      (k j : ℕ) (xs : List A)
      → position_of columns k xs ≡ some j
      → (a : A) × (get_elem? xs j ≡ some a) × (columns.key a ≡ k)
  unfolding position_of
  position_of-get_elem? k j [] e = cc
  position_of-get_elem? k j (x ∷ xs) e = elim (Bool-cases (columns.key x == k)) [
    | inl q ↦ (x, ground arith, ==→eq (columns.key x) k q)
    | inr q ↦ elim (Option-cases (position_of columns k xs)) [
      | inl r ↦ ground arith
      | inr (i, r) ↦ let (a, g, h) = position_of-get_elem? k i xs r in (a, ground arith, h)
    ]
  ]

  pub elems_differ :
      (j : ℕ) (xs : List A) {a b : A}
      → AreDistinct columns xs
      → get_elem? xs j ≡ some a
      → get_elem? xs (suc j) ≡ some b
      → columns.key a ≢ columns.key b
  elems_differ j [] d p q = cc
  elems_differ zero (x ∷ xs) {a} {b} d p q =
      ground (arith, fresh_elem columns (columns.key x) xs 0 {a = b} d.0 q)
  elems_differ (suc j) (x ∷ xs) {a} {b} d p q = elems_differ j xs {a = a} {b = b} d.1 p q

  IsFresh-keep :
      (p : A → Bool) (k : ℕ) (xs : List A) → IsFresh columns k xs → IsFresh columns k (keep p xs)
  IsFresh-keep p k [] h = h
  IsFresh-keep p k (x ∷ xs) h = ground (arith, IsFresh-keep p k xs h.1)

  AreDistinct-keep :
      (p : A → Bool) (xs : List A) → AreDistinct columns xs → AreDistinct columns (keep p xs)
  AreDistinct-keep p [] h = h
  AreDistinct-keep p (x ∷ xs) h = elim (Bool-cases (p x)) [
    | inl q ↦ rw q (IsFresh-keep p (columns.key x) xs h.0, AreDistinct-keep p xs h.1)
    | inr q ↦ rw q (AreDistinct-keep p xs h.1)
  ]

  module _ (in_group : A → Bool) (laws : AreColumns columns in_group) where
    -- The keys of the group in the order in which it is shown.
    abbrev pub shown : List A → List ℕ
    shown table = map columns.key (group_of columns in_group table)

    pub group-AreDistinct :
        (table : List A)
        → AreDistinct columns table
        → AreDistinct columns (group_of columns in_group table)
    group-AreDistinct table d =
        AreDistinct-sort columns (keep in_group table) (AreDistinct-keep in_group table d)

    -- A change of numbers that numbers the rows of the group as they stand in `xs`.
    reordered :
        (f : A → A) (table xs : List A)
        → IsNumbering columns in_group laws f
        → AreDistinct columns table
        → sort (is_before (through columns f)) xs
          ≡ sort (is_before (through columns f)) (group_of columns in_group table)
        → AreNumbered (through columns f) 1 xs
        → shown (map f table) ≡ map columns.key xs
    reordered f table xs hf d e h =
        ap (λ ys. map columns.key (sort (is_before columns) ys))
          (keep-map in_group f table hf.group)
        ∙ ap (map columns.key) (
            sort-map columns f (keep in_group table)
            ∙ ap (map f) (
                sym (
                  sort-sort columns (through columns f) hf.key (keep in_group table)
                    (AreDistinct-keep in_group table d))
                ∙ sym e
                ∙ sort-AreNumbered (through columns f) 1 xs h))
        ∙ map_keys columns.key f xs hf.key

    pub unchanged :
        (table : List A)
        → AreDistinct columns table
        → shown (renumber columns 1 (group_of columns in_group table) table) ≡ shown table
    unchanged table d =
        let g = group_of columns in_group table in
        ap shown (renumber-map columns 1 g table)
        ∙ reordered (numbering columns 1 g) table g
            (numbering-IsNumbering columns in_group laws 1 g) d refl
            (numbering-AreNumbered columns in_group laws 1 g (group-AreDistinct table d))

    -- The two writes of `exchange` after `renumber`.
    pub change : ℕ → ℕ → ℕ → ℕ → List A → A → A
    change k n l m group a = on_key columns k n (on_key columns l m (numbering columns 1 group a))

    pub change-IsNumbering :
        (k n l m : ℕ) (group : List A) → IsNumbering columns in_group laws (change k n l m group)
    unfolding change
    change-IsNumbering k n l m group =
        after-IsNumbering columns in_group laws (λ a. on_key columns k n (on_key columns l m a))
          (numbering columns 1 group) (on_key_twice-IsNumbering columns in_group laws k n l m)
          (numbering-IsNumbering columns in_group laws 1 group)

    pub change-map :
        (l p k q : ℕ) (group table : List A)
        → exchange columns l p k q (renumber columns 1 group table)
          ≡ map (change k (suc p) l (suc q) group) table
    unfolding change
    change-map l p k q group table =
        ap (exchange columns l p k q) (renumber-map columns 1 group table)
        ∙ update-map columns k (suc p) (
            update columns.key l (columns.set_order (suc q))
              (map (numbering columns 1 group) table))
        ∙ ap (map (on_key columns k (suc p))) (
            update-map columns l (suc q) (map (numbering columns 1 group) table)
            ∙ map-map (on_key columns l (suc q)) (numbering columns 1 group) table)
        ∙ map-map (on_key columns k (suc p))
            (λ a. on_key columns l (suc q) (numbering columns 1 group a)) table

    on_key_order :
        (k n : ℕ) (a : A)
        → columns.order (on_key columns k n a) ≡ (if columns.key a == k then n else columns.order a)
    on_key_order k n a = ground (arith, laws.order_written n a)

    on_key_key : (k n : ℕ) (a : A) → columns.key (on_key columns k n a) ≡ columns.key a
    on_key_key k n a = ground (arith, laws.key_stays n a)

    change_order :
        (k n l m : ℕ) (group : List A) (a : A)
        → columns.order (change k n l m group a) ≡ (
            if columns.key a == k
            then n
            else if columns.key a == l
            then m
            else columns.order (numbering columns 1 group a))
    unfolding change
    change_order k n l m group a =
        let b = numbering columns 1 group a in
        rw (on_key_order k n (on_key columns l m b)) (
          rw (on_key_key l m b) (
            rw (on_key_order l m b)
              (rw ((numbering-IsNumbering columns in_group laws 1 group).key a) refl)))

    pub swapped :
        (f : A → A) (table : List A) (j : ℕ) {a b : A}
        → IsNumbering columns in_group laws f
        → AreDistinct columns table
        → get_elem? (group_of columns in_group table) j ≡ some a
        → get_elem? (group_of columns in_group table) (suc j) ≡ some b
        → Exchanged columns
            (through columns (numbering columns 1 (group_of columns in_group table)))
            (through columns f)
            (columns.key a)
            (columns.key b)
            (suc j)
        → shown (map f table) ≡ swap_at j (shown table)
    swapped f table j {a} {b} hf d p q x =
        let g = group_of columns in_group table in
        let dg = group-AreDistinct table d in
        reordered f table (swap_at j g) hf d
          (sort-swap_at columns j g dg (through columns f) hf.key)
          (swap_at-AreNumbered columns (through columns (numbering columns 1 g)) (through columns f)
            1 j (suc j) g {a = a} {b = b} (numbering-AreNumbered columns in_group laws 1 g dg) dg p
            q (omega arith) x)
        ∙ map-swap_at columns.key j g

    pub exchange_down :
        (j k l : ℕ) (group : List A)
        → k ≢ l
        → Exchanged columns
            (through columns (numbering columns 1 group))
            (through columns (change l (suc j) k (suc (suc j)) group))
            k
            l
            (suc j)
    exchange_down j k l group n = record {
      lower_row = λ a e. rw (change_order l (suc j) k (suc (suc j)) group a) (ground arith);
      upper_row = λ a e. rw (change_order l (suc j) k (suc (suc j)) group a) (ground arith);
      elsewhere = λ a u v. rw (change_order l (suc j) k (suc (suc j)) group a) (ground arith);
    }

    pub exchange_up :
        (j k l : ℕ) (group : List A)
        → k ≢ l
        → Exchanged columns
            (through columns (numbering columns 1 group))
            (through columns (change k (suc (suc j)) l (suc j) group))
            k
            l
            (suc j)
    exchange_up j k l group n = record {
      lower_row = λ a e. rw (change_order k (suc (suc j)) l (suc j) group a) (ground arith);
      upper_row = λ a e. rw (change_order k (suc (suc j)) l (suc j) group a) (ground arith);
      elsewhere = λ a u v. rw (change_order k (suc (suc j)) l (suc j) group a) (ground arith);
    }
