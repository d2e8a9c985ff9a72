-- ===== src/DisplayOrder/Sorted.antt =====
-- Sorted tables: the order in which rows with different keys arrive does not matter, and rows that are
-- numbered in their order are sorted already.
use monitoring_maxval.Base.{
  ℕ, suc, List, [], ◌∷◌, ◌≡◌, refl, inl, inr, arith, map, ◌≢◌, sym, ap, ◌∙◌, Bool-cases,
}
use monitoring_maxval.Base.Sort.{sort, place}
use monitoring_maxval.DisplayOrder.{Columns, is_before}

module _ {A : Type 0} (columns : Columns A) where
  -- No row of the list has the key.
  abbrev pub IsFresh : ℕ → List A → Type 0
  IsFresh k [] = Unit
  IsFresh k (x ∷ xs) = (k ≢ columns.key x) × IsFresh k xs

  -- The keys of the list differ.
  abbrev pub AreDistinct : List A → Type 0
  AreDistinct [] = Unit
  AreDistinct (x ∷ xs) = IsFresh (columns.key x) xs × AreDistinct xs

  -- The rows have the numbers from `n` on.
  abbrev pub AreNumbered : ℕ → List A → Type 0
  AreNumbered n [] = Unit
  AreNumbered n (x ∷ xs) = (columns.order x ≡ n) × AreNumbered (suc n) xs

  pub place-place :
      (a b : A) (xs : List A)
      → columns.key a ≢ columns.key b
      → place (is_before columns) a (place (is_before columns) b xs)
        ≡ place (is_before columns) b (place (is_before columns) a xs)
  unfolding place
  place-place a b [] n = ground arith
  place-place a b (x ∷ xs) n = ground (arith, place-place a b xs n)

  IsFresh-place :
      (k : ℕ) (a : A) (xs : List A)
      → k ≢ columns.key a
      → IsFresh k xs
      → IsFresh k (place (is_before columns) a xs)
  unfolding place
  IsFresh-place k a [] n h = (n, h)
  IsFresh-place k a (x ∷ xs) n h = ground (arith, IsFresh-place k a xs n)

  IsFresh-sort : (k : ℕ) (xs : List A) → IsFresh k xs → IsFresh k (sort (is_before columns) xs)
  unfolding sort
  IsFresh-sort k [] h = h
  IsFresh-sort k (x ∷ xs) h =
      IsFresh-place k x (sort (is_before columns) xs) h.0 (IsFresh-sort k xs h.1)

  AreDistinct-place :
      (a : A) (xs : List A)
      → IsFresh (columns.key a) xs
      → AreDistinct xs
      → AreDistinct (place (is_before columns) a xs)
  unfolding place
  AreDistinct-place a [] f h = (f, h)
  AreDistinct-place a (x ∷ xs) f h = elim (Bool-cases (is_before columns x a)) [
    | inl q ↦
        rw q (
          IsFresh-place (columns.key x) a xs (λ e. f.0 (sym e)) h.0,
          AreDistinct-place a xs f.1 h.1,
        )
    | inr q ↦ rw q (f, h)
  ]

  pub AreDistinct-sort : (xs : List A) → AreDistinct xs → AreDistinct (sort (is_before columns) xs)
  unfolding sort
  AreDistinct-sort [] h = h
  AreDistinct-sort (x ∷ xs) h =
      AreDistinct-place x (sort (is_before columns) xs) (IsFresh-sort (columns.key x) xs h.0)
        (AreDistinct-sort xs h.1)

  pub sort-AreNumbered : (n : ℕ) (xs : List A) → AreNumbered n xs → sort (is_before columns) xs ≡ xs
  unfolding sort place
  sort-AreNumbered n [] h = refl
  sort-AreNumbered n (x ∷ []) h = refl
  sort-AreNumbered n (x ∷ y ∷ xs) h = rw (sort-AreNumbered (suc n) (y ∷ xs) h.1) (ground arith)

-- Two orders on the same keys.
module _ {A : Type 0} (columns : Columns A) (later : Columns A)
    (same_key : (a : A) → later.key a ≡ columns.key a) where
  IsFresh-later : (k : ℕ) (xs : List A) → IsFresh columns k xs → IsFresh later k xs
  IsFresh-later k [] h = h
  IsFresh-later k (x ∷ xs) h = (λ e. h.0 (e ∙ same_key x), IsFresh-later k xs h.1)

  sort-place :
      (a : A) (xs : List A)
      → IsFresh columns (columns.key a) xs
      → sort (is_before later) (place (is_before columns) a xs)
        ≡ place (is_before later) a (sort (is_before later) xs)
  unfolding sort place
  sort-place a [] f = refl
  sort-place a (x ∷ xs) f = elim (Bool-cases (is_before columns x a)) [
    | inl q ↦ rw q (
        rw (sort-place a xs f.1) (
          place-place later x a (sort (is_before later) xs)
            (λ e. f.0 (sym (same_key a) ∙ sym e ∙ same_key x))))
    | inr q ↦ rw q refl
  ]

  pub sort-sort :
      (xs : List A)
      → AreDistinct columns xs
      → sort (is_before later) (sort (is_before columns) xs) ≡ sort (is_before later) xs
  unfolding sort
  sort-sort [] h = refl
  sort-sort (x ∷ xs) h =
      sort-place x (sort (is_before columns) xs) (IsFresh-sort columns (columns.key x) xs h.0)
      ∙ ap (place (is_before later) x) (sort-sort xs h.1)

-- Rows that are changed before they are sorted.
module _ {A : Type 0} (columns : Columns A) (f : A → A) where
  abbrev pub through : Columns A
  through = record {
    key = λ a. columns.key (f a);
    order = λ a. columns.order (f a);
    set_order = columns.set_order;
  }

  place-map :
      (a : A) (xs : List A)
      → place (is_before columns) (f a) (map f xs) ≡ map f (place (is_before through) a xs)
  unfolding place
  place-map a [] = refl
  place-map a (x ∷ xs) = elim (Bool-cases (is_before through x a)) [
    | inl q ↦ rw q (ap (λ ys. f x ∷ ys) (place-map a xs))
    | inr q ↦ rw q refl
  ]

  pub sort-map :
      (xs : List A) → sort (is_before columns) (map f xs) ≡ map f (sort (is_before through) xs)
  unfolding sort
  sort-map [] = refl
  sort-map (x ∷ xs) = rw (sort-map xs) (place-map x (sort (is_before through) xs))
