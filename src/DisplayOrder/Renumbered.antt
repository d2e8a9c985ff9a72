-- ===== src/DisplayOrder/Renumbered.antt =====
-- The rows of a group carry the numbers of their positions after `renumber`, and after `exchange` in the
-- order in which two neighbours have changed places.
use monitoring_maxval.Base.{
  ℕ, zero, suc, ◌+◌, Bool, some, List, [], ◌∷◌, ◌≡◌, ◌≢◌, refl, sym, ap, ◌∙◌, arith, get_elem?,
  ==-refl,
}
use monitoring_maxval.Base.Sort.{sort, place}
use monitoring_maxval.DisplayOrder.{Columns, is_before}
use monitoring_maxval.DisplayOrder.Sorted.{IsFresh, AreDistinct, AreNumbered, place-place, through}
use monitoring_maxval.DisplayOrder.Swap.{swap_at}
use monitoring_maxval.DisplayOrder.Numbered.{AreColumns, numbering, numbering_fresh}

module _ {A : Type 0} (columns : Columns A) where
  pub sort-swap_at :
      (j : ℕ) (xs : List A)
      → AreDistinct columns xs
      → (later : Columns A) → ((a : A) → later.key a ≡ columns.key a)
      → sort (is_before later) (swap_at j xs) ≡ sort (is_before later) xs
  unfolding sort
  sort-swap_at j [] h later same = refl
  sort-swap_at zero (x ∷ []) h later same = refl
  sort-swap_at zero (x ∷ y ∷ xs) h later same =
      place-place later y x (sort (is_before later) xs) (λ e. h.0.0 (sym (same x) ∙ sym e ∙ same y))
  sort-swap_at (suc j) (x ∷ xs) h later same =
      ap (place (is_before later) x) (sort-swap_at j xs h.1 later same)

  pub fresh_elem :
      (k : ℕ) (xs : List A) (j : ℕ) {a : A}
      → IsFresh columns k xs
      → get_elem? xs j ≡ some a
      → k ≢ columns.key a
  fresh_elem k [] j h e = cc
  fresh_elem k (x ∷ xs) zero {a} h e = λ r. h.0 (ground arith)
  fresh_elem k (x ∷ xs) (suc j) h e = fresh_elem k xs j h.1 e

  AreNumbered-elsewhere :
      (old new : Columns A) (j k : ℕ)
      → ((c : A) → j ≢ columns.key c → k ≢ columns.key c → new.order c ≡ old.order c)
      → (n : ℕ) (xs : List A) → IsFresh columns j xs
      → IsFresh columns k xs
      → AreNumbered old n xs
      → AreNumbered new n xs
  AreNumbered-elsewhere old new j k same n [] f g h = h
  AreNumbered-elsewhere old new j k same n (x ∷ xs) f g h =
      (same x f.0 g.0 ∙ h.0, AreNumbered-elsewhere old new j k same (suc n) xs f.1 g.1 h.1)

  pub numbering-AreNumbered :
      (in_group : A → Bool)
      → AreColumns columns in_group
      → (n : ℕ) (xs : List A) → AreDistinct columns xs
      → AreNumbered (through columns (numbering columns n xs)) n xs
  numbering-AreNumbered in_group laws n [] h = h
  numbering-AreNumbered in_group laws n (x ∷ xs) h = (
    ap (λ a. columns.order (numbering columns (suc n) xs a)) (rw (==-refl (columns.key x)) refl)
        ∙ ap columns.order (
            numbering_fresh columns in_group laws (suc n) xs (columns.set_order n x)
              (rw (laws.key_stays n x) h.0))
        ∙ laws.order_written n x,
    AreNumbered-elsewhere (through columns (numbering columns (suc n) xs))
        (through columns (numbering columns n (x ∷ xs))) (columns.key x) (columns.key x)
        (λ c d _. ap (λ a. columns.order (numbering columns (suc n) xs a)) (ground arith)) (suc n)
        xs h.0 h.0 (numbering-AreNumbered in_group laws (suc n) xs h.1),
  )

  -- Two rows have changed their numbers.
  pub record Exchanged (old new : Columns A) (lower upper : ℕ) (at : ℕ) : Type 0 where
    pub lower_row : (a : A) → columns.key a ≡ lower → new.order a ≡ suc at
    pub upper_row : (a : A) → columns.key a ≡ upper → new.order a ≡ at
    pub elsewhere :
        (a : A) → lower ≢ columns.key a → upper ≢ columns.key a → new.order a ≡ old.order a

  pub swap_at-AreNumbered :
      (old new : Columns A) (n j at : ℕ) (xs : List A) {a b : A}
      → AreNumbered old n xs
      → AreDistinct columns xs
      → get_elem? xs j ≡ some a
      → get_elem? xs (suc j) ≡ some b
      → at ≡ n + j
      → Exchanged old new (columns.key a) (columns.key b) at
      → AreNumbered new n (swap_at j xs)
  swap_at-AreNumbered old new n j at [] h d p q e x = h
  swap_at-AreNumbered old new n zero at (y ∷ []) h d p q e x = cc
  swap_at-AreNumbered old new n zero at (y ∷ z ∷ xs) {a} {b} h d p q e x = (
    x.upper_row z (ground arith) ∙ omega arith,
    (
      x.lower_row y (ground arith) ∙ omega arith,
      AreNumbered-elsewhere old new (columns.key y) (columns.key z)
          (λ c f g. x.elsewhere c (ground arith) (ground arith)) (suc (suc n)) xs d.0.1 d.1.0 h.1.1,
    ),
  )
  swap_at-AreNumbered old new n (suc j) at (y ∷ xs) {a} {b} h d p q e x = (
    x.elsewhere y (λ r. fresh_elem (columns.key y) xs j {a = a} d.0 p (sym r))
          (λ r. fresh_elem (columns.key y) xs (suc j) {a = b} d.0 q (sym r))
        ∙ h.0,
    swap_at-AreNumbered old new (suc n) j at xs {a = a} {b = b} h.1 d.1 p q (omega arith) x,
  )
