-- ===== src/DisplayOrder/Numbered.antt =====
-- The numbers that `renumber` and `exchange` give to the rows of a group, as a change of every row of
-- the table.
use monitoring_maxval.Base.{
  ℕ, suc, Bool, List, [], ◌∷◌, ◌≡◌, refl, sym, ap, ◌∙◌, arith, map, if◌then◌else◌, ◌==◌,
}
use monitoring_maxval.Base.Rows.{update}
use monitoring_maxval.DisplayOrder.{Columns, renumber}
use monitoring_maxval.DisplayOrder.Sorted.{IsFresh}

pub map-map :
    {A B C : Type 0} (g : B → C) (f : A → B) (xs : List A)
    → map g (map f xs) ≡ map (λ a. g (f a)) xs
map-map g f [] = refl
map-map g f (x ∷ xs) = ap (λ ys. g (f x) ∷ ys) (map-map g f xs)

pub map_same :
    {A B : Type 0} (g f : A → B) (xs : List A) → ((a : A) → g a ≡ f a) → map g xs ≡ map f xs
map_same g f [] h = refl
map_same g f (x ∷ xs) h = rw (h x) (ap (λ ys. f x ∷ ys) (map_same g f xs h))

-- What writing the column does to the row.
pub record AreColumns {A : Type 0} (columns : Columns A) (in_group : A → Bool) : Type 0 where
  pub key_stays : (n : ℕ) (a : A) → columns.key (columns.set_order n a) ≡ columns.key a
  pub order_written : (n : ℕ) (a : A) → columns.order (columns.set_order n a) ≡ n
  pub group_stays : (n : ℕ) (a : A) → in_group (columns.set_order n a) ≡ in_group a

module _ {A : Type 0} (columns : Columns A) where
  -- The change that `update` makes to each row.
  abbrev pub on_key : ℕ → ℕ → A → A
  on_key k n a = if columns.key a == k then columns.set_order n a else a

  pub update-map :
      (k n : ℕ) (xs : List A) → update columns.key k (columns.set_order n) xs ≡ map (on_key k n) xs
  unfolding update
  update-map k n [] = refl
  update-map k n (x ∷ xs) = rw (update-map k n xs) refl

  abbrev pub numbering : ℕ → List A → A → A
  numbering n [] a = a
  numbering n (x ∷ group) a = numbering (suc n) group (on_key (columns.key x) n a)

  map_id : (xs : List A) → map (λ a. a) xs ≡ xs
  map_id [] = refl
  map_id (x ∷ xs) = ap (λ ys. x ∷ ys) (map_id xs)

  pub renumber-map :
      (n : ℕ) (group xs : List A) → renumber columns n group xs ≡ map (numbering n group) xs
  unfolding renumber
  renumber-map n [] xs = sym (map_id xs)
  renumber-map n (x ∷ group) xs =
      renumber-map (suc n) group (update columns.key (columns.key x) (columns.set_order n) xs)
      ∙ ap (map (numbering (suc n) group)) (update-map (columns.key x) n xs)
      ∙ map-map (numbering (suc n) group) (on_key (columns.key x) n) xs

  module _ (in_group : A → Bool) (laws : AreColumns columns in_group) where
    -- A change of numbers only.
    pub record IsNumbering (f : A → A) : Type 0 where
      pub key : (a : A) → columns.key (f a) ≡ columns.key a
      pub group : (a : A) → in_group (f a) ≡ in_group a

    on_key-IsNumbering : (k n : ℕ) → IsNumbering (on_key k n)
    on_key-IsNumbering k n = record {
      key = λ a. ground (arith, laws.key_stays n a);
      group = λ a. ground (arith, laws.group_stays n a);
    }

    pub after-IsNumbering :
        (g f : A → A) → IsNumbering g → IsNumbering f → IsNumbering (λ a. g (f a))
    after-IsNumbering g f hg hf = record {
      key = λ a. hg.key (f a) ∙ hf.key a;
      group = λ a. hg.group (f a) ∙ hf.group a;
    }

    pub numbering-IsNumbering : (n : ℕ) (group : List A) → IsNumbering (numbering n group)
    numbering-IsNumbering n [] = record { key = λ a. refl; group = λ a. refl }
    numbering-IsNumbering n (x ∷ group) =
        after-IsNumbering (numbering (suc n) group) (on_key (columns.key x) n)
          (numbering-IsNumbering (suc n) group) (on_key-IsNumbering (columns.key x) n)

    pub on_key_twice-IsNumbering : (k n l m : ℕ) → IsNumbering (λ a. on_key k n (on_key l m a))
    on_key_twice-IsNumbering k n l m =
        after-IsNumbering (on_key k n) (on_key l m) (on_key-IsNumbering k n)
          (on_key-IsNumbering l m)

    pub numbering_fresh :
        (n : ℕ) (group : List A) (a : A)
        → IsFresh columns (columns.key a) group
        → numbering n group a ≡ a
    numbering_fresh n [] a h = refl
    numbering_fresh n (x ∷ group) a h =
        ap (numbering (suc n) group) (ground arith) ∙ numbering_fresh (suc n) group a h.1
