-- ===== src/Base/Rows.antt =====
-- A table as the list of its rows, with the numeric primary key of each row: the queries and updates
-- that the services make, and how a count of rows changes under them.
use Prim.Native.Nat.{ℕ, ◌+◌, ◌≤◌}
use mathlib.Core.Path.{◌≡◌, refl, ap}
use mathlib.Core.Logic.{◌⊎◌, inl, inr}
use mathlib.Core.Bool.{Bool, true, false}
use mathlib.Core.Option.{none, some, Option}
use mathlib.Core.List.{List, [], ◌∷◌, ◌++◌, map}
use native.Mathlib.Omega.{arith}
use monitoring_maxval.Base.Lists.{keep}
use monitoring_maxval.Base.Tests.{ltb, ◌==◌, ==-refl, bit, if◌then◌else◌, Option-cases}

module _ {A : Type 0} where
  -- `SELECT count(*) ... WHERE p`
  unfoldable pub count : (A → Bool) → List A → ℕ
  count p [] = 0
  count p (x ∷ xs) = bit (p x) + count p xs

  -- The row stands in the table.
  abbrev pub In : A → List A → Type 0
  In a [] = ⊥
  In a (x ∷ xs) = (x ≡ a) ⊎ In a xs

  -- `session.add(row)` and `session.flush()`
  unfoldable pub insert : A → List A → List A
  insert a xs = xs ++ (a ∷ [])

  -- `WHERE p`, the first row
  unfoldable pub first : (A → Bool) → List A → Option A
  first p [] = none
  first p (x ∷ xs) = let rest = first p xs in if p x then some x else rest

  pub first-none : (p : A → Bool) (xs : List A) → first p xs ≡ none → count p xs ≡ 0
  unfolding first count
  first-none p [] e = refl
  first-none p (x ∷ xs) e = ground (arith, first-none p xs)

  pub first-In : (p : A → Bool) (xs : List A) {a : A} → first p xs ≡ some a → In a xs × (p a ≡ true)
  unfolding first
  first-In p [] e = cc
  first-In p (x ∷ xs) {a} e = ground (arith, first-In p xs {a = a})

  pub count-insert :
      (p : A → Bool) (a : A) (xs : List A) → count p (insert a xs) ≡ count p xs + bit (p a)
  unfolding count insert
  count-insert p a [] = omega arith
  count-insert p a (x ∷ xs) = omega (arith, count-insert p a xs)

  pub count-pos : (p : A → Bool) (a : A) (xs : List A) → In a xs → p a ≡ true → 1 ≤ count p xs
  unfolding count
  count-pos p a [] h e = absurd h
  count-pos p a (x ∷ xs) (inl q) e = ground arith
  count-pos p a (x ∷ xs) (inr h) e = omega (arith, count-pos p a xs h e)

  pub count_mono :
      (p q : A → Bool) (xs : List A) → ((a : A) → p a ≡ true → q a ≡ true) → count p xs ≤ count q xs
  unfolding count
  count_mono p q [] h = omega arith
  count_mono p q (x ∷ xs) h = ground (arith, h x, count_mono p q xs h)

  pub count_or :
      (p q r : A → Bool) (xs : List A)
      → ((a : A) → p a ≡ true → (q a ≡ true) ⊎ (r a ≡ true))
      → count p xs ≤ count q xs + count r xs
  unfolding count
  count_or p q r [] h = omega arith
  count_or p q r (x ∷ xs) h = ground (arith, h x, count_or p q r xs h)

  pub count-keep : (q p : A → Bool) (xs : List A) → count q (keep p xs) ≤ count q xs
  unfolding count
  count-keep q p [] = omega arith
  count-keep q p (x ∷ xs) = ground (arith, count-keep q p xs)

module _ {A : Type 0} (key : A → ℕ) where
  -- `WHERE id = k`
  abbrev pub has_key : ℕ → A → Bool
  has_key k a = key a == k

  -- `session.get(Table, k)`
  unfoldable pub find : ℕ → List A → Option A
  find k [] = none
  find k (x ∷ xs) = if key x == k then some x else find k xs

  -- The changes that the code makes to the fields of the loaded row with this key.
  unfoldable pub update : ℕ → (A → A) → List A → List A
  update k f [] = []
  update k f (x ∷ xs) = (if key x == k then f x else x) ∷ update k f xs

  abbrev pick_newer : A → Option A → A
  pick_newer x none = x
  pick_newer x (some y) = if ltb (key x) (key y) then y else x

  -- `WHERE p ORDER BY id DESC`, the first row
  unfoldable pub newest : (A → Bool) → List A → Option A
  newest p [] = none
  newest p (x ∷ xs) = let rest = newest p xs in if p x then some (pick_newer x rest) else rest

  -- No key stands twice, and all are below the next one that the database gives.
  pub record KeysAreUnique (next : ℕ) (xs : List A) : Type 0 where
    pub once : (k : ℕ) → count (has_key k) xs ≤ 1
    pub below : (k : ℕ) → next ≤ k → count (has_key k) xs ≡ 0

  pub insert-KeysAreUnique :
      (next : ℕ) (a : A) (xs : List A)
      → key a ≡ next
      → KeysAreUnique next xs
      → KeysAreUnique (next + 1) (insert a xs)
  insert-KeysAreUnique next a xs e h = record {
    once = λ k. ground (arith, count-insert (has_key k) a xs, h.once k, h.below k);
    below = λ k le. ground (arith, count-insert (has_key k) a xs, h.below k);
  }

  pub find-key : (k : ℕ) (xs : List A) {a : A} → find k xs ≡ some a → key a ≡ k
  unfolding find
  find-key k [] e = cc
  find-key k (x ∷ xs) {a} e = ground (arith, find-key k xs {a = a})

  pub find-In : (k : ℕ) (xs : List A) {a : A} → find k xs ≡ some a → In a xs
  unfolding find
  find-In k [] e = cc
  find-In k (x ∷ xs) {a} e = ground (arith, find-In k xs {a = a})

  pub find-update_ne :
      (k j : ℕ) (f : A → A) (xs : List A)
      → ((a : A) → key (f a) ≡ key a)
      → (k == j) ≡ false
      → find k (update j f xs) ≡ find k xs
  unfolding find update
  find-update_ne k j f [] h n = refl
  find-update_ne k j f (x ∷ xs) h n = ground (arith, h x, find-update_ne k j f xs h n)

  pub find-update_self :
      (k : ℕ) (f : A → A) (xs : List A) {a : A}
      → ((a : A) → key (f a) ≡ key a)
      → find k xs ≡ some a
      → find k (update k f xs) ≡ some (f a)
  unfolding find update
  find-update_self k f [] h e = cc
  find-update_self k f (x ∷ xs) {a} h e =
      ground (arith, h x, ap f, find-update_self k f xs {a = a} h)

  pub find-keep :
      (k : ℕ) (p : A → Bool) (xs : List A)
      → ((a : A) → key a ≡ k → p a ≡ true)
      → find k (keep p xs) ≡ find k xs
  unfolding find
  find-keep k p [] h = refl
  find-keep k p (x ∷ xs) h = ground (arith, h x, find-keep k p xs h)

  pub find-insert :
      (k : ℕ) (a : A) (xs : List A) {b : A} → find k xs ≡ some b → find k (insert a xs) ≡ some b
  unfolding find insert
  find-insert k a [] e = cc
  find-insert k a (x ∷ xs) {b} e = ground (arith, find-insert k a xs {b = b})

  pub keep-KeysAreUnique :
      (next : ℕ) (p : A → Bool) (xs : List A)
      → KeysAreUnique next xs
      → KeysAreUnique next (keep p xs)
  keep-KeysAreUnique next p xs h = record {
    once = λ k. omega (arith, count-keep (has_key k) p xs, h.once k);
    below = λ k le. omega (arith, count-keep (has_key k) p xs, h.below k le);
  }

  pub newest-none : (p : A → Bool) (xs : List A) → newest p xs ≡ none → count p xs ≡ 0
  unfolding newest count
  newest-none p [] e = refl
  newest-none p (x ∷ xs) e = ground (arith, newest-none p xs)

  pub newest-In :
      (p : A → Bool) (xs : List A) {a : A} → newest p xs ≡ some a → In a xs × (p a ≡ true)
  unfolding newest
  newest-In p [] e = cc
  newest-In p (x ∷ xs) {a} e = elim (Option-cases (newest p xs)) [
    | inl q ↦ ground arith
    | inr (y, q) ↦ ground (arith, newest-In p xs {a = y} q)
  ]

  count-update_absent :
      (q : A → Bool) (k : ℕ) (f : A → A) (xs : List A)
      → count (has_key k) xs ≡ 0
      → count q (update k f xs) ≡ count q xs
  unfolding count update
  count-update_absent q k f [] e = refl
  count-update_absent q k f (x ∷ xs) e = ground (arith, count-update_absent q k f xs)

  -- Where the key of a row stands once, updating that row changes a count by that row alone.
  pub count-update :
      (q : A → Bool) (a : A) (f : A → A) (xs : List A)
      → In a xs
      → count (has_key (key a)) xs ≤ 1
      → count q (update (key a) f xs) + bit (q a) ≡ count q xs + bit (q (f a))
  unfolding count update
  count-update q a f [] h u = absurd h
  count-update q a f (x ∷ xs) (inl e) u = ground (arith, count-update_absent q (key a) f xs)
  count-update q a f (x ∷ xs) (inr h) u =
      ground (arith, count-pos (has_key (key a)) a xs h (==-refl (key a)), count-update q a f xs h)

  pub count-update_key :
      (k j : ℕ) (f : A → A) (xs : List A)
      → ((a : A) → key (f a) ≡ key a)
      → count (has_key k) (update j f xs) ≡ count (has_key k) xs
  unfolding count update
  count-update_key k j f [] h = refl
  count-update_key k j f (x ∷ xs) h = ground (arith, h x, count-update_key k j f xs h)

  pub update-KeysAreUnique :
      (next j : ℕ) (f : A → A) (xs : List A)
      → ((a : A) → key (f a) ≡ key a)
      → KeysAreUnique next xs
      → KeysAreUnique next (update j f xs)
  update-KeysAreUnique next j f xs keep h = record {
    once = λ k. omega (arith, count-update_key k j f xs keep, h.once k);
    below = λ k le. omega (arith, count-update_key k j f xs keep, h.below k le);
  }

  -- A row whose property the change keeps from arising is not counted more often than before.
  pub count-update_le :
      (q : A → Bool) (j : ℕ) (f : A → A) (xs : List A)
      → ((a : A) → q (f a) ≡ true → q a ≡ true)
      → count q (update j f xs) ≤ count q xs
  unfolding count update
  count-update_le q j f [] h = omega arith
  count-update_le q j f (x ∷ xs) h = ground (arith, h x, count-update_le q j f xs h)

  pub count-update_eq :
      (q : A → Bool) (j : ℕ) (f : A → A) (xs : List A)
      → ((a : A) → q (f a) ≡ q a)
      → count q (update j f xs) ≡ count q xs
  unfolding count update
  count-update_eq q j f [] h = refl
  count-update_eq q j f (x ∷ xs) h = ground (arith, h x, count-update_eq q j f xs h)

module _ {A : Type 0} where
  pub count-map_eq :
      (q : A → Bool) (f : A → A) (xs : List A)
      → ((a : A) → q (f a) ≡ q a)
      → count q (map f xs) ≡ count q xs
  unfolding count
  count-map_eq q f [] h = refl
  count-map_eq q f (x ∷ xs) h = ground (arith, h x, count-map_eq q f xs h)

  pub count-map_le :
      (q : A → Bool) (f : A → A) (xs : List A)
      → ((a : A) → q (f a) ≡ true → q a ≡ true)
      → count q (map f xs) ≤ count q xs
  unfolding count
  count-map_le q f [] h = omega arith
  count-map_le q f (x ∷ xs) h = ground (arith, h x, count-map_le q f xs h)

  pub count-map_or :
      (p q r : A → Bool) (f : A → A) (xs : List A)
      → ((a : A) → p (f a) ≡ true → (q a ≡ true) ⊎ (r a ≡ true))
      → count p (map f xs) ≤ count q xs + count r xs
  unfolding count
  count-map_or p q r f [] h = omega arith
  count-map_or p q r f (x ∷ xs) h = ground (arith, h x, count-map_or p q r f xs h)
