-- ===== src/Metrics/Bounds.antt =====
-- The 95th percentile of the durations of checks.
use monitoring_maxval.Base.{
  ℕ, zero, suc, ◌*◌, ◌≤◌, ◌<◌, ◌≡◌, refl, sym, ◌∙◌, true, some, List, [], ◌∷◌, leb, length,
  get_elem?, arith,
}
use monitoring_maxval.Base.Rows.{count}
use monitoring_maxval.Base.Sort.{place, sort, count-sort}
use monitoring_maxval.Metrics.Report.{shorter, p95, p95_index}

abbrev Ascending : ℕ → List ℕ → Type 0
Ascending low [] = Unit
Ascending low (x ∷ xs) = (low ≤ x) × Ascending x xs

weaken-Ascending : (low' low : ℕ) (xs : List ℕ) → low' ≤ low → Ascending low xs → Ascending low' xs
weaken-Ascending low' low [] h o = tt
weaken-Ascending low' low (x ∷ xs) h o = (omega arith, o.1)

place-Ascending :
    (low a : ℕ) (xs : List ℕ) → low ≤ a → Ascending low xs → Ascending low (place shorter a xs)
unfolding place
place-Ascending low a [] h o = (h, tt)
place-Ascending low a (x ∷ xs) h o = ground (arith, place-Ascending x a xs, o)

sort-Ascending : (xs : List ℕ) → Ascending 0 (sort shorter xs)
unfolding sort
sort-Ascending [] = tt
sort-Ascending (x ∷ xs) = place-Ascending 0 x (sort shorter xs) (omega arith) (sort-Ascending xs)

get_elem?-ge :
    (low i : ℕ) (xs : List ℕ) {v : ℕ} → Ascending low xs → get_elem? xs i ≡ some v → low ≤ v
get_elem?-ge low i [] o e = cc
get_elem?-ge low zero (x ∷ xs) o e = ground arith
get_elem?-ge low (suc i) (x ∷ xs) {v} o e = omega (arith, get_elem?-ge x i xs {v = v} o.1 e)

-- So many of an ascending list are not above the one at a position.
count-get_elem? :
    (low i : ℕ) (xs : List ℕ) {v : ℕ}
    → Ascending low xs
    → get_elem? xs i ≡ some v
    → suc i ≤ count (λ d. leb d v) xs
unfolding count
count-get_elem? low i [] o e = cc
count-get_elem? low zero (x ∷ xs) o e = ground arith
count-get_elem? low (suc i) (x ∷ xs) {v} o e =
    ground (arith, get_elem?-ge x i xs {v = v} o.1 e, count-get_elem? x i xs {v = v} o.1 e)

length-eq-count : {A : Type 0} (xs : List A) → length xs ≡ count (λ _. true) xs
unfolding count
length-eq-count [] = refl
length-eq-count (x ∷ xs) = omega (arith, length-eq-count xs)

length-sort : (xs : List ℕ) → length (sort shorter xs) ≡ length xs
length-sort xs =
    length-eq-count (sort shorter xs) ∙ count-sort shorter (λ _. true) xs ∙ sym (length-eq-count xs)

get_elem?-lt :
    {A : Type 0} (xs : List A) (i : ℕ) → i < length xs → (v : A) × (get_elem? xs i ≡ some v)
get_elem?-lt [] i h = elim h [ ]
get_elem?-lt (x ∷ xs) zero h = (x, refl)
get_elem?-lt (x ∷ xs) (suc i) h = get_elem?-lt xs i (omega arith)

-- Of a list of durations that is not empty the figure `p95` is there, and at least 95 in a hundred of
-- the durations are not above it.
pub p95-covers :
    (durations : List ℕ)
    → 0 < length durations
    → (v : ℕ) × (p95 durations ≡ some v)
      × (95 * length durations ≤ 100 * count (λ d. leb d v) durations)
unfolding p95
p95-covers durations h =
    let i = p95_index (length durations) in
    let (v, e) = get_elem?-lt (sort shorter durations) i (omega (arith, length-sort durations)) in
    (
      v,
      e,
      omega (
        arith,
        count-get_elem? 0 i (sort shorter durations) (sort-Ascending durations) e,
        count-sort shorter (λ d. leb d v) durations,
      ),
    )
