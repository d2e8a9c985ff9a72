-- ===== src/Pagination/Cover.antt =====
-- The pages of a list: every page lies inside it, and together they reach its end.
use native.Mathlib.Nat.{div-mul-le_self, mul-le-mul_right, div-add-mod', mod-lt}
use monitoring_maxval.Base.{
  ℕ, zero, suc, ◌+◌, ◌-◌, ◌*◌, ◌/◌, ◌≤◌, ◌<◌, Option, none, some, min, max, ◌≡◌, refl, subst, sym,
  arith,
}
use monitoring_maxval.Base.Int.{ℤ, pos, negsuc}
use monitoring_maxval.Base.Text.{String, py_int}
use monitoring_maxval.Pagination.{
  positive_number, positive_int, Page, from_request, page_of, text_of,
}

-- The page lies in the list: its number is one of the pages, a list that is not empty goes on behind
-- the offset, and the last page reaches its end.
unfoldable pub IsInside : Page → Type 0
IsInside p = record {
  first : 1 ≤ p.page;
  last : p.page ≤ p.pages;
  positive : 1 ≤ p.per_page;
  starts : 1 ≤ p.total → p.offset < p.total;
  covers : p.total ≤ p.pages * p.per_page;
  offset : p.offset ≡ (p.page - 1) * p.per_page;
}

pred : (r : ℕ) → suc (suc r) - 1 ≡ suc r
pred r = omega arith

offset-lt :
    (q pp page total : ℕ)
    → q * pp ≤ total + pp - 1
    → 1 ≤ page
    → page ≤ max 1 q
    → 1 ≤ pp
    → 1 ≤ total
    → (page - 1) * pp < total
offset-lt q pp zero total d one le p t = absurd {0} (omega (arith, one))
offset-lt q pp (suc zero) total d one le p t = omega arith
offset-lt q pp (suc (suc r)) total d one le p t =
    let below : (suc (suc r)) * pp ≤ q * pp = mul-le-mul_right pp (omega (arith, le)) in
    subst (λ n. n * pp < total) (sym (pred r)) (omega (arith, below, d, p))

total-le : (pp total : ℕ) → 1 ≤ pp → total ≤ (total + pp - 1) / pp * pp
total-le pp total p =
    omega (arith, div-add-mod' (total + pp - 1) pp, mod-lt (total + pp - 1) {m = pp} p, p)

page_of-IsInside :
    (per_page requested total : ℕ)
    → 1 ≤ per_page
    → 1 ≤ requested
    → IsInside (page_of per_page requested total)
unfolding IsInside
page_of-IsInside pp requested total p r =
    let q = (total + pp - 1) / pp in
    let wide : q * pp ≤ max 1 q * pp = mul-le-mul_right pp (omega arith) in
    record {
      first = omega (arith, r);
      last = omega arith;
      positive = p;
      starts = λ t.
          offset-lt q pp (min requested (max 1 q)) total (div-mul-le_self (total + pp - 1) pp)
            (omega (arith, r)) (omega arith) p t;
      covers = omega (arith, total-le pp total p, wide);
      offset = refl;
    }

abbrev or_one : Option ℕ → ℕ
or_one none = 1
or_one (some n) = n

positive_number-pos :
    (parsed : Option ℤ) (default : ℕ) (maximum : Option ℕ)
    → 1 ≤ default
    → 1 ≤ or_one maximum
    → 1 ≤ positive_number parsed default maximum
unfolding positive_number
positive_number-pos none default maximum d m = d
positive_number-pos (some (negsuc n)) default maximum d m = d
positive_number-pos (some (pos n)) default none d m = ground (arith, d)
positive_number-pos (some (pos n)) default (some k) d m = ground (arith, d, m)

-- For positive page sizes, whatever the two query parameters hold, the page that
-- `Pagination.from_request` gives is one of the pages, its size is positive, a list that is not empty
-- goes on behind its offset, and the pages together hold the whole list.
pub from_request-IsInside :
    (per_page page : Option String) (total default_per_page maximum_per_page : ℕ)
    → 1 ≤ default_per_page
    → 1 ≤ maximum_per_page
    → IsInside (from_request per_page page total default_per_page maximum_per_page)
unfolding from_request positive_int
from_request-IsInside per_page page total d m hd hm =
    page_of-IsInside (positive_int per_page d (some m)) (positive_int page 1 none) total
      (positive_number-pos (py_int (text_of per_page)) d (some m) hd hm)
      (positive_number-pos (py_int (text_of page)) 1 none (omega arith) (omega arith))
