-- ===== src/Pagination.antt =====
-- `positive_int` and `Pagination.from_request` (src/monitoring/services/pagination.py). The two query parameters are
-- arguments, with `none` for one that is missing.
pub mod Cover
use monitoring_maxval.Base.{ℕ, ◌+◌, ◌-◌, ◌*◌, ◌/◌, Option, none, some, ltb, if◌then◌else◌, min, max}
use monitoring_maxval.Base.Int.{ℤ, pos, negsuc}
use monitoring_maxval.Base.Text.{String, py_int}

abbrev bounded : ℕ → Option ℕ → ℕ
bounded n none = n
bounded n (some maximum) = min n maximum

abbrev pub text_of : Option String → String
text_of none = ""
text_of (some raw) = raw

-- The number that `int()` gives, or `none` for `ValueError`.
unfoldable pub positive_number : Option ℤ → ℕ → Option ℕ → ℕ
positive_number none default maximum = default
positive_number (some (negsuc n)) default maximum = default
positive_number (some (pos n)) default maximum = if ltb n 1 then default else bounded n maximum

unfoldable pub positive_int : Option String → ℕ → Option ℕ → ℕ
unfolding positive_number
positive_int raw default maximum = positive_number (py_int (text_of raw)) default maximum

pub record Page : Type 0 where
  pub page : ℕ
  pub pages : ℕ
  pub per_page : ℕ
  pub total : ℕ
  pub offset : ℕ

abbrev pub page_of : ℕ → ℕ → ℕ → Page
page_of per_page requested total =
    let pages = max 1 ((total + per_page - 1) / per_page) in
    let page = min requested pages in
    record {
      page = page;
      pages = pages;
      per_page = per_page;
      total = total;
      offset = (page - 1) * per_page;
    }

unfoldable pub from_request : Option String → Option String → ℕ → ℕ → ℕ → Page
unfolding positive_int
from_request per_page page total default_per_page maximum_per_page =
    page_of (positive_int per_page default_per_page (some maximum_per_page))
      (positive_int page 1 none) total
