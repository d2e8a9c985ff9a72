-- ===== src/Snmp/Oid.antt =====
-- `canonical_oid` (src/monitoring/services/snmp_oid_catalog.py) on code points.
use monitoring_maxval.Base.{
  ℕ, Bool, false, ◌&&◌, Option, none, some, [], ◌∷◌, ◌==◌, leb, all, length, if◌then◌else◌,
}
use monitoring_maxval.Base.Text.{Text, strip}
use monitoring_maxval.Schedules.{split_on}

abbrev pub is_oid_digit : ℕ → Bool
is_oid_digit c = leb b'0' c && leb c b'9'

abbrev is_number : Text → Bool
is_number [] = false
is_number (c ∷ s) = is_oid_digit c && all is_oid_digit s

-- `[0-9]+(?:\.[0-9]+)+`: two numbers or more, separated by dots
unfoldable pub is_dotted : Text → Bool
is_dotted s = let parts = split_on b'.' s in leb 2 (length parts) && all is_number parts

-- The leading dot that the pattern allows, and that `lstrip` drops.
unfoldable pub without_dot : Text → Text
without_dot [] = []
without_dot (c ∷ s) = if c == b'.' then s else c ∷ s

-- `none` for `ValueError`
unfoldable pub canonical_oid : Text → Option Text
unfolding is_dotted without_dot
canonical_oid value =
    let oid = without_dot (strip value) in if is_dotted oid then some oid else none
