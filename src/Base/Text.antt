-- ===== src/Base/Text.antt =====
-- Text: equality, the decimal numerals that an f-string prints, and Python's `int()` over a text of
-- ASCII characters. `String` is the native one; code that walks a text takes its code points.
use Prim.Native.Char.{code}
use Prim.Native.String.{slice}
use Prim.Native.Nat.{ℕ, zero, suc, ◌+◌, ◌-◌, ◌*◌, ◌/◌, ◌%◌}
use mathlib.Core.Path.{◌≡◌, refl}
use mathlib.Core.Bool.{Bool, true, ◌&&◌, ◌||◌, false}
use mathlib.Core.Option.{none, some, Option}
use mathlib.Core.List.{List, [], ◌∷◌, reverse}
use native.Mathlib.Omega.{arith}
use monitoring_maxval.Base.Tests.{leb, ltb, ◌==◌, ==→eq, ==-refl, if◌then◌else◌}
use monitoring_maxval.Base.Int.{ℤ, pos, negsuc}
pub use Prim.Native.String.{String, ◌++◌ as ◌⧺◌}
pub use text.Mathlib.Text.{◌==◌ as str_eq}
pub use text.Mathlib.TextEquality.{eq_iff}

-- The code points of a text: its bytes, if it is ASCII.
abbrev pub codes : String → List ℕ
codes String.[] = []
codes (String.◌∷◌ c s) = code c ∷ codes s

-- `not text`
abbrev pub is_empty : String → Bool
is_empty String.[] = true
is_empty (String.◌∷◌ _ _) = false

-- `text or default`, where the text may also be `None`
abbrev pub or_text : Option String → String → String
or_text none d = d
or_text (some s) d = if is_empty s then d else s

-- The digit of a number below ten.
abbrev digit : ℕ → String
digit n =
    if n == 0
    then "0"
    else if n == 1
    then "1"
    else if n == 2
    then "2"
    else if n == 3
    then "3"
    else if n == 4
    then "4"
    else if n == 5
    then "5"
    else if n == 6
    then "6"
    else if n == 7
    then "7"
    else if n == 8
    then "8"
    else "9"

decimal_within : ℕ → ℕ → String
decimal_within zero n = digit n
decimal_within (suc f) n =
    let rest = decimal_within f (n / 10) ⧺ digit (n % 10) in if ltb n 10 then digit n else rest

-- `str(n)`: `n` rounds are enough, since every round divides by ten.
unfoldable pub decimal : ℕ → String
unfolding decimal_within
decimal n = decimal_within n n

-- `str(a)` of an integer
unfoldable pub decimal_ℤ : ℤ → String
unfolding decimal
decimal_ℤ (pos n) = decimal n
decimal_ℤ (negsuc n) = "-" ⧺ decimal (suc n)

-- what `int()` and `str.strip()` drop at both ends
abbrev pub is_space : ℕ → Bool
is_space c = (leb 9 c && leb c 13) || (leb 28 c && leb c 32)

skip_space : List ℕ → List ℕ
skip_space [] = []
skip_space (c ∷ s) = let rest = skip_space s in if is_space c then rest else c ∷ s

-- `text.strip()`, on code points
unfoldable pub strip : List ℕ → List ℕ
unfolding skip_space
strip s = reverse (skip_space (reverse (skip_space s)))

abbrev is_digit : ℕ → Bool
is_digit c = leb b'0' c && leb c b'9'

-- The digits that are left of a numeral, where `after_digit` says that an underscore may come.
numeral : Bool → ℕ → List ℕ → Option ℕ
numeral after_digit acc [] = if after_digit then some acc else none
numeral after_digit acc (c ∷ s) =
    let more = numeral true (acc * 10 + (c - b'0')) s in
    let gap = numeral false acc s in
    if is_digit c then more else if after_digit && (c == b'_') then gap else none

abbrev negate : ℕ → ℤ
negate zero = pos 0
negate (suc n) = negsuc n

signed : List ℕ → Option ℤ
unfolding numeral
signed [] = none
signed (c ∷ s) =
    if c == b'-'
    then elim (numeral false 0 s) [ none ↦ none | some n ↦ some (negate n) ]
    else if c == b'+'
    then elim (numeral false 0 s) [ none ↦ none | some n ↦ some (pos n) ]
    else elim (numeral false 0 (c ∷ s)) [ none ↦ none | some n ↦ some (pos n) ]

-- `int(text)`, with `none` for `ValueError`, on code points
unfoldable pub py_int_codes : List ℕ → Option ℤ
unfolding strip signed
py_int_codes s = signed (strip s)

unfoldable pub py_int : String → Option ℤ
unfolding py_int_codes
py_int s = py_int_codes (codes s)

py_int_runs : py_int " -1_0 " ≡ some (negsuc 9)
unfolding py_int
py_int_runs = refl

py_int_refuses : py_int "1__0" ≡ none
unfolding py_int
py_int_refuses = refl

decimal_runs : decimal 2048 ≡ "2048"
unfolding decimal
decimal_runs = refl

abbrev capitals : String
capitals = "ABCDEFGHIJKLMNOPQRSTUVWXYZ"

-- `text.upper()`, on ASCII letters
unfoldable pub upper : String → String
upper String.[] = String.[]
upper (String.◌∷◌ c s) =
    (if leb b'a' (code c) && leb (code c) b'z'
      then slice capitals (code c - b'a') (code c - b'a' + 1)
      else String.◌∷◌ c String.[])
    ⧺ upper s

-- `text.casefold()` agrees with this on whether it is a given ASCII text without the letters that
-- foreign characters fold to.
unfoldable pub lower_codes : List ℕ → List ℕ
lower_codes [] = []
lower_codes (c ∷ s) = (if leb b'A' c && leb c b'Z' then c + 32 else c) ∷ lower_codes s

upper_runs : upper "https2" ≡ "HTTPS2"
unfolding upper
upper_runs = refl

-- A text as the list of its code points.
abbrev pub Text : Type 0
Text = List ℕ

abbrev pub same_text : Text → Text → Bool
same_text [] [] = true
same_text (c ∷ s) (d ∷ t) = (c == d) && same_text s t
same_text _ _ = false

pub same_text_refl : (s : Text) → same_text s s ≡ true
same_text_refl [] = refl
same_text_refl (c ∷ s) = rw (==-refl c) (same_text_refl s)

pub same_text-≡ : (s t : Text) → same_text s t ≡ true → s ≡ t
same_text-≡ [] [] h = refl
same_text-≡ [] (d ∷ t) h = cc
same_text-≡ (c ∷ s) [] h = cc
same_text-≡ (c ∷ s) (d ∷ t) h = ground (arith, ==→eq c d, same_text-≡ s t)
