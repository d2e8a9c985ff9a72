-- ===== src/Base/Strings.antt =====
-- The methods of `str` that the services call on the texts of forms. Texts are ASCII.
use Prim.Native.Char.{code}
use Prim.Native.Nat.{ℕ, suc}
use mathlib.Core.Bool.{Bool, true, false, ◌&&◌, ◌||◌}
use mathlib.Core.Option.{none, some, Option}
use monitoring_maxval.Base.Tests.{◌==◌, if◌then◌else◌}
use monitoring_maxval.Base.Text.{String, is_space, is_empty, or_text}

-- `len(text)`
unfoldable pub size : String → ℕ
size String.[] = 0
size (String.◌∷◌ c s) = suc (size s)

unfoldable pub strip_left : String → String
strip_left String.[] = String.[]
strip_left (String.◌∷◌ c s) =
    let rest = strip_left s in if is_space (code c) then rest else String.◌∷◌ c s

-- The text without its last characters that pass the test.
unfoldable pub strip_right : (ℕ → Bool) → String → String
strip_right p String.[] = String.[]
strip_right p (String.◌∷◌ c s) =
    let rest = strip_right p s in
    if is_empty rest && p (code c) then String.[] else String.◌∷◌ c rest

-- `text.strip()`
unfoldable pub stripped : String → String
unfolding strip_left strip_right
stripped s = strip_right is_space (strip_left s)

-- `any(p(character) for character in text)`
unfoldable pub has_char : (ℕ → Bool) → String → Bool
has_char p String.[] = false
has_char p (String.◌∷◌ c s) = p (code c) || has_char p s

-- `text.startswith(c)`
abbrev pub starts_with : ℕ → String → Bool
starts_with k String.[] = false
starts_with k (String.◌∷◌ c s) = code c == k

-- `(text or "").strip() or None`
abbrev pub clean_text : Option String → Option String
clean_text o = let clean = stripped (or_text o "") in if is_empty clean then none else some clean

abbrev pub same_option {ℓ} : {A : Type ℓ} → (A → A → Bool) → Option A → Option A → Bool
same_option same none none = true
same_option same (some a) (some b) = same a b
same_option same _ _ = false

-- `p` holds of the value that is there.
abbrev pub if_some {ℓ} : {A : Type ℓ} → (A → Bool) → Option A → Bool
if_some p none = true
if_some p (some a) = p a
