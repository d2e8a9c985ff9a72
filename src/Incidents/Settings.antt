-- ===== src/Incidents/Settings.antt =====
-- `integer_setting` and `boolean_setting`, and the number of failures that confirms an outage.
use monitoring_maxval.Base.{
  ℕ, Bool, true, none, some, List, [], ◌∷◌, ◌≡◌, refl, ◌≤◌, arith, ◌==◌, ◌&&◌, false,
}
use monitoring_maxval.Base.Int.{ℤ, pos, clamp, clamp_bounds}
use monitoring_maxval.Base.Text.{String, py_int, codes, lower_codes}
use monitoring_maxval.Model.{setting}

unfoldable pub integer_setting : String → ℕ → List (String × String) → ℤ
integer_setting key default settings = elim (setting key settings) [
  | none ↦ pos default
  | some value ↦ elim (py_int value) [ none ↦ pos default | some n ↦ n ]
]

-- The code points of "true".
abbrev is_true_text : List ℕ → Bool
is_true_text (c ∷ d ∷ e ∷ f ∷ []) = c == b't' && d == b'r' && e == b'u' && f == b'e'
is_true_text _ = false

unfoldable pub boolean_setting : String → Bool → List (String × String) → Bool
boolean_setting key default settings = elim (setting key settings) [
  | none ↦ default
  | some value ↦ is_true_text (lower_codes (codes value))
]

-- `max(1, min(10, integer_setting(session, "failures_before_incident", 2)))`
unfoldable pub failure_threshold : List (String × String) → ℕ
failure_threshold settings = clamp 1 10 (integer_setting "failures_before_incident" 2 settings)

pub failure_threshold_bounds :
    (settings : List (String × String))
    → record { least : 1 ≤ failure_threshold settings; most : failure_threshold settings ≤ 10 }
unfolding failure_threshold
failure_threshold_bounds settings =
    clamp_bounds 1 10 (integer_setting "failures_before_incident" 2 settings) (omega arith)

setting_runs : integer_setting "a" 7 (("b", "1") ∷ ("a", " +42") ∷ []) ≡ pos 42
unfolding integer_setting py_int
setting_runs = refl

setting_falls_back : integer_setting "a" 7 (("a", "4.2") ∷ []) ≡ pos 7
unfolding integer_setting py_int
setting_falls_back = refl

flag_runs : boolean_setting "a" false (("a", "TrUe") ∷ []) ≡ true
unfolding boolean_setting lower_codes
flag_runs = refl
