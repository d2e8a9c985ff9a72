-- ===== src/TargetChecks/Directory.antt =====
-- directory_monitoring.py
use monitoring_maxval.Base.{
  ℕ, Bool, false, ◌&&◌, ◌||◌, not, Option, none, some, leb, ◌==◌, if◌then◌else◌,
}
use monitoring_maxval.Base.Int.{ℤ, pos, leb_ℤ, pos_part}
use monitoring_maxval.Base.Result.{Result, ok, ◌>>◌, require}
use monitoring_maxval.Base.Text.{String, str_eq, is_empty, or_text}
use monitoring_maxval.Base.Strings.{size, stripped, has_char, starts_with, clean_text, if_some}
use monitoring_maxval.Model.{TargetCheck}
use monitoring_maxval.TargetChecks.Errors.{FieldError}
use monitoring_maxval.TargetChecks.Fields.{is_positive}

pub record DirectoryInput : Type 0 where
  pub path : Option String
  pub pattern : Option String
  pub period_hours : Option ℤ
  pub show_last : Option ℤ
  pub username : Option String

pub record DirectoryCheckConfig : Type 0 where
  pub path : String
  pub pattern : String
  pub period_hours : ℕ
  pub show_last : ℕ
  pub username : Option String

-- `startswith("\\\\")`: two backslashes
unfoldable pub is_unc : String → Bool
is_unc String.[] = false
is_unc (String.◌∷◌ c s) = starts_with b'\\' (String.◌∷◌ c s) && starts_with b'\\' s

abbrev value_or : ℤ → Option ℤ → ℤ
value_or d none = d
value_or d (some a) = a

abbrev pub clean_pattern : Option String → String
clean_pattern pattern = let s = stripped (or_text pattern "*") in if is_empty s then "*" else s

abbrev is_pattern : String → Bool
is_pattern s = leb (size s) 255 && not (has_char (λ c. (c == b'/') || (c == b'\\')) s)

abbrev directory_config : DirectoryInput → DirectoryCheckConfig
directory_config f =
    let path = stripped (or_text f.path "") in
    record {
      path = path;
      pattern = clean_pattern f.pattern;
      period_hours = pos_part (value_or (pos 24000) f.period_hours);
      show_last = pos_part (value_or (pos 0) f.show_last);
      username = if is_unc path then clean_text f.username else none;
    }

abbrev checked_directory : DirectoryInput → Result FieldError (Option DirectoryCheckConfig)
checked_directory f = do
  let path = stripped (or_text f.path "")
  require (not (is_empty path)) FieldError.no_directory
  require (starts_with b'/' path || is_unc path) FieldError.relative_directory
  require (is_pattern (clean_pattern f.pattern)) FieldError.bad_pattern
  require (is_positive (value_or (pos 24000) f.period_hours)) FieldError.bad_period
  require (leb_ℤ (pos 0) (value_or (pos 0) f.show_last)) FieldError.bad_limit
  require (leb (size path) 1024) FieldError.long_directory
  require (if_some (λ s. leb (size s) 255) (clean_text f.username)) FieldError.long_username
  ok (some (directory_config f))

unfoldable pub normalize_directory_fields :
    String → DirectoryInput → Result FieldError (Option DirectoryCheckConfig)
normalize_directory_fields t f = if str_eq t "directory" then checked_directory f else ok none

unfoldable pub clear_directory_runtime : TargetCheck → TargetCheck
clear_directory_runtime check = record check {
  directory_last_files = none;
  directory_recent_count = none;
  directory_latest_file_at = none;
  directory_scanned_at = none;
}

unfoldable pub clear_directory_fields : TargetCheck → TargetCheck
unfolding clear_directory_runtime
clear_directory_fields check = clear_directory_runtime (record check {
  directory_path = none;
  directory_pattern = none;
  directory_period_hours = none;
  directory_show_last = none;
  directory_username = none;
  directory_password_encrypted = "";
})
