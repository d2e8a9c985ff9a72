-- ===== src/TargetChecks/Dns.antt =====
-- `normalize_dns_fields`. The codec `idna` and the module ipaddress are parameters.
use monitoring_maxval.Base.{
  ℕ, Bool, false, ◌&&◌, ◌||◌, not, Option, none, some, [], ◌∷◌, all, leb, ◌==◌, length,
  if◌then◌else◌,
}
use monitoring_maxval.Base.Int.{ℤ}
use monitoring_maxval.Base.Result.{Result, ok, err, ◌>>=◌, ◌>>◌, require}
use monitoring_maxval.Base.Text.{String, Text, str_eq, codes, is_space, is_empty, or_text, upper}
use monitoring_maxval.Base.Strings.{size, stripped, strip_right, has_char, clean_text, if_some}
use monitoring_maxval.Schedules.{split_on}
use monitoring_maxval.TargetChecks.Errors.{FieldError}
use monitoring_maxval.TargetChecks.Fields.{is_positive, to_ℕ}

pub record DnsInput : Type 0 where
  pub name : Option String
  pub record_type : Option String
  pub expected_address : Option String
  pub max_response_ms : Option ℤ

pub record DnsFields : Type 0 where
  pub name : Option String
  pub record_type : Option String
  pub expected_address : Option String
  pub max_response_ms : Option ℕ

-- `idna name` is `name.encode("idna").decode("ascii").lower()`, `none` its `UnicodeError`.
-- `ip_address` gives the version and the text of an address, `none` for `ValueError`.
pub record Names : Type 0 where
  pub idna : String → Option String
  pub ip_address : String → Option (ℕ × String)

abbrev is_letter_or_digit : ℕ → Bool
is_letter_or_digit c = (leb b'a' c && leb c b'z') || (leb b'0' c && leb c b'9')

abbrev ends_well : Text → Bool
ends_well [] = false
ends_well (c ∷ []) = is_letter_or_digit c
ends_well (c ∷ d ∷ s) = ends_well (d ∷ s)

-- `_DNS_LABEL`
unfoldable pub is_label : Text → Bool
is_label [] = false
is_label (c ∷ s) =
    is_letter_or_digit c
    && leb (length s) 62
    && all (λ d. is_letter_or_digit d || (d == b'-')) s
    && ends_well (c ∷ s)

-- `rstrip(".")` after `strip()`
unfoldable pub raw_name : Option String → String
raw_name name = strip_right (λ c. c == b'.') (stripped (or_text name ""))

abbrev is_raw_name : String → Bool
is_raw_name s = not (is_empty s) && not (has_char (λ c. c == b'/') s) && not (has_char is_space s)

abbrev version_of : String → ℕ
version_of record_type = if str_eq record_type "A" then 4 else 6

-- An address in the family that the type of the record asks for.
abbrev expected_of : Names → String → Option String → Result FieldError (Option String)
expected_of names record_type none = ok none
expected_of names record_type (some a) = elim (names.ip_address a) [
  | none ↦ err FieldError.bad_expected_address
  | some (version, text) ↦
      if version == version_of record_type then ok (some text) else err FieldError.other_family
]

abbrev encoded : Names → String → Result FieldError String
encoded names raw = elim (names.idna raw) [
  | none ↦ err FieldError.not_idna
  | some name ↦
      if leb (size name) 253 && all is_label (split_on b'.' (codes name))
      then ok name
      else err FieldError.bad_dns_label
]

abbrev checked_dns_fields : Names → DnsInput → Result FieldError DnsFields
checked_dns_fields names f = do
  require (is_raw_name (raw_name f.name)) FieldError.bad_dns_name
  name ← encoded names (raw_name f.name)
  let record_type = upper (or_text f.record_type "A")
  require (str_eq record_type "A" || str_eq record_type "AAAA") FieldError.bad_record_type
  expected ← expected_of names record_type (clean_text f.expected_address)
  require (if_some is_positive f.max_response_ms) FieldError.bad_dns_time
  ok (record {
    name = some name;
    record_type = some record_type;
    expected_address = expected;
    max_response_ms = to_ℕ f.max_response_ms;
  })

unfoldable pub normalize_dns_fields : Names → String → DnsInput → Result FieldError DnsFields
unfolding is_label raw_name
normalize_dns_fields names t f =
    if str_eq t "dns"
    then checked_dns_fields names f
    else ok (record {
      name = none;
      record_type = none;
      expected_address = none;
      max_response_ms = none;
    })
