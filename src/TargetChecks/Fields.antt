-- ===== src/TargetChecks/Fields.antt =====
-- `normalize_check_fields` and `normalize_http_deep_fields`. Durations count thousandths of what the
-- field says.
use monitoring_maxval.Base.{
  ℕ, Bool, false, ◌&&◌, ◌||◌, not, Option, none, some, List, [], ◌∷◌, leb, if◌then◌else◌,
}
use monitoring_maxval.Base.Int.{ℤ, pos, leb_ℤ, pos_part}
use monitoring_maxval.Base.Result.{Result, ok, err, ◌>>=◌, ◌>>◌, require}
use monitoring_maxval.Base.Text.{String, str_eq, is_space, is_empty, or_text}
use monitoring_maxval.Base.Strings.{size, stripped, has_char, starts_with, clean_text, if_some}
use monitoring_maxval.TargetChecks.Errors.{FieldError}

abbrev pub is_one_of : String → List String → Bool
is_one_of s [] = false
is_one_of s (x ∷ xs) = str_eq s x || is_one_of s xs

abbrev pub is_web : String → Bool
is_web t = str_eq t "http" || str_eq t "https"

-- The keyword arguments of `normalize_check_fields`.
pub record CheckInput : Type 0 where
  pub name : String
  pub checker_type : String
  pub address_override : Option String
  pub port : Option ℤ
  pub path : Option String
  pub timeout_seconds : Option ℤ
  pub retries : ℤ

-- The tuple that it returns.
pub record CheckFields : Type 0 where
  pub name : String
  pub checker_type : String
  pub address_override : Option String
  pub port : ℕ
  pub path : String
  pub timeout_seconds : Option ℕ
  pub retries : ℕ

abbrev pub is_between : ℕ → ℕ → ℤ → Bool
is_between low high a = leb_ℤ (pos low) a && leb_ℤ a (pos high)

abbrev pub is_address : String → Bool
is_address a = leb (size a) 255 && not (has_char is_space a)

unfoldable pub clean_address : String → Option String → Option String
clean_address t address =
    if str_eq t "directory" || str_eq t "dns" then none else clean_text address

abbrev default_port : String → Result FieldError ℤ
default_port t =
    if str_eq t "http"
    then ok (pos 80)
    else if str_eq t "https"
    then ok (pos 443)
    else if str_eq t "rtsp"
    then ok (pos 554)
    else err FieldError.missing_port

abbrev given_port : String → Option ℤ → Result FieldError ℤ
given_port t none = default_port t
given_port t (some p) = ok p

unfoldable pub clean_port : String → Option ℤ → Result FieldError ℤ
clean_port t port =
    if str_eq t "directory"
    then ok (pos 1)
    else if str_eq t "dns"
    then ok (pos 53)
    else if str_eq t "icmp"
    then ok (pos 1)
    else given_port t port

-- `(path or "/").strip() or "/"`
unfoldable pub typed_path : Option String → String
typed_path path = let s = stripped (or_text path "/") in if is_empty s then "/" else s

unfoldable pub clean_path : String → String → String
clean_path t path =
    if is_web t then (if starts_with b'/' path then path else String.◌∷◌ "/" path) else "/"

abbrev pub to_ℕ : Option ℤ → Option ℕ
to_ℕ none = none
to_ℕ (some a) = some (pos_part a)

-- `names` are the names of the registry.
unfoldable pub normalize_check_fields : List String → CheckInput → Result FieldError CheckFields
normalize_check_fields names f = do
  require (leb 2 (size (stripped f.name)) && leb (size (stripped f.name)) 160)
      FieldError.name_length
  require (is_one_of f.checker_type names || str_eq f.checker_type "directory")
      FieldError.unknown_checker
  require (if_some is_address (clean_text f.address_override)) FieldError.bad_address
  port ← clean_port f.checker_type f.port
  require (is_between 1 65535 port) FieldError.bad_port
  require (leb (size (typed_path f.path)) 500) FieldError.long_path
  require (if_some (is_between 500 60000) f.timeout_seconds) FieldError.bad_timeout
  require (is_between 0 10 f.retries) FieldError.bad_retries
  ok (record {
    name = stripped f.name;
    checker_type = f.checker_type;
    address_override = clean_address f.checker_type f.address_override;
    port = pos_part port;
    path = clean_path f.checker_type (typed_path f.path);
    timeout_seconds = to_ℕ f.timeout_seconds;
    retries = pos_part f.retries;
  })

pub record HttpInput : Type 0 where
  pub expected_status : Option ℤ
  pub content_contains : Option String
  pub content_not_contains : Option String
  pub max_response_ms : Option ℤ

pub record HttpFields : Type 0 where
  pub expected_status : Option ℕ
  pub content_contains : Option String
  pub content_not_contains : Option String
  pub max_response_ms : Option ℕ

abbrev pub is_positive : ℤ → Bool
is_positive a = leb_ℤ (pos 1) a

abbrev checked_http_fields : HttpInput → Result FieldError HttpFields
checked_http_fields f = do
  require (if_some (is_between 100 599) f.expected_status) FieldError.bad_status
  require (if_some (λ s. leb (size s) 500) (clean_text f.content_contains)) FieldError.long_content
  require (if_some (λ s. leb (size s) 500) (clean_text f.content_not_contains))
      FieldError.long_excluded_content
  require (if_some is_positive f.max_response_ms) FieldError.bad_response_time
  ok (record {
    expected_status = to_ℕ f.expected_status;
    content_contains = clean_text f.content_contains;
    content_not_contains = clean_text f.content_not_contains;
    max_response_ms = to_ℕ f.max_response_ms;
  })

unfoldable pub normalize_http_deep_fields : String → HttpInput → Result FieldError HttpFields
normalize_http_deep_fields t f =
    if is_web t
    then checked_http_fields f
    else ok (record {
      expected_status = none;
      content_contains = none;
      content_not_contains = none;
      max_response_ms = none;
    })
