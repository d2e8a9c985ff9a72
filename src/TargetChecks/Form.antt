-- ===== src/TargetChecks/Form.antt =====
-- The form of a check: what `target_check_create` and `target_check_update` make of its texts
-- (src/monitoring/web/target_check_routes.py).
use monitoring_maxval.Base.{
  Bool, false, ◌&&◌, not, Option, none, some, List, if◌then◌else◌, is_some,
}
use monitoring_maxval.Base.Int.{ℤ}
use monitoring_maxval.Base.Result.{Result, ok, err, ◌>>=◌, ◌>>◌, require}
use monitoring_maxval.Base.Text.{String, str_eq, is_empty, py_int}
use monitoring_maxval.Base.Strings.{stripped}
use monitoring_maxval.Model.{TargetCheck}
use monitoring_maxval.Tls.{TlsError, normalize_tls_monitoring}
use monitoring_maxval.TargetChecks.Errors.{FieldError}
use monitoring_maxval.TargetChecks.Fields.{
  CheckFields, HttpFields, normalize_check_fields, normalize_http_deep_fields,
}
use monitoring_maxval.TargetChecks.Dns.{Names, DnsFields, normalize_dns_fields}
use monitoring_maxval.TargetChecks.Directory.{DirectoryCheckConfig, normalize_directory_fields}

-- The arguments of the two handlers that come from the form.
pub record CheckForm : Type 0 where
  pub name : String
  pub checker_type : String
  pub address_override : String
  pub port : String
  pub path : String
  pub timeout_seconds : String
  pub retries : ℤ
  pub expected_status : String
  pub content_contains : String
  pub content_not_contains : String
  pub max_response_ms : String
  pub tls_monitor_enabled : String
  pub tls_warning_days : String
  pub tls_critical_days : String
  pub dns_name : String
  pub dns_record_type : String
  pub dns_expected_address : String
  pub dns_max_response_ms : String
  pub directory_path : String
  pub directory_pattern : String
  pub directory_period_hours : String
  pub directory_show_last : String
  pub directory_username : String
  pub directory_password : String

-- What is not part of the modelled files: the names of the registry of checkers, `float`, in
-- thousandths and without NaN and the infinities, the codecs, the comparison of names (`lower` of the database and `casefold`), SHA-256
-- and the encryption of secrets.
pub record Services : Type 0 where
  pub checkers : List String
  pub parse_float : String → Option ℤ
  pub names : Names
  pub same_name : String → String → Bool
  pub sha256 : String → String
  pub encrypt_secret : String → String

-- The columns that the form determines.
pub record Prepared : Type 0 where
  pub fields : CheckFields
  pub http : HttpFields
  pub tls : Bool × Option ℤ × Option ℤ
  pub dns : DnsFields
  pub directory : Option DirectoryCheckConfig

-- `_parse_optional_int` and `_parse_optional_float`
unfoldable pub parse_optional : (String → Option ℤ) → String → Result FieldError (Option ℤ)
parse_optional parse value =
    let clean = stripped value in
    if is_empty clean
    then ok none
    else elim (parse clean) [ none ↦ err FieldError.bad_number | some a ↦ ok (some a) ]

abbrev tls_result : {A : Type 0} → Result TlsError A → Result FieldError A
tls_result (ok a) = ok a
tls_result (err e) = err (FieldError.bad_thresholds e)

-- A password without the name of a user.
abbrev has_stray_password : Option DirectoryCheckConfig → String → Bool
has_stray_password none password = false
has_stray_password (some d) password = not (is_empty password) && not (is_some d.username)

module _ (s : Services) (form : CheckForm) where
  unfoldable pub form_fields : Result FieldError CheckFields
  form_fields = do
    port ← parse_optional py_int form.port
    timeout ← parse_optional s.parse_float form.timeout_seconds
    normalize_check_fields s.checkers (record {
      name = form.name;
      checker_type = form.checker_type;
      address_override = some (form.address_override);
      port = port;
      path = some (form.path);
      timeout_seconds = timeout;
      retries = form.retries;
    })

  unfoldable pub form_http : String → Result FieldError HttpFields
  form_http checker_type = do
    status ← parse_optional py_int form.expected_status
    response ← parse_optional s.parse_float form.max_response_ms
    normalize_http_deep_fields checker_type (record {
      expected_status = status;
      content_contains = some (form.content_contains);
      content_not_contains = some (form.content_not_contains);
      max_response_ms = response;
    })

  unfoldable pub form_tls : String → Result FieldError (Bool × Option ℤ × Option ℤ)
  form_tls checker_type = do
    warning ← parse_optional py_int form.tls_warning_days
    critical ← parse_optional py_int form.tls_critical_days
    tls_result (
        normalize_tls_monitoring checker_type (str_eq form.tls_monitor_enabled "true") warning
          critical)

  unfoldable pub form_dns : String → Result FieldError DnsFields
  form_dns checker_type = do
    response ← parse_optional s.parse_float form.dns_max_response_ms
    normalize_dns_fields s.names checker_type (record {
      name = some (form.dns_name);
      record_type = some (form.dns_record_type);
      expected_address = some (form.dns_expected_address);
      max_response_ms = response;
    })

  unfoldable pub form_directory : String → Result FieldError (Option DirectoryCheckConfig)
  form_directory checker_type = do
    hours ← parse_optional s.parse_float form.directory_period_hours
    last ← parse_optional py_int form.directory_show_last
    normalize_directory_fields checker_type (record {
      path = some (form.directory_path);
      pattern = some (form.directory_pattern);
      period_hours = hours;
      show_last = last;
      username = some (form.directory_username);
    })

  unfoldable pub prepare : Result FieldError Prepared
  prepare = do
    fields ← form_fields
    http ← form_http fields.checker_type
    tls ← form_tls fields.checker_type
    dns ← form_dns fields.checker_type
    directory ← form_directory fields.checker_type
    require (not (has_stray_password directory form.directory_password))
        FieldError.password_without_user
    ok (record { fields = fields; http = http; tls = tls; dns = dns; directory = directory })

  -- The assignments of the fields that every check has.
  unfoldable pub assign : Prepared → TargetCheck → TargetCheck
  assign p check = record check {
    name = p.fields.name;
    checker_type = p.fields.checker_type;
    address_override = p.fields.address_override;
    port = p.fields.port;
    path = p.fields.path;
    timeout_seconds = p.fields.timeout_seconds;
    retries = p.fields.retries;
    http_expected_status = p.http.expected_status;
    http_content_contains = p.http.content_contains;
    http_content_not_contains = p.http.content_not_contains;
    http_max_response_ms = p.http.max_response_ms;
    tls_monitor_enabled = p.tls.0;
    tls_warning_days = p.tls.1;
    tls_critical_days = p.tls.2;
    dns_name = p.dns.name;
    dns_record_type = p.dns.record_type;
    dns_expected_address = p.dns.expected_address;
    dns_max_response_ms = p.dns.max_response_ms;
  }

  abbrev new_password : Option String → String → String
  new_password none old = ""
  new_password (some user) old =
      if is_empty form.directory_password then old else s.encrypt_secret form.directory_password

  unfoldable pub assign_directory : DirectoryCheckConfig → TargetCheck → TargetCheck
  assign_directory d check = record check {
    directory_path = some (d.path);
    directory_pattern = some (d.pattern);
    directory_period_hours = some (d.period_hours);
    directory_show_last = some (d.show_last);
    directory_username = d.username;
    directory_password_encrypted = new_password d.username check.directory_password_encrypted;
  }
