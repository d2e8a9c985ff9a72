-- ===== src/TargetChecks/Errors.antt =====
-- The messages of `ValueError` that the form of a check is answered with.
use monitoring_maxval.Tls.{TlsError}

pub data FieldError : Type 0 where
  name_length unknown_checker bad_address missing_port bad_port long_path : FieldError
  bad_timeout bad_retries bad_number : FieldError
  bad_status long_content long_excluded_content bad_response_time : FieldError
  bad_thresholds : TlsError → FieldError
  bad_dns_name not_idna bad_dns_label bad_record_type bad_expected_address : FieldError
  other_family bad_dns_time : FieldError
  no_directory relative_directory bad_pattern bad_period bad_limit long_directory : FieldError
  long_username : FieldError
  password_without_user duplicate_name too_many_checks : FieldError
