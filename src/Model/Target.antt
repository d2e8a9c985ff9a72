-- ===== src/Model/Target.antt =====
-- models/target.py and `TargetCheck` of models/target_check.py. Float columns count thousandths.
use monitoring_maxval.Base.{ℕ, Bool, List, Option}
use monitoring_maxval.Base.Int.{ℤ}
use monitoring_maxval.Base.Text.{String}
use monitoring_maxval.Model.Kinds.{TargetKind}

-- The two columns of `UnstableLinkSource`, which targets and checks both have.
pub record UnstableLink : Type 0 where
  pub pending_down : Bool
  pub until : Option ℕ

pub record MonitorTarget : Type 0 where
  pub id : ℕ
  pub site_id : ℕ
  pub name : String
  pub kind : TargetKind
  pub checker_type : String
  pub address : String
  pub port : ℕ
  pub interval_seconds : ℕ
  pub enabled : Bool
  pub favorite : Bool
  pub is_site_entry : Bool
  pub display_order : ℕ
  pub notifications_suppressed : Bool
  pub unstable : UnstableLink

-- One entry of the JSON column `directory_last_files`.
pub record DirectoryFile : Type 0 where
  pub name : String
  pub modified_at : String
  pub size_bytes : ℕ

pub record TargetCheck : Type 0 where
  pub id : ℕ
  pub target_id : ℕ
  pub name : String
  pub checker_type : String
  pub address_override : Option String
  pub port : ℕ
  pub path : String
  pub timeout_seconds : Option ℕ
  pub retries : ℕ
  pub enabled : Bool
  pub is_primary : Bool
  pub display_order : ℕ
  pub config_version : ℕ
  pub http_expected_status : Option ℕ
  pub http_content_contains : Option String
  pub http_content_not_contains : Option String
  pub http_max_response_ms : Option ℕ
  pub tls_monitor_enabled : Bool
  pub tls_warning_days : Option ℤ
  pub tls_critical_days : Option ℤ
  pub dns_name : Option String
  pub dns_record_type : Option String
  pub dns_expected_address : Option String
  pub dns_max_response_ms : Option ℕ
  pub directory_path : Option String
  pub directory_pattern : Option String
  pub directory_period_hours : Option ℕ
  pub directory_show_last : Option ℕ
  pub directory_username : Option String
  pub directory_password_encrypted : String
  pub directory_last_files : Option (List DirectoryFile)
  pub directory_recent_count : Option ℕ
  pub directory_latest_file_at : Option ℕ
  pub directory_scanned_at : Option ℕ
  pub unstable : UnstableLink
