-- ===== src/Model/Kinds.antt =====
-- The enumerations of models/check_result.py, models/incident.py and services/tls_monitoring.py, with
-- their equality tests.
use monitoring_maxval.Base.{Bool, true, false}

pub data CheckStatus : Type 0 where
  up down unknown : CheckStatus

-- `active` is the member `OPEN`.
pub data IncidentStatus : Type 0 where
  active resolved : IncidentStatus

pub data SourceKind : Type 0 where
  availability snmp check check_tls : SourceKind

pub data Severity : Type 0 where
  warning critical : Severity

pub data TlsHealth : Type 0 where
  ok warning critical : TlsHealth

pub data TargetKind : Type 0 where
  server computer network printer ups camera website service : TargetKind

abbrev pub is_up : CheckStatus → Bool
is_up CheckStatus.up = true
is_up _ = false

abbrev pub is_down : CheckStatus → Bool
is_down CheckStatus.down = true
is_down _ = false

abbrev pub is_active : IncidentStatus → Bool
is_active IncidentStatus.active = true
is_active _ = false

abbrev pub same_kind : SourceKind → SourceKind → Bool
same_kind SourceKind.availability SourceKind.availability = true
same_kind SourceKind.snmp SourceKind.snmp = true
same_kind SourceKind.check SourceKind.check = true
same_kind SourceKind.check_tls SourceKind.check_tls = true
same_kind _ _ = false

abbrev pub is_critical : Severity → Bool
is_critical Severity.critical = true
is_critical Severity.warning = false
