-- ===== src/Tls.antt =====
-- The expiry of an HTTPS certificate (src/monitoring/services/tls_monitoring.py) and its thresholds
-- (`normalize_tls_monitoring` of src/monitoring/services/target_checks.py). The remaining time is kept
-- in microseconds, where the source has a float number of days.
pub mod Levels
use monitoring_maxval.Base.{
  ℕ, suc, ◌+◌, ◌-◌, ◌*◌, ◌/◌, Bool, true, ◌||◌, not, none, some, if◌then◌else◌, max, ltb, leb,
  Option, false,
}
use monitoring_maxval.Base.Int.{ℤ, pos, negsuc, sub_ℕ, ltb_ℤ, leb_ℤ}
use monitoring_maxval.Base.Result.{Result, ok, err, ◌>>=◌, ◌>>◌}
use monitoring_maxval.Base.Text.{String, ◌⧺◌, decimal, str_eq}
use monitoring_maxval.Model.{TlsHealth}
use monitoring_maxval.Schedules.{day_us}

-- The three messages of `ValueError`.
pub data TlsError : Type 0 where
  warning_not_positive critical_negative warning_not_above_critical : TlsError

pub record TlsEvaluation : Type 0 where
  pub health : TlsHealth
  pub remaining : ℤ
  pub not_after : ℕ

-- `days * 86400`, in microseconds
abbrev pub days_us : ℤ → ℤ
days_us (pos n) = pos (n * day_us)
days_us (negsuc n) = negsuc (suc n * day_us - 1)

abbrev raise_if : Bool → TlsError → Result TlsError (Unit {0})
raise_if true e = err e
raise_if false e = ok tt

-- The checks of `evaluate_tls_certificate`.
unfoldable pub check_thresholds : ℤ → ℤ → Result TlsError (Unit {0})
check_thresholds warning_days critical_days = do
  raise_if (leb_ℤ warning_days (pos 0)) TlsError.warning_not_positive
  raise_if (ltb_ℤ critical_days (pos 0)) TlsError.critical_negative
  raise_if (leb_ℤ warning_days critical_days) TlsError.warning_not_above_critical

unfoldable pub tls_level : ℤ → ℤ → ℤ → TlsHealth
tls_level warning_days critical_days remaining =
    if leb_ℤ remaining (days_us critical_days)
    then TlsHealth.critical
    else if leb_ℤ remaining (days_us warning_days)
    then TlsHealth.warning
    else TlsHealth.ok

unfoldable pub evaluate_tls_certificate : ℕ → ℤ → ℤ → ℕ → Result TlsError TlsEvaluation
unfolding tls_level
evaluate_tls_certificate not_after warning_days critical_days now = do
  check_thresholds warning_days critical_days
  ok (record {
    health = tls_level warning_days critical_days (sub_ℕ not_after now);
    remaining = sub_ℕ not_after now;
    not_after = not_after;
  })

abbrev is_ok : TlsHealth → Bool
is_ok TlsHealth.ok = true
is_ok _ = false

abbrev reason : TlsHealth → ℤ → String
reason health (negsuc n) =
    "TLS: сертификат просрочен на " ⧺ decimal (max 1 (suc n / day_us)) ⧺ " дн."
reason health (pos n) =
    if is_ok health
    then "TLS: сертификат действителен ещё " ⧺ decimal (n / day_us) ⧺ " дн."
    else "TLS: сертификат истекает через " ⧺ decimal (n / day_us) ⧺ " дн."

unfoldable pub tls_reason : TlsEvaluation → String
tls_reason evaluation = reason evaluation.health evaluation.remaining

abbrev pub or_default : Option ℤ → ℕ → ℤ
or_default none d = pos d
or_default (some n) d = n

-- The checks of `normalize_tls_monitoring`, which has its own copy of them.
unfoldable pub check_form_thresholds : ℤ → ℤ → Result TlsError (Unit {0})
check_form_thresholds warning critical = do
  raise_if (leb_ℤ warning (pos 0)) TlsError.warning_not_positive
  raise_if (ltb_ℤ critical (pos 0)) TlsError.critical_negative
  raise_if (leb_ℤ warning critical) TlsError.warning_not_above_critical

-- Whether monitoring is on, and the two thresholds.
unfoldable pub normalize_tls_monitoring :
    String → Bool → Option ℤ → Option ℤ → Result TlsError (Bool × Option ℤ × Option ℤ)
normalize_tls_monitoring checker_type enabled warning_days critical_days =
    if not (str_eq checker_type "https") || not enabled then ok (false, none, none) else (do
      check_form_thresholds (or_default warning_days 30) (or_default critical_days 7)
      ok (true, some (or_default warning_days 30), some (or_default critical_days 7)))
