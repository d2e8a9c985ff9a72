-- ===== src/Tls/Levels.antt =====
-- What the form stores for a certificate, against what its evaluation accepts and answers.
use monitoring_maxval.Base.{
  ℕ, ◌+◌, ◌*◌, ◌≤◌, ◌<◌, Bool, true, ◌||◌, not, Option, some, ◌≡◌, refl, arith, subst, Bool-cases,
  inl, inr, ◌⊎◌, leb,
}
use monitoring_maxval.Base.Int.{ℤ, pos, negsuc, sub_ℕ, leb_ℤ}
use monitoring_maxval.Base.Result.{Result, ok, err}
use monitoring_maxval.Base.Text.{String, str_eq}
use monitoring_maxval.Model.{TlsHealth}
use monitoring_maxval.Schedules.{day_us}
use monitoring_maxval.Tls.{
  TlsError, TlsEvaluation, check_thresholds, check_form_thresholds, tls_level,
  evaluate_tls_certificate, normalize_tls_monitoring, or_default, days_us,
}

Result-cases : {E A : Type 0} (r : Result E A) → ((a : A) × (r ≡ ok a)) ⊎ ((e : E) × (r ≡ err e))
Result-cases (ok a) = inl (a, refl)
Result-cases (err e) = inr (e, refl)

-- Two thresholds in days, the critical one below the other.
abbrev AreThresholds : ℤ → ℤ → Type 0
AreThresholds (pos w) (pos c) = c < w
AreThresholds _ _ = ⊥

-- The level of a certificate that expires at `not_after`, when `warning` and `critical` days count.
abbrev pub IsLevel : ℕ → ℕ → ℕ → ℕ → TlsHealth → Type 0
IsLevel warning critical not_after now TlsHealth.critical = not_after ≤ now + critical * day_us
IsLevel warning critical not_after now TlsHealth.warning =
    (now + critical * day_us < not_after) × (not_after ≤ now + warning * day_us)
IsLevel warning critical not_after now TlsHealth.ok = now + warning * day_us < not_after

check_form_thresholds-AreThresholds :
    (w c : ℤ) → check_form_thresholds w c ≡ ok tt → AreThresholds w c
unfolding check_form_thresholds
check_form_thresholds-AreThresholds (pos w) (pos c) e = ground (arith, e)
check_form_thresholds-AreThresholds (negsuc w) c e = ground (arith, e)
check_form_thresholds-AreThresholds (pos w) (negsuc c) e = ground (arith, e)

check_thresholds-ok : (w c : ℕ) → c < w → check_thresholds (pos w) (pos c) ≡ ok tt
unfolding check_thresholds
check_thresholds-ok w c h = ground arith

sub_days : (a now days : ℕ) → leb_ℤ (sub_ℕ a now) (days_us (pos days)) ≡ leb a (now + days * day_us)
sub_days a now days = ground arith

tls_level-IsLevel :
    (w c not_after now : ℕ)
    → c < w
    → IsLevel w c not_after now (tls_level (pos w) (pos c) (sub_ℕ not_after now))
unfolding tls_level
tls_level-IsLevel w c not_after now h = rw (sub_days not_after now c) (
    rw (sub_days not_after now w) (elim (Bool-cases (leb not_after (now + c * day_us))) [
      | inl p ↦ rw p (ground arith)
      | inr p ↦ elim (Bool-cases (leb not_after (now + w * day_us))) [
        | inl q ↦ rw p (rw q (ground arith))
        | inr q ↦ rw p (rw q (ground arith))
      ]
    ]))

-- The thresholds that are returned pass the checks of the form.
ArePassed : Result TlsError (Bool × Option ℤ × Option ℤ) → Type 0
ArePassed (ok (true, some w, some c)) = check_form_thresholds w c ≡ ok tt
ArePassed _ = Unit

normalize-ArePassed :
    (checker_type : String) (enabled : Bool) (warning critical : Option ℤ)
    → ArePassed (normalize_tls_monitoring checker_type enabled warning critical)
unfolding normalize_tls_monitoring ArePassed
normalize-ArePassed checker_type enabled warning critical =
    elim (Bool-cases (not (str_eq checker_type "https") || not enabled)) [
      | inl q ↦ rw q tt
      | inr q ↦
          elim (Result-cases
            (check_form_thresholds (or_default warning 30) (or_default critical 7))) [
              | inl (u, r) ↦ rw q (rw r r)
              | inr (x, r) ↦ rw q (rw r tt)
            ]
    ]

-- The evaluation succeeds with the level that the dates give.
Evaluates : ℤ → ℤ → ℕ → ℕ → Type 0
Evaluates w c not_after now =
    (warning : ℕ) × (critical : ℕ) × (w ≡ pos warning)
    × (c ≡ pos critical)
    × (e : TlsEvaluation) × (evaluate_tls_certificate not_after w c now ≡ ok e)
    × IsLevel warning critical not_after now e.health

AreThresholds-Evaluates :
    (w c : ℤ) (not_after now : ℕ) → AreThresholds w c → Evaluates w c not_after now
unfolding evaluate_tls_certificate Evaluates
AreThresholds-Evaluates (pos w) (pos c) not_after now h = (
  w,
  c,
  refl,
  refl,
  record {
    health = tls_level (pos w) (pos c) (sub_ℕ not_after now);
    remaining = sub_ℕ not_after now;
    not_after = not_after;
  },
  rw (check_thresholds-ok w c h) refl,
  tls_level-IsLevel w c not_after now h,
)
AreThresholds-Evaluates (negsuc w) c not_after now h = absurd h
AreThresholds-Evaluates (pos w) (negsuc c) not_after now h = absurd h

-- If the options of the form pass `normalize_tls_monitoring` with monitoring switched on, then the two
-- thresholds that it returns are natural numbers, and with them `evaluate_tls_certificate` raises
-- nothing for any certificate at any instant: it answers critical if at most the critical number of
-- days is left, warning if more than that and at most the warning number of days is left, and else ok.
pub normalize_tls_monitoring-evaluate_tls_certificate :
    (checker_type : String) (enabled : Bool) (warning critical : Option ℤ) {w c : ℤ}
    (not_after now : ℕ)
    → normalize_tls_monitoring checker_type enabled warning critical ≡ ok (true, some w, some c)
    → (warning_days : ℕ) × (critical_days : ℕ) × (w ≡ pos warning_days)
      × (c ≡ pos critical_days)
      × (e : TlsEvaluation) × (evaluate_tls_certificate not_after w c now ≡ ok e)
      × IsLevel warning_days critical_days not_after now e.health
unfolding ArePassed Evaluates
normalize_tls_monitoring-evaluate_tls_certificate checker_type enabled warning critical {w} {c} na
      now e =
    AreThresholds-Evaluates w c na now (
      check_form_thresholds-AreThresholds w c
        (subst ArePassed e (normalize-ArePassed checker_type enabled warning critical)))
