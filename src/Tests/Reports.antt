-- ===== src/Tests/Reports.antt =====
-- The scheduler's figures and the pages of a list.
use monitoring_maxval.Base.{
  ℕ, ◌*◌, ◌≤◌, true, false, none, some, List, [], ◌∷◌, ◌≡◌, arith, length, keep, leb,
}
use monitoring_maxval.Base.Int.{pos}
use monitoring_maxval.Base.Rows.{count}
use monitoring_maxval.Model.{CheckStatus}
use monitoring_maxval.Metrics.{new}
use monitoring_maxval.Metrics.Window.{is_recent}
use monitoring_maxval.Metrics.Report.{snapshot, p95}
use monitoring_maxval.Metrics.Window.{Call, perform_all, all_checks, checks_5m-exact}
use monitoring_maxval.Metrics.Bounds.{p95-covers}
use monitoring_maxval.Pagination.{from_request}
use monitoring_maxval.Pagination.Cover.{IsInside, from_request-IsInside}

-- One check at once, the other ten minutes later.
abbrev two_checks : List (ℕ × Call)
two_checks =
    (0, Call.check (pos 5) CheckStatus.up none)
    ∷ (600000000, Call.check (pos 7) CheckStatus.down (some 3))
    ∷ []

recent_checks :
    (snapshot 600000001 true false (perform_all two_checks (new 5 10))).1.checks_5m
    ≡ length (keep (is_recent 600000001) (all_checks two_checks))
recent_checks =
    checks_5m-exact 5 10 600000001 true false two_checks (omega arith, (omega arith, omega arith))

abbrev durations : List ℕ
durations = 30 ∷ 10 ∷ 20 ∷ []

durations_covered :
    (v : ℕ) × (p95 durations ≡ some v)
    × (95 * length durations ≤ 100 * count (λ d. leb d v) durations)
durations_covered = p95-covers durations (omega arith)

-- Page 9 of 250 rows by 100 is page 3.
last_page-IsInside : IsInside (from_request none (some "9") 250 100 1000)
last_page-IsInside = from_request-IsInside none (some "9") 250 100 1000 (omega arith) (omega arith)
