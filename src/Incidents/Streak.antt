-- ===== src/Incidents/Streak.antt =====
-- The test that confirms an outage counts the DOWN results since the last other one.
use monitoring_maxval.Base.{
  ℕ, zero, suc, List, [], ◌∷◌, ◌≡◌, refl, arith, leb, if◌then◌else◌, false,
}
use monitoring_maxval.Model.{CheckStatus, is_down}
use monitoring_maxval.Incidents.Steps.{all_down}

-- How many results in a row are DOWN, the latest first.
unfoldable pub down_streak : List CheckStatus → ℕ
down_streak [] = 0
down_streak (s ∷ history) = if is_down s then suc (down_streak history) else 0

pub down_streak-down :
    (history : List CheckStatus)
    → down_streak (CheckStatus.down ∷ history) ≡ suc (down_streak history)
unfolding down_streak
down_streak-down history = refl

pub down_streak-other :
    (s : CheckStatus) (history : List CheckStatus)
    → is_down s ≡ false
    → down_streak (s ∷ history) ≡ 0
unfolding down_streak
down_streak-other s history e = rw e

-- The latest `threshold` statuses are that many and all DOWN exactly if the streak is that long.
pub all_down-eq-streak :
    (threshold : ℕ) (history : List CheckStatus)
    → all_down threshold history ≡ leb threshold (down_streak history)
unfolding all_down down_streak
all_down-eq-streak zero history = ground arith
all_down-eq-streak (suc n) [] = ground arith
all_down-eq-streak (suc n) (s ∷ history) = ground (arith, all_down-eq-streak n history)
