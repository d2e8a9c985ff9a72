-- ===== src/Monitoring/Attempts.antt =====
-- The outcome that the attempts of a check leave.
use monitoring_maxval.Base.{ℕ, suc, ◌+◌, ◌≤◌, ◌<◌, true, false, ◌≡◌, ◌⊎◌}
use monitoring_maxval.Model.{is_up}
use monitoring_maxval.Monitoring.Saving.{CheckOutcome}

-- The attempt that ends the loop, its first one being number i: those before it are not UP, and it is
-- UP or the last.
unfoldable pub IsDecisive : (ℕ → CheckOutcome) → ℕ → ℕ → ℕ → CheckOutcome → Type 0
IsDecisive attempt i left k outcome = record {
  from : i ≤ k;
  within : k < i + left;
  result : outcome ≡ attempt k;
  earlier : (j : ℕ) → i ≤ j → j < k → is_up (attempt j).status ≡ false;
  stops : (is_up (attempt k).status ≡ true) ⊎ (suc k ≡ i + left);
}
