-- ===== src/Auth/Counting.antt =====
-- The number of rows with a property, as a relation that does not run a test.
use monitoring_maxval.Base.{
  ℕ, suc, ◌+◌, ◌*◌, ◌≤◌, Bool, true, List, [], ◌∷◌, ◌≡◌, refl, arith, Bool-cases, inl, inr,
}
use monitoring_maxval.Base.Rows.{count}
use monitoring_maxval.Base.Text.{Text, same_text_refl, same_text-≡}
use monitoring_maxval.UnstableLink.{minute_us}
use monitoring_maxval.Auth.Database.{FailedLoginAttempt, Settings}
use monitoring_maxval.Auth.Logins.{counts}

pub data Counted {A : Type 0} (P : A → Type 0) : ℕ → List A → Type 0 where
  nobody : Counted P 0 []
  counted : {n : ℕ} {a : A} {rows : List A} → P a → Counted P n rows → Counted P (suc n) (a ∷ rows)
  passed : {n : ℕ} {a : A} {rows : List A} → (P a → ⊥) → Counted P n rows → Counted P n (a ∷ rows)

pub Counted-count :
    {A : Type 0} {P : A → Type 0} (p : A → Bool) {n : ℕ} {rows : List A}
    → ((a : A) → P a → p a ≡ true)
    → ((a : A) → p a ≡ true → P a)
    → Counted P n rows
    → count p rows ≡ n
unfolding count
Counted-count p to from nobody = refl
Counted-count p to from (counted {a = a} h c) = ground (arith, to a h, Counted-count p to from c)
Counted-count p to from (passed {a = a} h c) = elim (Bool-cases (p a)) [
  | inl q ↦ absurd (h (from a q))
  | inr q ↦ ground (arith, Counted-count p to from c)
]

-- A failed login of the name from the address within the last `login_block_minutes`.
pub record IsRecentFailure (settings : Settings) (now : ℕ) (username ip_address : Text)
    (f : FailedLoginAttempt) : Type 0 where
  pub name : f.username ≡ username
  pub address : f.ip_address ≡ ip_address
  pub recent : now ≤ f.occurred_at + settings.login_block_minutes * minute_us

module _ (settings : Settings) (now : ℕ) (username ip_address : Text) where
  IsRecentFailure-counts :
      (f : FailedLoginAttempt)
      → IsRecentFailure settings now username ip_address f
      → counts settings now username ip_address f ≡ true
  unfolding counts
  IsRecentFailure-counts f h = rw (h.name) (
      rw (h.address)
        (rw (same_text_refl username) (rw (same_text_refl ip_address) (ground (arith, h.recent)))))

  counts-IsRecentFailure :
      (f : FailedLoginAttempt)
      → counts settings now username ip_address f ≡ true
      → IsRecentFailure settings now username ip_address f
  unfolding counts
  counts-IsRecentFailure f e = record {
    name = same_text-≡ f.username username (ground arith);
    address = same_text-≡ f.ip_address ip_address (ground arith);
    recent = ground arith;
  }

  -- The query of `record_failed_login` counts these rows.
  pub count-counts :
      {n : ℕ} {fs : List FailedLoginAttempt}
      → Counted (IsRecentFailure settings now username ip_address) n fs
      → count (counts settings now username ip_address) fs ≡ n
  count-counts =
      Counted-count (counts settings now username ip_address) IsRecentFailure-counts
        counts-IsRecentFailure
