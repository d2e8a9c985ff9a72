-- ===== src/TargetChecks/Primary.antt =====
-- How many primary checks a target has around `ensure_primary_check`.
use monitoring_maxval.Base.{
  ℕ, ◌+◌, ◌≤◌, true, List, ◌==◌, if◌then◌else◌, ◌≡◌, refl, arith, Bool-cases, Option-cases, inl,
  inr, bit, subst, ap, sym, ==→eq,
}
use monitoring_maxval.Base.Rows.{
  count, first, insert, update, In, KeysAreUnique, count-insert, first-none, first-In, count-update,
  count-pos, insert-KeysAreUnique, update-KeysAreUnique,
}
use monitoring_maxval.Model.{Store, MonitorTarget, TargetCheck}
use monitoring_maxval.TargetChecks.Rules.{
  is_primary_of, sync_primary_check, ensure_primary_check, new_primary, add_check, with_checks,
}

-- The columns `id` of the checks are a primary key, and a target has at most one primary check (the
-- index `uq_target_checks_primary_per_target`).
pub record ChecksAreSound (db : Store) : Type 0 where
  pub keys : KeysAreUnique TargetCheck.id db.next_check db.checks
  pub one_primary : (target_id : ℕ) → count (is_primary_of target_id) db.checks ≤ 1

pub record HasOnePrimary (target : MonitorTarget) (db db' : Store) : Type 0 where
  pub sound : ChecksAreSound db'
  pub counts :
      (t : ℕ)
      → count (is_primary_of t) db'.checks
        ≡ (if target.id == t then 1 else count (is_primary_of t) db.checks)

module _ (target : MonitorTarget) (db : Store) (h : ChecksAreSound db) where
  abbrev added : List TargetCheck
  added = insert (new_primary target db.next_check) db.checks

  add_primary-count :
      (t : ℕ)
      → count (is_primary_of t) added ≡ count (is_primary_of t) db.checks + bit (target.id == t)
  add_primary-count t =
      ground (arith, count-insert (is_primary_of t) (new_primary target db.next_check) db.checks)

  sync_primary-count :
      (t : ℕ) (primary : TargetCheck)
      → In primary db.checks
      → is_primary_of target.id primary ≡ true
      → count
          (is_primary_of t)
          (update TargetCheck.id primary.id (sync_primary_check target) db.checks)
        ≡ count (is_primary_of t) db.checks
  unfolding sync_primary_check
  sync_primary-count t primary i p = ground (
    arith,
    p,
    count-update TargetCheck.id (is_primary_of t) primary (sync_primary_check target) db.checks i
        (h.keys.once primary.id),
  )

  sync_primary_check-ChecksAreSound :
      (primary : TargetCheck)
      → In primary db.checks
      → is_primary_of target.id primary ≡ true
      → HasOnePrimary target db
          (with_checks (update TargetCheck.id primary.id (sync_primary_check target) db.checks) db)
  unfolding sync_primary_check
  sync_primary_check-ChecksAreSound primary i p = record {
    sound = record {
      keys =
          update-KeysAreUnique TargetCheck.id db.next_check primary.id (sync_primary_check target)
            db.checks (λ c. refl) h.keys;
      one_primary = λ t. omega (arith, sync_primary-count t primary i p, h.one_primary t);
    };
    counts = λ t. elim (Bool-cases (target.id == t)) [
      | inr q ↦ rw q (sync_primary-count t primary i p)
      | inl q ↦ rw q (
          subst
            (λ k.
              count (is_primary_of k)
                (update TargetCheck.id primary.id (sync_primary_check target) db.checks)
              ≡ 1)
            (==→eq target.id t q)
            (ground (
              arith,
              sync_primary-count target.id primary i p,
              h.one_primary target.id,
              count-pos (is_primary_of target.id) primary db.checks i p,
            )))
    ];
  }

  add_primary-ChecksAreSound :
      count (is_primary_of target.id) db.checks ≡ 0
      → HasOnePrimary target db (add_check (new_primary target) db)
  add_primary-ChecksAreSound z = record {
    sound = record {
      keys =
          insert-KeysAreUnique TargetCheck.id db.next_check (new_primary target db.next_check)
            db.checks refl h.keys;
      one_primary = λ t. ground (arith, add_primary-count t, h.one_primary t, z, same_target t);
    };
    counts = λ t. elim (Bool-cases (target.id == t)) [
      | inr q ↦ rw q (ground (arith, add_primary-count t, q))
      | inl q ↦ rw q (ground (arith, add_primary-count t, q, z, same_target t))
    ];
  }
    where
      same_target :
          (t : ℕ)
          → (target.id == t) ≡ true
          → count (is_primary_of t) db.checks ≡ count (is_primary_of target.id) db.checks
      same_target t q = ap (λ k. count (is_primary_of k) db.checks) (sym (==→eq target.id t q))

-- After `ensure_primary_check` the target has exactly one primary check, the other targets have as
-- many as before, and the keys of the checks are still unique.
pub ensure_primary_check-HasOnePrimary :
    (target : MonitorTarget) (db : Store)
    → ChecksAreSound db
    → HasOnePrimary target db (ensure_primary_check target db)
unfolding ensure_primary_check
ensure_primary_check-HasOnePrimary target db h =
    elim (Option-cases (first (is_primary_of target.id) db.checks)) [
      | inl e ↦
          rw (e, ensure_primary_check)
            (add_primary-ChecksAreSound target db h
              (first-none (is_primary_of target.id) db.checks e))
      | inr (primary, e) ↦
          let found = first-In (is_primary_of target.id) db.checks {a = primary} e in
          rw (e, ensure_primary_check)
            (sync_primary_check-ChecksAreSound target db h primary found.0 found.1)
    ]
