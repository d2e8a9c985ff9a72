-- ===== src/TargetChecks/Answers.antt =====
-- What the answer `done` of a handler says of the database that it leaves.
use monitoring_maxval.Base.{
  ℕ, Bool, true, false, some, ◌==◌, ◌≡◌, refl, Bool-cases, Option-cases, inl, inr, ap,
}
use monitoring_maxval.Base.Rows.{find}
use monitoring_maxval.Model.{Store, MonitorTarget, TargetCheck}
use monitoring_maxval.TargetChecks.Handlers.{Response, change_check}

abbrev pub is_done : Response → Bool
is_done Response.done = true
is_done _ = false

-- If the answer is `done`, the database that is left has the property.
pub data Ends (P : Store → Type 0) : Response × Store → Type 0 where
  ended : {db : Store} → P db → Ends P (Response.done, db)
  refused : {r : Response} {db : Store} → is_done r ≡ false → Ends P (r, db)

pub of_done : {P : Store → Type 0} {o : Response × Store} → Ends P o → o.0 ≡ Response.done → P o.1
of_done (ended h) e = h
of_done (refused n) e = absurd {0} (let k = ap is_done e in cc)

pub some_injective : {A : Type 0} {a b : A} → some a ≡ some b → a ≡ b
some_injective e = cc

pub change_check-Ends_found :
    (P : Store → Type 0) (commit : MonitorTarget → TargetCheck → Store → Store)
    (target_id check_id : ℕ) (db : Store) {check : TargetCheck}
    → find TargetCheck.id check_id db.checks ≡ some check
    → ((target : MonitorTarget)
        → find MonitorTarget.id target_id db.targets ≡ some target
        → P (commit target check db))
    → Ends P (change_check commit true target_id check_id db)
unfolding change_check
change_check-Ends_found P commit target_id check_id db {check} e h =
    elim (Bool-cases (check.target_id == target_id)) [
      | inr q ↦ rw (e, q, change_check) (refused refl)
      | inl q ↦ elim (Bool-cases (check.is_primary)) [
        | inl n ↦ rw (e, q, n, change_check) (refused refl)
        | inr n ↦ elim (Option-cases (find MonitorTarget.id target_id db.targets)) [
          | inl t ↦ rw (e, q, n, t, change_check) (refused refl)
          | inr (target, t) ↦ rw (e, q, n, t, change_check) (ended (h target t))
        ]
      ]
    ]

pub change_check-Ends :
    (P : Store → Type 0) (commit : MonitorTarget → TargetCheck → Store → Store)
    (target_id check_id : ℕ) (db : Store) {check : TargetCheck}
    → find TargetCheck.id check_id db.checks ≡ some check
    → ((target : MonitorTarget) → P (commit target check db))
    → Ends P (change_check commit true target_id check_id db)
change_check-Ends P commit target_id check_id db {check} e h =
    change_check-Ends_found P commit target_id check_id db {check = check} e (λ target _. h target)
