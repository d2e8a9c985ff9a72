-- ===== src/TargetChecks/Steps.antt =====
-- The steps that the handlers make on the table of checks: nothing, a new row, a changed row or a
-- deleted row, the last two never a primary check's.
use monitoring_maxval.Base.{
  ℕ, Bool, true, false, not, none, some, List, keep, ◌==◌, ◌≡◌, refl, sym, Bool-cases, Option-cases,
  inl, inr, subst,
}
use monitoring_maxval.Base.Result.{Result, ok, err}
use monitoring_maxval.TargetChecks.Errors.{FieldError}
use monitoring_maxval.Base.Rows.{find, find-key, update}
use monitoring_maxval.Model.{Store, MonitorTarget, TargetCheck}
use monitoring_maxval.Incidents.Checks.{resolve_target_check_silently}
use monitoring_maxval.TargetChecks.Rules.{has_check_capacity, add_check, with_checks}
use monitoring_maxval.TargetChecks.Form.{Services, CheckForm, Prepared}
use monitoring_maxval.TargetChecks.Handlers.{
  stops_tls, tls_message, disabled_message, deleted_message, Response, check_form, created_check,
  checked_creation, target_check_create, updated_check, close_tls, commit_update,
  target_check_update, toggled_check, commit_toggle, delete_check, commit_delete, change_check,
  target_check_toggle, target_check_delete,
}
use monitoring_maxval.TargetChecks.SameCheck.{
  KeepsIdentity, updated_check-IsSameCheck, toggled_check-IsSameCheck, created_check-IsSameCheck,
}
use monitoring_maxval.TargetChecks.Silent.{
  IncidentsAreSound, IsSilent, IsSilent-refl, resolve_check_tls_silently-IsSilent,
  resolve_target_check_silently-IsSilent, delete_check-IncidentsAreSound,
}

pub data Step (db db' : Store) : Type 0 where
  same : db' ≡ db → Step db db'
  created :
      (target_id : ℕ) (make : ℕ → TargetCheck)
      → ((id : ℕ) → (make id).id ≡ id)
      → ((id : ℕ) → (make id).target_id ≡ target_id)
      → ((id : ℕ) → (make id).is_primary ≡ false)
      → has_check_capacity target_id db ≡ true
      → db' ≡ add_check make db
      → Step db db'
  changed :
      (check : TargetCheck) (f : TargetCheck → TargetCheck)
      → find TargetCheck.id check.id db.checks ≡ some check
      → check.is_primary ≡ false
      → KeepsIdentity f
      → db'.checks ≡ update TargetCheck.id check.id f db.checks
      → db'.next_check ≡ db.next_check
      → (IncidentsAreSound db → IncidentsAreSound db')
      → Step db db'
  deleted :
      (check : TargetCheck)
      → find TargetCheck.id check.id db.checks ≡ some check
      → check.is_primary ≡ false
      → db'.checks ≡ keep (λ c. not (c.id == check.id)) db.checks
      → db'.next_check ≡ db.next_check
      → (IncidentsAreSound db → IncidentsAreSound db')
      → Step db db'

-- `session.get` gives the row with the key that is asked for.
pub found_again :
    (k : ℕ) (db : Store) {check : TargetCheck}
    → find TargetCheck.id k db.checks ≡ some check
    → find TargetCheck.id check.id db.checks ≡ some check
found_again k db {check} e =
    subst (λ j. find TargetCheck.id j db.checks ≡ some check)
      (sym (find-key TargetCheck.id k db.checks {a = check} e)) e

-- The incidents do not depend on the checks.
checks_aside :
    {cs : List TargetCheck} {db : Store}
    → IncidentsAreSound db
    → IncidentsAreSound (with_checks cs db)
checks_aside h = record {
  formed = record { keys = h.formed.keys; one_open = h.formed.one_open };
  plain = h.plain;
}

module _ (s : Services) (form : CheckForm) where
  created_check-Step :
      (target_id : ℕ) (db : Store) (p : Prepared)
      → has_check_capacity target_id db ≡ true
      → Step db (add_check (created_check s form target_id db p) db)
  created_check-Step target_id db p h =
      Step.created target_id (created_check s form target_id db p)
        (λ id. (created_check-IsSameCheck s form target_id db p id).id_lem)
        (λ id. (created_check-IsSameCheck s form target_id db p id).target_lem)
        (λ id. (created_check-IsSameCheck s form target_id db p id).primary_lem) h refl

  created-Step :
      (target_id : ℕ) (db : Store)
      → has_check_capacity target_id db ≡ true
      → (r : Result FieldError Prepared)
      → Step db
          (elim r as (λ _. Response × Store) [
            | err e ↦ (Response.rejected e, db)
            | ok p ↦ (Response.done, add_check (created_check s form target_id db p) db)
          ]).1
  created-Step target_id db h (err e) = Step.same refl
  created-Step target_id db h (ok p) = created_check-Step target_id db p h

  checked_creation-Step :
      (target_id : ℕ) (db : Store)
      → Step db
          (elim (checked_creation s form target_id db) as (λ _. Response × Store) [
            | err e ↦ (Response.rejected e, db)
            | ok p ↦ (Response.done, add_check (created_check s form target_id db p) db)
          ]).1
  unfolding checked_creation
  checked_creation-Step target_id db = elim (Bool-cases (has_check_capacity target_id db)) [
    | inl h ↦
        rw (h, checked_creation) (created-Step target_id db h (check_form s form target_id none db))
    | inr h ↦ rw (h, checked_creation) (Step.same refl)
  ]

  pub target_check_create-Step :
      (token_is_valid : Bool) (target_id : ℕ) (db : Store)
      → Step db (target_check_create s form token_is_valid target_id db).1
  unfolding target_check_create
  target_check_create-Step false target_id db = Step.same refl
  target_check_create-Step true target_id db =
      elim (Option-cases (find MonitorTarget.id target_id db.targets)) [
        | inl e ↦ rw (e, target_check_create) (Step.same refl)
        | inr (target, e) ↦ rw (e, target_check_create) (checked_creation-Step target.id db)
      ]

  pub close_tls-IsSilent :
      (now target_id : ℕ) (before after : TargetCheck) (db : Store)
      → IsSilent db (close_tls s form now target_id before after db)
  unfolding close_tls
  close_tls-IsSilent now target_id before after db =
      elim (Bool-cases (stops_tls s form before after)) [
        | inr q ↦ rw (q, close_tls) IsSilent-refl
        | inl q ↦ elim (Option-cases (find MonitorTarget.id target_id db.targets)) [
          | inl e ↦ rw (q, e, close_tls) IsSilent-refl
          | inr (target, e) ↦
              rw (q, e, close_tls)
                (resolve_check_tls_silently-IsSilent now target after (tls_message s form after) db)
        ]
      ]

  commit_update-Step :
      (now target_id : ℕ) (check : TargetCheck) (p : Prepared) (db : Store)
      → find TargetCheck.id check.id db.checks ≡ some check
      → check.is_primary ≡ false
      → Step db (commit_update s form now target_id check p db)
  unfolding commit_update
  commit_update-Step now target_id check p db e n =
      let silent = close_tls-IsSilent now target_id check (updated_check s form p check) (
        with_checks (update TargetCheck.id check.id (λ c. updated_check s form p c) db.checks)
          db) in
      Step.changed check (λ c. updated_check s form p c) e n (updated_check-IsSameCheck s form p)
        silent.checks_lem silent.next_lem (λ h. silent.incidents_lem (checks_aside h))

  check_form-Step :
      (now target_id : ℕ) (check : TargetCheck) (db : Store)
      → find TargetCheck.id check.id db.checks ≡ some check
      → check.is_primary ≡ false
      → (r : Result FieldError Prepared)
      → Step db
          (elim r as (λ _. Response × Store) [
            | err e ↦ (Response.rejected e, db)
            | ok p ↦ (Response.done, commit_update s form now target_id check p db)
          ]).1
  check_form-Step now target_id check db e n (err r) = Step.same refl
  check_form-Step now target_id check db e n (ok p) =
      commit_update-Step now target_id check p db e n

  pub target_check_update-Step :
      (token_is_valid : Bool) (now target_id check_id : ℕ) (db : Store)
      → Step db (target_check_update s form token_is_valid now target_id check_id db).1
  unfolding target_check_update
  target_check_update-Step false now target_id check_id db = Step.same refl
  target_check_update-Step true now target_id check_id db =
      elim (Option-cases (find TargetCheck.id check_id db.checks)) [
        | inl e ↦ rw (e, target_check_update) (Step.same refl)
        | inr (check, e) ↦ elim (Bool-cases (check.target_id == target_id)) [
          | inr q ↦ rw (e, q, target_check_update) (Step.same refl)
          | inl q ↦ elim (Bool-cases (check.is_primary)) [
            | inl n ↦ rw (e, q, n, target_check_update) (Step.same refl)
            | inr n ↦
                rw (e, q, n, target_check_update)
                  (check_form-Step now target_id check db
                    (found_again check_id db {check = check} e) n
                    (check_form s form target_id (some check.id) db))
          ]
        ]
      ]

commit_toggle-Step :
    (now : ℕ) (target : MonitorTarget) (check : TargetCheck) (db : Store)
    → find TargetCheck.id check.id db.checks ≡ some check
    → check.is_primary ≡ false
    → Step db (commit_toggle now target check db)
unfolding commit_toggle resolve_target_check_silently
commit_toggle-Step now target check db e n = elim (Bool-cases (check.enabled)) [
  | inr q ↦
      rw (q, commit_toggle)
        (Step.changed check toggled_check e n toggled_check-IsSameCheck refl refl checks_aside)
  | inl q ↦
      let silent =
        resolve_target_check_silently-IsSilent now target check (disabled_message check) false
          (with_checks (update TargetCheck.id check.id toggled_check db.checks) db) in
      rw (q, commit_toggle)
        (Step.changed check toggled_check e n toggled_check-IsSameCheck silent.checks_lem
          silent.next_lem (λ h. silent.incidents_lem (checks_aside h)))
]

commit_delete-Step :
    (now : ℕ) (target : MonitorTarget) (check : TargetCheck) (db : Store)
    → find TargetCheck.id check.id db.checks ≡ some check
    → check.is_primary ≡ false
    → Step db (commit_delete now target check db)
unfolding commit_delete delete_check resolve_target_check_silently
commit_delete-Step now target check db e n =
    let closed = resolve_target_check_silently now target check (deleted_message check) true db in
    let silent =
      resolve_target_check_silently-IsSilent now target check (deleted_message check) true db in
    Step.deleted check e n refl refl
      (λ h. delete_check-IncidentsAreSound check closed (silent.incidents_lem h))

change_check-Step :
    (commit : MonitorTarget → TargetCheck → Store → Store)
    → ((target : MonitorTarget) (check : TargetCheck) (db : Store)
        → find TargetCheck.id check.id db.checks ≡ some check
        → check.is_primary ≡ false
        → Step db (commit target check db))
    → (token_is_valid : Bool) (target_id check_id : ℕ) (db : Store)
    → Step db (change_check commit token_is_valid target_id check_id db).1
unfolding change_check
change_check-Step commit h false target_id check_id db = Step.same refl
change_check-Step commit h true target_id check_id db =
    elim (Option-cases (find TargetCheck.id check_id db.checks)) [
      | inl e ↦ rw (e, change_check) (Step.same refl)
      | inr (check, e) ↦ elim (Bool-cases (check.target_id == target_id)) [
        | inr q ↦ rw (e, q, change_check) (Step.same refl)
        | inl q ↦ elim (Bool-cases (check.is_primary)) [
          | inl n ↦ rw (e, q, n, change_check) (Step.same refl)
          | inr n ↦ elim (Option-cases (find MonitorTarget.id target_id db.targets)) [
            | inl t ↦ rw (e, q, n, t, change_check) (Step.same refl)
            | inr (target, t) ↦
                rw (e, q, n, t, change_check)
                  (h target check db (found_again check_id db {check = check} e) n)
          ]
        ]
      ]
    ]

pub target_check_toggle-Step :
    (token_is_valid : Bool) (now target_id check_id : ℕ) (db : Store)
    → Step db (target_check_toggle token_is_valid now target_id check_id db).1
unfolding target_check_toggle
target_check_toggle-Step token_is_valid now target_id check_id db =
    change_check-Step (commit_toggle now) (commit_toggle-Step now) token_is_valid target_id check_id
      db

pub target_check_delete-Step :
    (token_is_valid : Bool) (now target_id check_id : ℕ) (db : Store)
    → Step db (target_check_delete token_is_valid now target_id check_id db).1
unfolding target_check_delete
target_check_delete-Step token_is_valid now target_id check_id db =
    change_check-Step (commit_delete now) (commit_delete-Step now) token_is_valid target_id check_id
      db
