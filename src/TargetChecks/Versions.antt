-- ===== src/TargetChecks/Versions.antt =====
-- The version of the configuration: an outcome that was measured before a change is not saved after it.
use monitoring_maxval.Base.{
  ℕ, ◌+◌, Bool, true, false, Option, none, some, List, [], if◌then◌else◌, ◌==◌, ◌≡◌, refl, arith,
  subst, sym, Bool-cases, inl, inr, ap, ◌∙◌,
}
use monitoring_maxval.Base.Text.{str_eq}
use monitoring_maxval.Base.Result.{Result, ok, err}
use monitoring_maxval.Base.Rows.{find, find-key, update, find-update_self}
use monitoring_maxval.Model.{Store, MonitorTarget, TargetCheck}
use monitoring_maxval.Schedules.{ZoneInfo}
use monitoring_maxval.Monitoring.Saving.{CheckOutcome, save_target_check_result}
use monitoring_maxval.Monitoring.Guards.{save_target_check_result-stale}
use monitoring_maxval.Incidents.Checks.{resolve_target_check_silently}
use monitoring_maxval.TargetChecks.Errors.{FieldError}
use monitoring_maxval.TargetChecks.Directory.{
  DirectoryCheckConfig, clear_directory_fields, clear_directory_runtime,
}
use monitoring_maxval.TargetChecks.Rules.{same_execution, with_checks}
use monitoring_maxval.TargetChecks.SameCheck.{updated_check-IsSameCheck, toggled_check-IsSameCheck}
use monitoring_maxval.TargetChecks.Steps.{close_tls-IsSilent}
use monitoring_maxval.TargetChecks.Form.{Services, CheckForm, Prepared, assign, assign_directory}
use monitoring_maxval.TargetChecks.Handlers.{
  Response, check_form, edited_check, renewed, updated_check, update_directory, commit_update,
  target_check_update, toggled_check, commit_toggle, target_check_toggle,
}
use monitoring_maxval.TargetChecks.Answers.{
  Ends, ended, refused, of_done, some_injective, change_check-Ends,
}

module _ (s : Services) (form : CheckForm) where
  update_directory-config_version :
      (d : Option DirectoryCheckConfig) (c : TargetCheck)
      → (update_directory s form d c).config_version ≡ c.config_version
  unfolding assign_directory clear_directory_fields clear_directory_runtime
  update_directory-config_version none c = refl
  update_directory-config_version (some d) c = refl

  edited_check-config_version :
      (p : Prepared) (c : TargetCheck) → (edited_check s form p c).config_version ≡ c.config_version
  unfolding edited_check assign
  edited_check-config_version p c = update_directory-config_version p.directory (assign s form p c)

  renewed-config_version :
      (c : TargetCheck) → (renewed s form c).config_version ≡ c.config_version + 1
  unfolding renewed clear_directory_runtime
  renewed-config_version c = elim (Bool-cases (str_eq c.checker_type "directory")) [
    | inl q ↦ rw (q, renewed) refl
    | inr q ↦ rw (q, renewed) refl
  ]

  updated_check-config_version :
      (p : Prepared) (c : TargetCheck)
      → same_execution s.sha256 (updated_check s form p c) c ≡ false
      → ((updated_check s form p c).config_version == c.config_version) ≡ false
  unfolding updated_check
  updated_check-config_version p c h =
      elim (Bool-cases (same_execution s.sha256 (edited_check s form p c) c)) [
        | inl q ↦ (let k = rw (q, updated_check) at h in cc)
        | inr q ↦
            rw (q, updated_check)
              (ground (
                arith,
                renewed-config_version (edited_check s form p c),
                edited_check-config_version p c,
              ))
      ]

  -- The row of the check after its update was committed.
  commit_update-find :
      (now target_id check_id : ℕ) (p : Prepared) (db : Store) {check : TargetCheck}
      → find TargetCheck.id check_id db.checks ≡ some check
      → find TargetCheck.id check_id (commit_update s form now target_id check p db).checks
        ≡ some (updated_check s form p check)
  unfolding commit_update
  commit_update-find now target_id check_id p db {check} e =
      let same_key = find-key TargetCheck.id check_id db.checks {a = check} e in
      let silent = close_tls-IsSilent s form now target_id check (updated_check s form p check) (
        with_checks (update TargetCheck.id check.id (λ c. updated_check s form p c) db.checks)
          db) in
      ap (find TargetCheck.id check_id) silent.checks_lem
      ∙ subst
          (λ k.
            find TargetCheck.id check_id
              (update TargetCheck.id k (λ c. updated_check s form p c) db.checks)
            ≡ some (updated_check s form p check))
          (sym same_key)
          (find-update_self TargetCheck.id check_id (λ c. updated_check s form p c) db.checks
            {a = check} (λ c. (updated_check-IsSameCheck s form p c).id_lem) e)

  check_form-Ends :
      (P : Store → Type 0) (now target_id : ℕ) (check : TargetCheck) (db : Store)
      → ((p : Prepared) → P (commit_update s form now target_id check p db))
      → (r : Result FieldError Prepared)
      → Ends P (elim r as (λ _. Response × Store) [
        | err e ↦ (Response.rejected e, db)
        | ok p ↦ (Response.done, commit_update s form now target_id check p db)
      ])
  check_form-Ends P now target_id check db h (err e) = refused refl
  check_form-Ends P now target_id check db h (ok p) = ended (h p)

  -- An update that is done has committed the row of some form.
  target_check_update-Ends :
      (P : Store → Type 0) (now target_id check_id : ℕ) (db : Store) {check : TargetCheck}
      → find TargetCheck.id check_id db.checks ≡ some check
      → ((p : Prepared) → P (commit_update s form now target_id check p db))
      → Ends P (target_check_update s form true now target_id check_id db)
  unfolding target_check_update
  target_check_update-Ends P now target_id check_id db {check} e h =
      elim (Bool-cases (check.target_id == target_id)) [
        | inr q ↦ rw (e, q, target_check_update) (refused refl)
        | inl q ↦ elim (Bool-cases (check.is_primary)) [
          | inl n ↦ rw (e, q, n, target_check_update) (refused refl)
          | inr n ↦
              rw (e, q, n, target_check_update)
                (check_form-Ends P now target_id check db h
                  (check_form s form target_id (some check.id) db))
        ]
      ]

  -- After an update that changed what a check executes, an outcome that was measured under the version
  -- from before neither raises nor notifies nor changes the database.
  pub target_check_update-save_target_check_result :
      (zone_info : ZoneInfo) (now later target_id check_id : ℕ) (outcome : CheckOutcome)
      (db : Store) {check after : TargetCheck}
      → find TargetCheck.id check_id db.checks ≡ some check
      → (target_check_update s form true now target_id check_id db).0 ≡ Response.done
      → find TargetCheck.id check_id
          (target_check_update s form true now target_id check_id db).1.checks
        ≡ some after
      → same_execution s.sha256 after check ≡ false
      → save_target_check_result zone_info later target_id check_id outcome
          (some check.config_version)
          (target_check_update s form true now target_id check_id db).1
        ≡ ok ([], (target_check_update s form true now target_id check_id db).1)
  target_check_update-save_target_check_result zone_info now later target_id check_id outcome db
        {check} {after} e d f n =
      let (p, q) =
        of_done
          (target_check_update-Ends
            (λ db'. (p : Prepared) × (db' ≡ commit_update s form now target_id check p db)) now
            target_id check_id db {check = check} e (λ p. (p, refl)))
          d in
      let g =
        ap (λ x. find TargetCheck.id check_id (Store.checks x)) q
        ∙ commit_update-find now target_id check_id p db {check = check} e in
      let same = some_injective (sym g ∙ f) in
      save_target_check_result-stale zone_info later target_id check_id check.config_version outcome
        (target_check_update s form true now target_id check_id db).1
        (λ c h.
          subst (λ x. (TargetCheck.config_version x == check.config_version) ≡ false)
            (some_injective (sym g ∙ h))
            (updated_check-config_version p check
              (subst (λ x. same_execution s.sha256 x check ≡ false) (sym same) n)))

abbrev Toggled : ℕ → TargetCheck → Store → Type 0
Toggled check_id check db' = find TargetCheck.id check_id db'.checks ≡ some (toggled_check check)

checks_of :
    (P : List TargetCheck → Type 0) (b : Bool) (x y : Store)
    → P x.checks
    → y.checks ≡ x.checks
    → P (if b then x else y).checks
checks_of P true x y h e = h
checks_of P false x y h e = subst P (sym e) h

commit_toggle-find :
    (now check_id : ℕ) (target : MonitorTarget) (db : Store) {check : TargetCheck}
    → find TargetCheck.id check_id db.checks ≡ some check
    → Toggled check_id check (commit_toggle now target check db)
unfolding commit_toggle resolve_target_check_silently
commit_toggle-find now check_id target db {check} e =
    let same_key = find-key TargetCheck.id check_id db.checks {a = check} e in
    checks_of (λ cs. find TargetCheck.id check_id cs ≡ some (toggled_check check)) check.enabled _ _
      (subst
        (λ k.
          find TargetCheck.id check_id (update TargetCheck.id k toggled_check db.checks)
          ≡ some (toggled_check check))
        (sym same_key)
        (find-update_self TargetCheck.id check_id toggled_check db.checks {a = check}
          (λ c. (toggled_check-IsSameCheck c).id_lem) e))
      refl

next_version : (v : ℕ) → ((v + 1) == v) ≡ false
next_version v = ground arith

-- Once a check was switched on or off, an outcome that was measured under the version from before
-- neither raises nor notifies nor changes the database.
pub target_check_toggle-save_target_check_result :
    (zone_info : ZoneInfo) (now later target_id check_id : ℕ) (outcome : CheckOutcome) (db : Store)
    {check : TargetCheck}
    → find TargetCheck.id check_id db.checks ≡ some check
    → (target_check_toggle true now target_id check_id db).0 ≡ Response.done
    → save_target_check_result zone_info later target_id check_id outcome
        (some check.config_version)
        (target_check_toggle true now target_id check_id db).1
      ≡ ok ([], (target_check_toggle true now target_id check_id db).1)
unfolding target_check_toggle toggled_check
target_check_toggle-save_target_check_result zone_info now later target_id check_id outcome db
      {check} e d =
    let found =
      of_done
        (change_check-Ends (Toggled check_id check) (commit_toggle now) target_id check_id db
          {check = check} e (λ target. commit_toggle-find now check_id target db {check = check} e))
        d in
    save_target_check_result-stale zone_info later target_id check_id check.config_version outcome
      (target_check_toggle true now target_id check_id db).1
      (λ c h.
        subst (λ x. (TargetCheck.config_version x == check.config_version) ≡ false)
          (some_injective (sym found ∙ h)) (next_version check.config_version))
