-- ===== src/TargetChecks/Handlers.antt =====
-- The handlers of src/monitoring/web/target_check_routes.py after their session is found. The rows of
-- the audit log and the addresses of the redirects are left out.
use monitoring_maxval.Base.{
  ℕ, ◌+◌, Bool, true, false, ◌&&◌, ◌||◌, not, Option, none, some, map, keep, if◌then◌else◌, ◌==◌,
}
use monitoring_maxval.Base.Result.{Result, ok, err, ◌>>=◌, ◌>>◌, require}
use monitoring_maxval.Base.Text.{String, str_eq, ◌⧺◌}
use monitoring_maxval.Base.Rows.{find, update}
use monitoring_maxval.Model.{Store, MonitorTarget, TargetCheck}
use monitoring_maxval.UnstableLink.{reset_unstable_link}
use monitoring_maxval.Incidents.Checks.{
  resolve_target_check_silently, resolve_check_tls_silently, has_check,
}
use monitoring_maxval.TargetChecks.Errors.{FieldError}
use monitoring_maxval.TargetChecks.Directory.{
  DirectoryCheckConfig, clear_directory_fields, clear_directory_runtime,
}
use monitoring_maxval.TargetChecks.Rules.{
  has_check_capacity, duplicate_check_name_exists, next_check_display_order, same_execution,
  default_check, add_check, with_checks,
}
use monitoring_maxval.TargetChecks.Form.{
  Services, CheckForm, Prepared, prepare, assign, assign_directory,
}

-- The answers: `not_found` and `bad_token` are raised, the others are redirects with a notice or an
-- error.
pub data Response : Type 0 where
  bad_token not_found is_primary done : Response
  rejected : FieldError → Response

module _ (s : Services) (form : CheckForm) where
  -- Whether `target_check_create` accepts the form for this target.
  unfoldable pub check_form : ℕ → Option ℕ → Store → Result FieldError Prepared
  check_form target_id exclude_check_id db = do
    p ← prepare s form
    require
        (not (duplicate_check_name_exists s.same_name target_id p.fields.name exclude_check_id db))
        FieldError.duplicate_name
    ok p

  abbrev pub create_directory : Option DirectoryCheckConfig → TargetCheck → TargetCheck
  create_directory none check = check
  create_directory (some d) check = assign_directory s form d check

  -- The new row with the defaults, for the primary key that the database gives.
  abbrev pub blank_check : ℕ → Store → Prepared → ℕ → TargetCheck
  blank_check target_id db p id =
      record (default_check id target_id p.fields.name p.fields.checker_type p.fields.port) {
        display_order = next_check_display_order target_id db;
      }

  unfoldable pub created_check : ℕ → Store → Prepared → ℕ → TargetCheck
  unfolding assign assign_directory
  created_check target_id db p id =
      create_directory p.directory (assign s form p (blank_check target_id db p id))

  unfoldable pub checked_creation : ℕ → Store → Result FieldError Prepared
  checked_creation target_id db = do
    require (has_check_capacity target_id db) FieldError.too_many_checks
    check_form target_id none db

  unfoldable pub target_check_create : Bool → ℕ → Store → Response × Store
  target_check_create token_is_valid target_id db =
      if not token_is_valid
      then (Response.bad_token, db)
      else elim (find MonitorTarget.id target_id db.targets) [
        | none ↦ (Response.not_found, db)
        | some target ↦ elim (checked_creation target.id db) [
          | err e ↦ (Response.rejected e, db)
          | ok p ↦ (Response.done, add_check (created_check target.id db p) db)
        ]
      ]

  abbrev pub update_directory : Option DirectoryCheckConfig → TargetCheck → TargetCheck
  update_directory none check = clear_directory_fields check
  update_directory (some d) check = assign_directory s form d check

  -- A new version of the configuration.
  unfoldable pub renewed : TargetCheck → TargetCheck
  renewed check =
      let next = record check {
        config_version = check.config_version + 1;
        unstable = reset_unstable_link check.unstable;
      } in
      if str_eq check.checker_type "directory" then clear_directory_runtime next else next

  unfoldable pub edited_check : Prepared → TargetCheck → TargetCheck
  unfolding assign assign_directory clear_directory_fields
  edited_check p check = update_directory p.directory (assign s form p check)

  -- The row after the update.
  unfoldable pub updated_check : Prepared → TargetCheck → TargetCheck
  unfolding edited_check renewed
  updated_check p check =
      if same_execution s.sha256 (edited_check p check) check
      then edited_check p check
      else renewed (edited_check p check)

  abbrev pub stops_tls : TargetCheck → TargetCheck → Bool
  stops_tls before after =
      (before.tls_monitor_enabled && not after.tls_monitor_enabled)
      || (str_eq before.checker_type "https" && not (str_eq after.checker_type "https"))

  abbrev pub tls_message : TargetCheck → String
  tls_message check = "Контроль TLS для «" ⧺ check.name ⧺ "» отключён администратором"

  -- The open incident about the certificate goes with the watch over it.
  unfoldable pub close_tls : ℕ → ℕ → TargetCheck → TargetCheck → Store → Store
  close_tls now target_id before after db =
      if stops_tls before after
      then elim (find MonitorTarget.id target_id db.targets) [
        | none ↦ db
        | some target ↦ resolve_check_tls_silently now target after (tls_message after) db
      ]
      else db

  unfoldable pub commit_update : ℕ → ℕ → TargetCheck → Prepared → Store → Store
  unfolding updated_check
  commit_update now target_id check p db =
      close_tls now target_id check (updated_check p check)
        (with_checks (update TargetCheck.id check.id (λ c. updated_check p c) db.checks) db)

  unfoldable pub target_check_update : Bool → ℕ → ℕ → ℕ → Store → Response × Store
  target_check_update token_is_valid now target_id check_id db =
      if not token_is_valid
      then (Response.bad_token, db)
      else elim (find TargetCheck.id check_id db.checks) [
        | none ↦ (Response.not_found, db)
        | some check ↦
            if not (check.target_id == target_id)
            then (Response.not_found, db)
            else if check.is_primary
            then (Response.is_primary, db)
            else elim (check_form target_id (some (check.id)) db) [
              | err e ↦ (Response.rejected e, db)
              | ok p ↦ (Response.done, commit_update now target_id check p db)
            ]
      ]

unfoldable pub toggled_check : TargetCheck → TargetCheck
toggled_check check = record check {
  enabled = not check.enabled;
  config_version = check.config_version + 1;
  unstable = reset_unstable_link check.unstable;
}

abbrev pub disabled_message : TargetCheck → String
disabled_message check = "Проверка «" ⧺ check.name ⧺ "» отключена администратором"

abbrev pub deleted_message : TargetCheck → String
deleted_message check = "Проверка «" ⧺ check.name ⧺ "» удалена администратором"

unfoldable pub commit_toggle : ℕ → MonitorTarget → TargetCheck → Store → Store
unfolding toggled_check
commit_toggle now target check db =
    let changed = with_checks (update TargetCheck.id check.id toggled_check db.checks) db in
    if check.enabled
    then resolve_target_check_silently now target check (disabled_message check) false changed
    else changed

-- `session.delete(check)`, with what the schema makes of the rows that refer to it: its results go (`ON
-- DELETE CASCADE` of models/target_check.py), incidents lose the reference (`SET NULL` of
-- models/incident.py).
unfoldable pub delete_check : TargetCheck → Store → Store
delete_check check db = record db {
  checks = keep (λ c. not (c.id == check.id)) db.checks;
  check_results = keep (λ r. not (r.check_id == check.id)) db.check_results;
  incidents =
      map (λ i. if has_check check.id i then record i { check_id = none } else i) db.incidents;
}

unfoldable pub commit_delete : ℕ → MonitorTarget → TargetCheck → Store → Store
unfolding delete_check
commit_delete now target check db =
    delete_check check
      (resolve_target_check_silently now target check (deleted_message check) true db)

-- The guards that `target_check_toggle` and `target_check_delete` share, before `commit`.
unfoldable pub change_check :
    (MonitorTarget → TargetCheck → Store → Store) → Bool → ℕ → ℕ → Store → Response × Store
change_check commit token_is_valid target_id check_id db =
    if not token_is_valid
    then (Response.bad_token, db)
    else elim (find TargetCheck.id check_id db.checks) [
      | none ↦ (Response.not_found, db)
      | some check ↦
          if not (check.target_id == target_id)
          then (Response.not_found, db)
          else if check.is_primary
          then (Response.is_primary, db)
          else elim (find MonitorTarget.id target_id db.targets) [
            | none ↦ (Response.not_found, db)
            | some target ↦ (Response.done, commit target check db)
          ]
    ]

unfoldable pub target_check_toggle : Bool → ℕ → ℕ → ℕ → Store → Response × Store
target_check_toggle token_is_valid now target_id check_id db =
    change_check (commit_toggle now) token_is_valid target_id check_id db

unfoldable pub target_check_delete : Bool → ℕ → ℕ → ℕ → Store → Response × Store
target_check_delete token_is_valid now target_id check_id db =
    change_check (commit_delete now) token_is_valid target_id check_id db
