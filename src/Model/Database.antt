-- ===== src/Model/Database.antt =====
-- The database behind a session: its tables, the next primary keys that it gives, and the settings
-- of models/setting.py.
use monitoring_maxval.Base.{ℕ, none, some, List, [], ◌∷◌, if◌then◌else◌, Option}
use monitoring_maxval.Base.Text.{String, str_eq}
use monitoring_maxval.Model.Target.{MonitorTarget, TargetCheck}
use monitoring_maxval.Model.Result.{CheckResult, TargetCheckResult}
use monitoring_maxval.Model.IncidentRow.{Incident}
use monitoring_maxval.Model.Schedule.{WorkSchedule, Site}

pub record Store : Type 0 where
  pub settings : List (String × String)
  pub schedules : List WorkSchedule
  pub sites : List Site
  pub targets : List MonitorTarget
  pub checks : List TargetCheck
  pub results : List CheckResult
  pub check_results : List TargetCheckResult
  pub incidents : List Incident
  pub next_check : ℕ
  pub next_result : ℕ
  pub next_check_result : ℕ
  pub next_incident : ℕ

-- `session.get(AppSetting, key)`, and the value of the row
abbrev pub setting : String → List (String × String) → Option String
setting k [] = none
setting k ((j, v) ∷ rows) = if str_eq j k then some v else setting k rows
