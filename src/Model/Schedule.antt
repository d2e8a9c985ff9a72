-- ===== src/Model/Schedule.antt =====
-- models/work_schedule.py and models/site.py.
use monitoring_maxval.Base.{ℕ, Bool, Option}
use monitoring_maxval.Base.Text.{String}

-- The texts `HH:MM` of one weekday.
pub record DayHours : Type 0 where
  pub start : Option String
  pub end : Option String

pub record WorkSchedule : Type 0 where
  pub id : ℕ
  pub is_24x7 : Bool
  pub monday : DayHours
  pub tuesday : DayHours
  pub wednesday : DayHours
  pub thursday : DayHours
  pub friday : DayHours
  pub saturday : DayHours
  pub sunday : DayHours

pub record Site : Type 0 where
  pub id : ℕ
  pub schedule_id : ℕ
  pub name : String
  pub enabled : Bool
  pub display_order : ℕ
