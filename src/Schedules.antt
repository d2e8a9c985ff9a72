-- ===== src/Schedules.antt =====
-- Work schedules (src/monitoring/services/work_schedules.py): the clock texts of a weekday, and
-- whether an instant falls into the working hours, also those that run over midnight. The time zone
-- database is not part of the repository: it is the parameter `zone_info`, which gives for the name
-- of a zone the local wall clock of an instant, or `none` where `ZoneInfo` raises
-- `ZoneInfoNotFoundError`. Names for which it raises something else are not modelled: the form of the
-- settings (services/settings.py) calls `ZoneInfo` itself before it stores a name.
pub mod Week
use Prim.Native.Char.{code}
use monitoring_maxval.Base.{
  ℕ, zero, suc, ◌+◌, ◌*◌, ◌/◌, ◌%◌, Bool, true, ◌&&◌, ◌||◌, none, some, List, [], ◌∷◌, ltb, leb,
  ◌==◌, if◌then◌else◌, is_some, Option, false,
}
use monitoring_maxval.Base.Int.{ℤ, pos, negsuc}
use monitoring_maxval.Base.Text.{String, codes, is_empty, py_int, py_int_codes}
use monitoring_maxval.Model.{WorkSchedule, DayHours, setting}
use monitoring_maxval.UnstableLink.{minute_us}

abbrev pub day_us : ℕ
day_us = 86400000000

abbrev pub ZoneInfo : Type 0
ZoneInfo = String → Option (ℕ → ℕ)

unfoldable pub schedule_timezone : List (String × String) → String
schedule_timezone settings = elim (setting "display_timezone" settings) [
  | none ↦ "Europe/Moscow"
  | some zone ↦ if is_empty zone then "Europe/Moscow" else zone
]

-- `text.split(separator)`, on code points
unfoldable pub split_on : ℕ → List ℕ → List (List ℕ)
split_on separator [] = [] ∷ []
split_on separator (c ∷ s) = elim (split_on separator s) [
  | [] ↦ [] ∷ []
  | part ∷ parts ↦ if c == separator then [] ∷ part ∷ parts else (c ∷ part) ∷ parts
]

-- `time(hour=hour, minute=minute)`, in minutes of the day; `none` for `ValueError`
abbrev clock_time : Option ℤ → Option ℤ → Option ℕ
clock_time (some (pos hour)) (some (pos minute)) =
    if ltb hour 24 && ltb minute 60 then some (hour * 60 + minute) else none
clock_time _ _ = none

clock_of_parts : List (List ℕ) → Option ℕ
clock_of_parts (hour ∷ minute ∷ []) = clock_time (py_int_codes hour) (py_int_codes minute)
clock_of_parts _ = none

-- The minutes since midnight. An empty text, `None` and a text that is no clock all give `none`.
unfoldable pub parse_clock : Option String → Option ℕ
unfolding split_on clock_of_parts
parse_clock none = none
parse_clock (some text) =
    if is_empty text then none else clock_of_parts (split_on b':' (codes text))

-- `getattr(schedule, f"{DAY_FIELDS[day][0]}_start")` and `..._end`
abbrev pub day_hours : WorkSchedule → ℕ → DayHours
day_hours s day =
    if day == 0
    then s.monday
    else if day == 1
    then s.tuesday
    else if day == 2
    then s.wednesday
    else if day == 3
    then s.thursday
    else if day == 4
    then s.friday
    else if day == 5
    then s.saturday
    else s.sunday

-- The two conditions on the hours of the day itself; the clocks are in minutes, the time of day in
-- microseconds.
unfoldable pub works_today : Option ℕ → Option ℕ → ℕ → Bool
works_today (some start) (some end) current =
    (ltb start end && leb (start * minute_us) current && ltb current (end * minute_us))
    || (ltb end start && leb (start * minute_us) current)
works_today _ _ current = false

-- The hours of the day before, which run over midnight.
unfoldable pub works_since_yesterday : Option ℕ → Option ℕ → ℕ → Bool
works_since_yesterday (some start) (some end) current =
    ltb end start && ltb current (end * minute_us)
works_since_yesterday _ _ current = false

unfoldable pub day_start : WorkSchedule → ℕ → Option ℕ
day_start s day = parse_clock ((day_hours s day).start)

unfoldable pub day_end : WorkSchedule → ℕ → Option ℕ
day_end s day = parse_clock ((day_hours s day).end)

-- `moment.astimezone(timezone)`, with UTC where the zone is not found
abbrev pub local_time : ZoneInfo → String → ℕ → ℕ
local_time zone_info timezone_name moment = elim (zone_info timezone_name) [
  | none ↦ moment
  | some wall_clock ↦ wall_clock moment
]

-- The decision on a local wall clock: `weekday()` of day 0 is Monday.
unfoldable pub works_at : WorkSchedule → ℕ → Bool
works_at s local =
    let current = local % day_us in
    let day = local / day_us % 7 in
    let previous = (day + 6) % 7 in
    works_today (day_start s day) (day_end s day) current
    || works_since_yesterday (day_start s previous) (day_end s previous) current

unfoldable pub schedule_is_working : ZoneInfo → Option WorkSchedule → ℕ → String → Bool
schedule_is_working zone_info none moment timezone_name = true
schedule_is_working zone_info (some s) moment timezone_name =
    s.is_24x7 || works_at s (local_time zone_info timezone_name moment)
