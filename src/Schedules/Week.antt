-- ===== src/Schedules/Week.antt =====
-- Working hours as intervals of the week: what `schedule_is_working` decides.
use monitoring_maxval.Base.{
  ℕ, ◌+◌, ◌-◌, ◌*◌, ◌/◌, ◌%◌, ◌<◌, true, ◌||◌, none, some, ◌≡◌, ◌≢◌, ◌⊎◌, inl, inr, refl, List, [],
  ◌∷◌, ltb, if◌then◌else◌, arith, Bool-cases, or_true, Option, ◌↔◌,
}
use monitoring_maxval.Base.Int.{ℤ, pos, negsuc}
use monitoring_maxval.Base.Text.{String, is_empty, py_int_codes, codes}
use monitoring_maxval.Model.{WorkSchedule}
use monitoring_maxval.UnstableLink.{minute_us}
use monitoring_maxval.Schedules.{
  day_us, parse_clock, clock_time, clock_of_parts, split_on, day_start, day_end, works_today,
  works_since_yesterday, works_at,
}

abbrev pub week_us : ℕ
week_us = 604800000000

-- The length of a shift in minutes; one that does not end after it starts runs over midnight.
abbrev pub shift_minutes : ℕ → ℕ → ℕ
shift_minutes start end = if ltb start end then end - start else end + 1440 - start

-- The instant of the week lies in the shift that starts on this day; the week is a circle.
abbrev pub InShift : ℕ → ℕ → ℕ → ℕ → Type 0
InShift day start end instant =
    (instant + week_us - (day * day_us + start * minute_us)) % week_us
    < shift_minutes start end * minute_us

-- A weekday with a shift that holds the instant.
pub record IsOnShift (s : WorkSchedule) (instant : ℕ) : Type 0 where
  pub day : ℕ
  pub is_day : day < 7
  pub start : ℕ
  pub end : ℕ
  pub starts : day_start s day ≡ some start
  pub ends : day_end s day ≡ some end
  pub differ : start ≢ end
  pub inside : InShift day start end instant

clock_time-lt : (h m : Option ℤ) {n : ℕ} → clock_time h m ≡ some n → n < 1440
clock_time-lt (some (pos h)) (some (pos m)) e = ground arith
clock_time-lt none m e = cc
clock_time-lt (some (negsuc h)) m e = cc
clock_time-lt (some (pos h)) none e = cc
clock_time-lt (some (pos h)) (some (negsuc m)) e = cc

clock_of_parts-lt : (parts : List (List ℕ)) {n : ℕ} → clock_of_parts parts ≡ some n → n < 1440
unfolding clock_of_parts
clock_of_parts-lt [] e = cc
clock_of_parts-lt (h ∷ []) e = cc
clock_of_parts-lt (h ∷ m ∷ []) e = clock_time-lt (py_int_codes h) (py_int_codes m) e
clock_of_parts-lt (h ∷ m ∷ x ∷ r) e = cc

-- A clock is a minute of the day.
pub parse_clock-lt : (text : Option String) {n : ℕ} → parse_clock text ≡ some n → n < 1440
unfolding parse_clock
parse_clock-lt none e = cc
parse_clock-lt (some text) {n} e = elim (Bool-cases (is_empty text)) [
  | inl b ↦ ground arith
  | inr b ↦ ground (arith, clock_of_parts-lt (split_on b':' (codes text)) {n = n})
]

-- The instant of the week in days and the time of the day.
week_split : (local : ℕ) → local % week_us ≡ (local / day_us % 7) * day_us + local % day_us
week_split local = omega arith

today_InShift :
    (day start end current : ℕ)
    → day < 7
    → start < 1440
    → end < 1440
    → current < day_us
    → works_today (some start) (some end) current ≡ true
    → (start ≢ end) × InShift day start end (day * day_us + current)
unfolding works_today
today_InShift day start end current d s e c w = ground arith

yesterday_InShift :
    (day start end current : ℕ)
    → day < 7
    → start < 1440
    → end < 1440
    → current < day_us
    → works_since_yesterday (some start) (some end) current ≡ true
    → (start ≢ end) × InShift ((day + 6) % 7) start end (day * day_us + current)
unfolding works_since_yesterday
yesterday_InShift day start end current d s e c w = ground arith

InShift-works :
    (day d start end current : ℕ)
    → day < 7
    → d < 7
    → start < 1440
    → end < 1440
    → current < day_us
    → start ≢ end
    → InShift d start end (day * day_us + current)
    → ((d ≡ day) × (works_today (some start) (some end) current ≡ true))
      ⊎ ((d ≡ (day + 6) % 7) × (works_since_yesterday (some start) (some end) current ≡ true))
unfolding works_today works_since_yesterday
InShift-works day d start end current h h' s e c ne i = ground arith

works_today-shift :
    (o o' : Option ℕ) (current : ℕ)
    → works_today o o' current ≡ true
    → (start : ℕ) × (end : ℕ) × (o ≡ some start)
      × (o' ≡ some end)
      × (works_today (some start) (some end) current ≡ true)
unfolding works_today
works_today-shift none o' current e = cc
works_today-shift (some start) none current e = cc
works_today-shift (some start) (some end) current e = (start, end, refl, refl, e)

works_since_yesterday-shift :
    (o o' : Option ℕ) (current : ℕ)
    → works_since_yesterday o o' current ≡ true
    → (start : ℕ) × (end : ℕ) × (o ≡ some start)
      × (o' ≡ some end)
      × (works_since_yesterday (some start) (some end) current ≡ true)
unfolding works_since_yesterday
works_since_yesterday-shift none o' current e = cc
works_since_yesterday-shift (some start) none current e = cc
works_since_yesterday-shift (some start) (some end) current e = (start, end, refl, refl, e)

start_clock : (s : WorkSchedule) (day : ℕ) {n : ℕ} → day_start s day ≡ some n → n < 1440
unfolding day_start
start_clock s day e = parse_clock-lt _ e

end_clock : (s : WorkSchedule) (day : ℕ) {n : ℕ} → day_end s day ≡ some n → n < 1440
unfolding day_end
end_clock s day e = parse_clock-lt _ e

module _ (s : WorkSchedule) (day current : ℕ) (d : day < 7) (c : current < day_us) where
  abbrev Works : Type 0
  Works =
      (works_today (day_start s day) (day_end s day) current
        || works_since_yesterday (day_start s ((day + 6) % 7)) (day_end s ((day + 6) % 7)) current)
      ≡ true

  works_shift : Works → IsOnShift s (day * day_us + current)
  works_shift w = elim (Bool-cases (works_today (day_start s day) (day_end s day) current)) [
    | inl t ↦ today_shift (works_today-shift (day_start s day) (day_end s day) current t)
    | inr f ↦ yesterday_shift (
        works_since_yesterday-shift (day_start s ((day + 6) % 7)) (day_end s ((day + 6) % 7))
          current (rw f at w))
  ]
    where
      today_shift :
          ((start : ℕ) × (end : ℕ) × (day_start s day ≡ some start)
            × (day_end s day ≡ some end)
            × (works_today (some start) (some end) current ≡ true))
          → IsOnShift s (day * day_us + current)
      today_shift (start, end, starts, ends, w) =
          let (differ, inside) =
            today_InShift day start end current d (start_clock s day starts) (end_clock s day ends)
              c w in
          record {
            day = day;
            is_day = d;
            start = start;
            end = end;
            starts = starts;
            ends = ends;
            differ = differ;
            inside = inside;
          }

      yesterday_shift :
          ((start : ℕ) × (end : ℕ) × (day_start s ((day + 6) % 7) ≡ some start)
            × (day_end s ((day + 6) % 7) ≡ some end)
            × (works_since_yesterday (some start) (some end) current ≡ true))
          → IsOnShift s (day * day_us + current)
      yesterday_shift (start, end, starts, ends, w) =
          let (differ, inside) =
            yesterday_InShift day start end current d (start_clock s ((day + 6) % 7) starts)
              (end_clock s ((day + 6) % 7) ends) c w in
          record {
            day = (day + 6) % 7;
            is_day = omega arith;
            start = start;
            end = end;
            starts = starts;
            ends = ends;
            differ = differ;
            inside = inside;
          }

  shift_works : IsOnShift s (day * day_us + current) → Works
  shift_works r =
      elim (InShift-works day r.day r.start r.end current d r.is_day (start_clock s r.day r.starts)
        (end_clock s r.day r.ends) c r.differ r.inside) [
          | inl (e, w) ↦ rw (← e) (rw (r.starts, r.ends) (rw w))
          | inr (e, w) ↦ rw (← e) (rw (r.starts, r.ends) (rw w (or_true _)))
        ]

-- A schedule is at work exactly while one of its weekly shifts lasts: the shift of a weekday with a
-- start and an end that are clocks and differ, from the start to the end, over midnight and from
-- Sunday to Monday too.
pub works_at-iff-IsOnShift :
    (s : WorkSchedule) (local : ℕ) → (works_at s local ≡ true) ↔ IsOnShift s (local % week_us)
unfolding works_at
works_at-iff-IsOnShift s local = rw week_split (
  works_shift s (local / day_us % 7) (local % day_us) (omega arith) (omega arith),
  shift_works s (local / day_us % 7) (local % day_us) (omega arith) (omega arith),
)
