-- ===== src/Metrics/Window.antt =====
-- The deque of checks holds exactly the checks of the last five minutes.
use monitoring_maxval.Base.{
  ℕ, ◌+◌, ◌≤◌, ◌≡◌, refl, sym, ◌∙◌, ap, subst, Bool, none, some, List, [], ◌∷◌, ◌++◌, leb, length,
  keep, keep-append, arith, Option,
}
use mathlib.Core.List.{append-nil, append_assoc}
use monitoring_maxval.Base.Int.{ℤ}
use monitoring_maxval.Base.Text.{String}
use monitoring_maxval.Model.{CheckStatus}
use monitoring_maxval.Metrics.{
  Metrics, DueTargetTiming, CheckEvent, close_batch, rolling_window_us, not_negative, new,
  record_scan, trim_events, trim, record_check_of, mark_target_complete, finish_batch,
  set_batch_shortest_interval, record_scheduler_error,
}
use monitoring_maxval.Metrics.Report.{snapshot}

-- The check is not older than the window at this instant.
abbrev pub is_recent : ℕ → CheckEvent → Bool
is_recent now e = leb now (e.at + rolling_window_us)

-- The checks are in the order of time, from one instant to another.
abbrev pub AreBetween : ℕ → ℕ → List CheckEvent → Type 0
AreBetween first last [] = first ≤ last
AreBetween first last (e ∷ events) = (first ≤ e.at) × AreBetween e.at last events

keep_all :
    (now first last : ℕ) (events : List CheckEvent)
    → now ≤ first + rolling_window_us
    → AreBetween first last events
    → keep (is_recent now) events ≡ events
keep_all now first last [] h o = refl
keep_all now first last (e ∷ events) h o =
    ground (arith, keep_all now e.at last events (omega arith) o.1)

trim_events-eq-keep :
    (now first last : ℕ) (events : List CheckEvent)
    → AreBetween first last events
    → trim_events now events ≡ keep (is_recent now) events
unfolding trim_events
trim_events-eq-keep now first last [] o = refl
trim_events-eq-keep now first last (e ∷ events) o =
    ground (arith, trim_events-eq-keep now e.at last events o.1, keep_all now e.at last events)

-- What the calls of the object do, in order, each at an instant of the monotonic clock.
pub data Call : Type 0 where
  scan : ℕ → List DueTargetTiming → Call
  check : ℤ → CheckStatus → Option ℕ → Call
  complete : ℕ → Call
  finish : Call
  shortest : Option ℕ → Call
  error : ℕ → String → Call
  look : Bool → Bool → Call

unfoldable pub perform : ℕ → Call → Metrics → Metrics
perform now (Call.scan wall entries) m = record_scan now wall entries m
perform now (Call.check duration status target) m = record_check_of now duration status target m
perform now (Call.complete k) m = mark_target_complete k m
perform now Call.finish m = finish_batch now m
perform now (Call.shortest interval) m = set_batch_shortest_interval interval m
perform now (Call.error wall name) m = record_scheduler_error now wall name m
perform now (Call.look running manual_running) m = (snapshot now running manual_running m).0

unfoldable pub perform_all : List (ℕ × Call) → Metrics → Metrics
perform_all [] m = m
perform_all ((now, call) ∷ calls) m = perform_all calls (perform now call m)

-- Every check that the calls record, forgotten or not.
unfoldable pub all_checks : List (ℕ × Call) → List CheckEvent
all_checks [] = []
all_checks ((now, Call.check duration status target) ∷ calls) =
    record { at = now; duration = not_negative duration; status = status } ∷ all_checks calls
all_checks ((now, _) ∷ calls) = all_checks calls

abbrev pub IsInOrder : ℕ → List (ℕ × Call) → ℕ → Type 0
IsInOrder last [] now = last ≤ now
IsInOrder last ((at, _) ∷ calls) now = (last ≤ at) × IsInOrder at calls now

weaken-AreBetween :
    (first' first last last' : ℕ) (events : List CheckEvent)
    → first' ≤ first
    → last ≤ last'
    → AreBetween first last events
    → AreBetween first' last' events
weaken-AreBetween first' first last last' [] h h' o = omega arith
weaken-AreBetween first' first last last' (e ∷ events) h h' o =
    (omega arith, weaken-AreBetween e.at e.at last last' events (omega arith) h' o.1)

append-AreBetween :
    (first last : ℕ) (events : List CheckEvent) (e : CheckEvent)
    → last ≤ e.at
    → AreBetween first last events
    → AreBetween first e.at (events ++ (e ∷ []))
append-AreBetween first last [] e h o = omega arith
append-AreBetween first last (x ∷ events) e h o = (o.0, append-AreBetween x.at last events e h o.1)

trim_events-AreBetween :
    (now first last : ℕ) (events : List CheckEvent)
    → AreBetween first last events
    → AreBetween first last (trim_events now events)
unfolding trim_events
trim_events-AreBetween now first last [] o = o
trim_events-AreBetween now first last (e ∷ events) o = ground (
  arith,
  weaken-AreBetween first e.at last last (trim_events now events),
  trim_events-AreBetween now e.at last events o.1,
)

keep-keep :
    (now at : ℕ) (events : List CheckEvent)
    → at ≤ now
    → keep (is_recent now) (keep (is_recent at) events) ≡ keep (is_recent now) events
keep-keep now at [] h = refl
keep-keep now at (e ∷ events) h = ground (arith, keep-keep now at events h)

-- The deque is in order, and at any later instant holds the recent ones of all checks.
record Holds (last : ℕ) (log events : List CheckEvent) : Type 0 where
  order : AreBetween 0 last events
  recent : (now : ℕ) → last ≤ now → keep (is_recent now) events ≡ keep (is_recent now) log

Holds-later :
    (last at : ℕ) (log events : List CheckEvent)
    → last ≤ at
    → Holds last log events
    → Holds at log events
Holds-later last at log events h k = record {
  order = weaken-AreBetween 0 0 last at events (omega arith) h k.order;
  recent = λ now le. k.recent now (omega arith);
}

trim_events-Holds :
    (last : ℕ) (log events : List CheckEvent)
    → Holds last log events
    → Holds last log (trim_events last events)
trim_events-Holds last log events k = record {
  order = trim_events-AreBetween last 0 last events k.order;
  recent = λ now le.
      rw (trim_events-eq-keep last 0 last events k.order)
        (keep-keep now last events le ∙ k.recent now le);
}

append-Holds :
    (last : ℕ) (log events : List CheckEvent) (e : CheckEvent)
    → last ≤ e.at
    → Holds last log events
    → Holds e.at (log ++ (e ∷ [])) (events ++ (e ∷ []))
append-Holds last log events e h k = record {
  order = append-AreBetween 0 last events e h k.order;
  recent = λ now le.
      rw (keep-append (is_recent now) events (e ∷ []), keep-append (is_recent now) log (e ∷ []))
        (ap (λ l. l ++ keep (is_recent now) (e ∷ [])) (k.recent now (omega arith)));
}

abbrev recorded : ℕ → Call → List CheckEvent
recorded now (Call.check duration status target) =
    record { at = now; duration = not_negative duration; status = status } ∷ []
recorded now _ = []

close_batch-events :
    (now : ℕ) (started : Option ℕ) (m : Metrics)
    → (close_batch now started m).check_events ≡ m.check_events
close_batch-events now none m = refl
close_batch-events now (some at) m = refl

perform-Holds :
    (last now : ℕ) (call : Call) (log : List CheckEvent) (m : Metrics)
    → last ≤ now
    → Holds last log m.check_events
    → Holds now (log ++ recorded now call) (perform now call m).check_events
unfolding perform record_scan record_check_of mark_target_complete finish_batch
    set_batch_shortest_interval record_scheduler_error snapshot trim
perform-Holds last now (Call.scan wall entries) log m h k =
    rw append-nil (Holds-later last now log m.check_events h k)
perform-Holds last now (Call.check duration status target) log m h k =
    trim_events-Holds now _ _ (append-Holds last log m.check_events _ h k)
perform-Holds last now (Call.complete t) log m h k =
    rw append-nil (Holds-later last now log m.check_events h k)
perform-Holds last now Call.finish log m h k =
    rw (append-nil, close_batch-events now m.batch_started m)
      (trim_events-Holds now log m.check_events (Holds-later last now log m.check_events h k))
perform-Holds last now (Call.shortest none) log m h k =
    rw append-nil (Holds-later last now log m.check_events h k)
perform-Holds last now (Call.shortest (some i)) log m h k =
    rw append-nil (Holds-later last now log m.check_events h k)
perform-Holds last now (Call.error wall name) log m h k =
    rw append-nil
      (trim_events-Holds now log m.check_events (Holds-later last now log m.check_events h k))
perform-Holds last now (Call.look running manual_running) log m h k =
    rw append-nil
      (trim_events-Holds now log m.check_events (Holds-later last now log m.check_events h k))

all_checks-cons :
    (at : ℕ) (call : Call) (calls : List (ℕ × Call))
    → all_checks ((at, call) ∷ calls) ≡ recorded at call ++ all_checks calls
unfolding all_checks
all_checks-cons at (Call.scan wall entries) calls = refl
all_checks-cons at _ calls = refl

perform_all-Holds :
    (last now : ℕ) (calls : List (ℕ × Call)) (log : List CheckEvent) (m : Metrics)
    → IsInOrder last calls now
    → Holds last log m.check_events
    → Holds now (log ++ all_checks calls) (perform_all calls m).check_events
unfolding perform_all all_checks
perform_all-Holds last now [] log m o k =
    rw append-nil (Holds-later last now log m.check_events o k)
perform_all-Holds last now ((at, call) ∷ calls) log m o k =
    subst (λ l. Holds now l (perform_all calls (perform at call m)).check_events)
      (append_assoc log (recorded at call) (all_checks calls)
        ∙ ap (λ l. log ++ l) (sym (all_checks-cons at call calls)))
      (perform_all-Holds at now calls (log ++ recorded at call) (perform at call m) o.1
        (perform-Holds last at call log m o.0 k))

nothing_yet : (poll parallel : ℕ) → Holds 0 [] (new poll parallel).check_events
unfolding new
nothing_yet poll parallel = record { order = omega arith; recent = λ now le. refl }

-- Whatever is called, in the order of a clock that does not go back: a snapshot then counts exactly
-- the checks recorded since the start that are not older than five minutes.
pub checks_5m-exact :
    (poll parallel now : ℕ) (running manual_running : Bool) (calls : List (ℕ × Call))
    → IsInOrder 0 calls now
    → (snapshot now running manual_running (perform_all calls (new poll parallel))).1.checks_5m
      ≡ length (keep (is_recent now) (all_checks calls))
unfolding snapshot trim
checks_5m-exact poll parallel now running manual_running calls o =
    let k = perform_all-Holds 0 now calls [] (new poll parallel) o (nothing_yet poll parallel) in
    ap length (trim_events-eq-keep now 0 now _ k.order ∙ k.recent now (omega arith))
