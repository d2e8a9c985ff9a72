-- ===== src/Thresholds/Values.antt =====
-- `_threshold_value`: the reading of a threshold, if there is one from this very poll.
use monitoring_maxval.Base.{
  ℕ, ◌*◌, Bool, false, ◌&&◌, ◌||◌, not, Option, none, some, List, [], ◌∷◌, keep, if◌then◌else◌,
  is_some, ltb, leb, ◌==◌, all, take,
}
use monitoring_maxval.Base.Int.{ℤ, pos}
use monitoring_maxval.Base.Text.{String, Text, str_eq, codes, same_text, py_int_codes}
use monitoring_maxval.Base.Strings.{same_option}
use monitoring_maxval.Base.Rows.{find, first}
use monitoring_maxval.Base.Sort.{sort}
use monitoring_maxval.Thresholds.Level.{counter_total, safe_counter_delta}
use monitoring_maxval.Thresholds.Tables.{
  SnmpStore, SnmpThreshold, SourceOf, SnmpMetric, SnmpSample, SnmpSupply, SnmpConfig, SnmpUpsState,
  SnmpUpsLine, SnmpInterface, SnmpInterfaceSample,
}

infixl 5 ◌>>=◌
abbrev ◌>>=◌ {ℓ} : {A B : Type ℓ} → Option A → (A → Option B) → Option B
none >>= f = none
some a >>= f = f a

-- The text before the first character `c`, and the text behind it.
unfoldable pub partition : ℕ → Text → Option (Text × Text)
partition c [] = none
partition c (d ∷ s) = elim (partition c s) [
  | none ↦ if d == c then some ([], s) else none
  | some (before, after) ↦ if d == c then some ([], s) else some (d ∷ before, after)
]

-- The text before the last character `c`, and the text behind it: `rsplit(c, 1)`, where there is one.
unfoldable pub rsplit : ℕ → Text → Option (Text × Text)
rsplit c [] = none
rsplit c (d ∷ s) = elim (rsplit c s) [
  | none ↦ if d == c then some ([], s) else none
  | some (before, after) ↦ some (d ∷ before, after)
]

-- `getattr(state, field)`, where the field is one of `UPS_STATE_FIELDS`
unfoldable pub state_field : String → SnmpUpsState → Option (Option ℤ)
state_field field state =
    if str_eq field "battery_charge_percent"
    then some (state.battery_charge_percent)
    else if str_eq field "estimated_runtime_minutes"
    then some (state.estimated_runtime_minutes)
    else if str_eq field "battery_voltage"
    then some (state.battery_voltage)
    else if str_eq field "battery_temperature"
    then some (state.battery_temperature)
    else none

-- `getattr(line, field)`, where the field is one of `UPS_LINE_FIELDS`
unfoldable pub line_field : Text → Option (SnmpUpsLine → Option ℤ)
line_field field =
    if same_text field (codes "voltage")
    then some SnmpUpsLine.voltage
    else if same_text field (codes "current")
    then some SnmpUpsLine.current
    else if same_text field (codes "load_percent")
    then some SnmpUpsLine.load_percent
    else none

abbrev is_decimal : Text → Bool
is_decimal [] = false
is_decimal (c ∷ s) = all (λ d. leb b'0' d && leb d b'9') (c ∷ s)

-- A field `direction_name:index` of a line.
pub record LineField : Type 0 where
  pub direction : Text
  pub index : ℕ
  pub read : SnmpUpsLine → Option ℤ

abbrev line_of : Text → Text → Option ℤ → (SnmpUpsLine → Option ℤ) → Option LineField
line_of direction raw (some (pos n)) read =
    if is_decimal raw then some (record { direction = direction; index = n; read = read }) else none
line_of direction raw _ read = none

unfoldable pub parse_line_field : Text → Option LineField
parse_line_field field = do
  (prefix, raw_line_index) ← rsplit b':' field
  (direction, name) ← partition b'_' prefix
  read ← line_field name
  line_of direction raw_line_index (py_int_codes raw_line_index) read

-- `last_polled_at is not None and _same_observation(last_polled_at, observed_at)`
abbrev pub is_polled_at : ℕ → Option ℕ → Bool
is_polled_at observed_at polled = same_option (λ a b. a == b) polled (some observed_at)

abbrev later_sample : SnmpSample → SnmpSample → Bool
later_sample a b =
    ltb b.collected_at a.collected_at || ((a.collected_at == b.collected_at) && ltb b.id a.id)

abbrev later_interface_sample : SnmpInterfaceSample → SnmpInterfaceSample → Bool
later_interface_sample a b =
    ltb b.collected_at a.collected_at || ((a.collected_at == b.collected_at) && ltb b.id a.id)

abbrev sample_value : ℕ → List SnmpSample → Option ℤ
sample_value observed_at [] = none
sample_value observed_at (sample ∷ _) =
    if sample.collected_at == observed_at then some (sample.value) else none

-- Megabits per second, and whole numbers.
abbrev megabits : Option ℕ → Option ℤ
megabits none = none
megabits (some n) = some (pos (n * 10000))

abbrev whole : Option ℕ → Option ℤ
whole none = none
whole (some n) = some (pos (n * 10000000000))

-- The difference to the sample before; a sample without rates follows a reboot or a reset.
abbrev delta_value : String → SnmpInterfaceSample → List SnmpInterfaceSample → Option ℤ
delta_value field current [] = none
delta_value field current (previous ∷ _) =
    if not (is_some current.rx_bps) && not (is_some current.tx_bps)
    then none
    else if str_eq field "errors_delta"
    then whole (
        safe_counter_delta (counter_total current.in_errors current.out_errors)
          (counter_total previous.in_errors previous.out_errors))
    else if str_eq field "discards_delta"
    then whole (
        safe_counter_delta (counter_total current.in_discards current.out_discards)
          (counter_total previous.in_discards previous.out_discards))
    else none

unfoldable pub interface_value : String → ℕ → List SnmpInterfaceSample → Option ℤ
interface_value field observed_at [] = none
interface_value field observed_at (current ∷ earlier) =
    if not (current.collected_at == observed_at)
    then none
    else if str_eq field "rx_bps"
    then megabits current.rx_bps
    else if str_eq field "tx_bps"
    then megabits current.tx_bps
    else delta_value field current earlier

module _ (db : SnmpStore) (observed_at : ℕ) where
  unfoldable pub metric_value : Option ℕ → Option ℤ
  metric_value none = none
  metric_value (some id) = do
    metric ← find SnmpMetric.id id db.metrics
    if metric.enabled
        then sample_value observed_at
            (sort later_sample (keep (λ s. SnmpSample.metric_id s == id) db.samples))
        else none

  unfoldable pub supply_value : Option ℕ → Option ℤ
  supply_value none = none
  supply_value (some id) = do
    supply ← find SnmpSupply.id id db.supplies
    if supply.present && is_polled_at observed_at supply.last_polled_at
        then supply.percent_remaining
        else none

  abbrev is_on_line : ℕ → LineField → SnmpUpsLine → Bool
  is_on_line target_id f line =
      (line.target_id == target_id)
      && same_text (codes line.direction) f.direction
      && (line.line_index == f.index)

  unfoldable pub line_value : ℕ → Option LineField → Option ℤ
  line_value target_id none = none
  line_value target_id (some f) = do
    line ← first (is_on_line target_id f) db.ups_lines
    if is_polled_at observed_at line.last_polled_at then f.read line else none

  abbrev state_value : ℕ → String → SnmpUpsState → Option ℤ
  state_value target_id field state = elim (state_field field state) [
    | some value ↦ value
    | none ↦ line_value target_id (parse_line_field (codes field))
  ]

  unfoldable pub ups_value : ℕ → String → Option ℤ
  ups_value target_id field = do
    config ← find SnmpConfig.target_id target_id db.configs
    state ← find SnmpUpsState.target_id target_id db.ups_states
    if config.enabled && config.ups_enabled && is_polled_at observed_at state.last_polled_at
        then state_value target_id field state
        else none

  unfoldable pub interface_reading : Option ℕ → String → Option ℤ
  interface_reading none field = none
  interface_reading (some id) field = do
    interface ← find SnmpInterface.id id db.interfaces
    if interface.monitor_enabled && interface.present
        then interface_value field observed_at (
            take 2 (
              sort later_interface_sample
                (keep (λ s. SnmpInterfaceSample.interface_id s == id) db.interface_samples)))
        else none

  unfoldable pub threshold_value : SnmpThreshold → Option ℤ
  unfolding metric_value supply_value line_value ups_value interface_reading
  threshold_value t = elim (t.source_kind) [
    | SourceOf.metric ↦ metric_value t.metric_id
    | SourceOf.supply ↦ supply_value t.supply_id
    | SourceOf.ups ↦ ups_value t.target_id t.field
    | SourceOf.interface ↦ interface_reading t.interface_id t.field
  ]
