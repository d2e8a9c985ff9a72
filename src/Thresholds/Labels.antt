-- ===== src/Thresholds/Labels.antt =====
-- `_source_label` and the message of a threshold. The formatting of a float is a parameter.
use monitoring_maxval.Base.{Option, none, some, if◌then◌else◌, ◌==◌}
use monitoring_maxval.Base.Int.{ℤ}
use monitoring_maxval.Base.Text.{String, str_eq, ◌⧺◌, codes, decimal, is_empty, or_text}
use monitoring_maxval.Base.Rows.{find}
use monitoring_maxval.Base.Strings.{same_option}
use monitoring_maxval.Thresholds.Level.{ThresholdLevel}
use monitoring_maxval.Thresholds.Tables.{
  SnmpStore, SnmpThreshold, SourceOf, SnmpMetric, SnmpSupply, SnmpInterface,
}
use monitoring_maxval.Thresholds.Values.{LineField, parse_line_field}

-- `UPS_STATE_FIELDS`
unfoldable pub state_label : String → Option (String × String)
state_label field =
    if str_eq field "battery_charge_percent"
    then some ("ИБП · Заряд батареи", "%")
    else if str_eq field "estimated_runtime_minutes"
    then some ("ИБП · Автономность", "мин")
    else if str_eq field "battery_voltage"
    then some ("ИБП · Напряжение батареи", "В")
    else if str_eq field "battery_temperature"
    then some ("ИБП · Температура батареи", "°C")
    else none

-- `INTERFACE_FIELDS`, with the name of the field itself for another one
unfoldable pub interface_label : String → String × String
interface_label field =
    if str_eq field "rx_bps"
    then ("RX", "Mbit/s")
    else if str_eq field "tx_bps"
    then ("TX", "Mbit/s")
    else if str_eq field "errors_delta"
    then ("Ошибки", "за интервал")
    else if str_eq field "discards_delta"
    then ("Отбросы", "за интервал")
    else (field, "")

abbrev metric_label : Option SnmpMetric → String × String
metric_label none = ("SNMP metric", "")
metric_label (some m) = (if is_empty m.name then or_text m.oid "" else m.name, or_text m.unit "")

abbrev supply_label : Option SnmpSupply → String × String
supply_label none = ("Расходник", "%")
supply_label (some s) = (
  s.display_name
      ⧺ (if same_option (λ a b. a == b) s.supply_class (some 4)
          then " · свободно"
          else " · остаток"),
  "%",
)

abbrev interface_name : Option SnmpInterface → String
interface_name none = "Интерфейс"
interface_name (some i) = or_text i.if_name (or_text i.if_descr ("ifIndex " ⧺ decimal i.if_index))

-- The label of an interface, which is also the last case of the source.
abbrev interface_source : SnmpStore → SnmpThreshold → String × String
interface_source db t = (
  elim (t.interface_id) [
    | none ↦ "Интерфейс"
    | some id ↦ interface_name (find SnmpInterface.id id db.interfaces)
  ]
      ⧺ " · "
      ⧺ (interface_label t.field).0,
  (interface_label t.field).1,
)

-- `shown` is the label of a line of a UPS, of whose texts only the code points are at hand.
unfoldable pub source_label :
    (LineField → String × String) → SnmpStore → SnmpThreshold → String × String
unfolding state_label interface_label
source_label shown db t = elim (t.source_kind) [
  | SourceOf.metric ↦ elim (t.metric_id) [
    | none ↦ interface_source db t
    | some id ↦ metric_label (find SnmpMetric.id id db.metrics)
  ]
  | SourceOf.supply ↦ elim (t.supply_id) [
    | none ↦ interface_source db t
    | some id ↦ supply_label (find SnmpSupply.id id db.supplies)
  ]
  | SourceOf.ups ↦ elim (state_label t.field) [
    | some label ↦ label
    | none ↦ elim (parse_line_field (codes t.field)) [ none ↦ ("ИБП", "") | some f ↦ shown f ]
  ]
  | SourceOf.interface ↦ interface_source db t
]

abbrev with_unit : String → String
with_unit unit = if is_empty unit then "" else " " ⧺ unit

abbrev operator_label : String → String
operator_label operator = if str_eq operator "gt" then ">" else "<"

-- The limit that the level is about.
abbrev limit_of : SnmpThreshold → ThresholdLevel → Option ℤ
limit_of t ThresholdLevel.critical = t.critical_value
limit_of t ThresholdLevel.warning = t.warning_value
limit_of t ThresholdLevel.normal = none

abbrev level_label : ThresholdLevel → String
level_label ThresholdLevel.critical = "Critical"
level_label ThresholdLevel.warning = "Warning"
level_label ThresholdLevel.normal = "Норма"

-- `format` is `format_threshold_value`.
unfoldable pub threshold_message :
    (SnmpThreshold → ℤ → String) → SnmpThreshold → String × String → ℤ → ThresholdLevel → String
threshold_message format t (label, unit) value level = elim (limit_of t level) [
  | none ↦ label ⧺ ": " ⧺ format t value ⧺ with_unit unit ⧺ ". Значение вернулось в норму."
  | some limit ↦
      label
      ⧺ ": "
      ⧺ format t value
      ⧺ with_unit unit
      ⧺ "; "
      ⧺ level_label level
      ⧺ " при "
      ⧺ operator_label t.operator
      ⧺ " "
      ⧺ format t limit
      ⧺ with_unit unit
      ⧺ "."
]
