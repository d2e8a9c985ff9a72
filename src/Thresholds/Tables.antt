-- ===== src/Thresholds/Tables.antt =====
-- The tables of models/snmp.py that thresholds read, with the columns that they read. Numbers count
-- units of 10^-10 where the column is a decimal or a float.
use monitoring_maxval.Base.{ℕ, Bool, Option, List}
use monitoring_maxval.Base.Int.{ℤ}
use monitoring_maxval.Base.Text.{String}
use monitoring_maxval.Thresholds.Level.{ThresholdLevel}

pub data SourceOf : Type 0 where
  metric interface supply ups : SourceOf

pub record SnmpThreshold : Type 0 where
  pub id : ℕ
  pub target_id : ℕ
  pub source_kind : SourceOf
  pub metric_id : Option ℕ
  pub interface_id : Option ℕ
  pub supply_id : Option ℕ
  pub field : String
  pub operator : String
  pub warning_value : Option ℤ
  pub critical_value : Option ℤ
  pub enabled : Bool
  pub current_level : ThresholdLevel
  pub last_value : Option ℤ
  pub last_evaluated_at : Option ℕ

pub record SnmpConfig : Type 0 where
  pub target_id : ℕ
  pub enabled : Bool
  pub ups_enabled : Bool

pub record SnmpUpsState : Type 0 where
  pub target_id : ℕ
  pub battery_charge_percent : Option ℤ
  pub estimated_runtime_minutes : Option ℤ
  pub battery_voltage : Option ℤ
  pub battery_temperature : Option ℤ
  pub last_polled_at : Option ℕ

pub record SnmpUpsLine : Type 0 where
  pub id : ℕ
  pub target_id : ℕ
  pub direction : String
  pub line_index : ℕ
  pub voltage : Option ℤ
  pub current : Option ℤ
  pub load_percent : Option ℤ
  pub last_polled_at : Option ℕ

pub record SnmpMetric : Type 0 where
  pub id : ℕ
  pub target_id : ℕ
  pub oid : Option String
  pub name : String
  pub unit : Option String
  pub enabled : Bool
  pub display_order : ℕ

pub record SnmpSample : Type 0 where
  pub id : ℕ
  pub metric_id : ℕ
  pub collected_at : ℕ
  pub value : ℤ

pub record SnmpInterface : Type 0 where
  pub id : ℕ
  pub target_id : ℕ
  pub if_index : ℕ
  pub if_name : Option String
  pub if_descr : Option String
  pub monitor_enabled : Bool
  pub present : Bool

pub record SnmpInterfaceSample : Type 0 where
  pub id : ℕ
  pub interface_id : ℕ
  pub collected_at : ℕ
  pub rx_bps : Option ℕ
  pub tx_bps : Option ℕ
  pub in_errors : Option ℕ
  pub out_errors : Option ℕ
  pub in_discards : Option ℕ
  pub out_discards : Option ℕ

pub record SnmpSupply : Type 0 where
  pub id : ℕ
  pub target_id : ℕ
  pub supply_class : Option ℕ
  pub display_name : String
  pub percent_remaining : Option ℤ
  pub present : Bool
  pub last_polled_at : Option ℕ

pub record SnmpStore : Type 0 where
  pub thresholds : List SnmpThreshold
  pub configs : List SnmpConfig
  pub ups_states : List SnmpUpsState
  pub ups_lines : List SnmpUpsLine
  pub metrics : List SnmpMetric
  pub samples : List SnmpSample
  pub interfaces : List SnmpInterface
  pub interface_samples : List SnmpInterfaceSample
  pub supplies : List SnmpSupply
