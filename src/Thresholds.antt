-- ===== src/Thresholds.antt =====
-- Thresholds on SNMP readings (src/monitoring/services/snmp_thresholds.py).
pub mod Level
pub mod Tables
pub mod Values
pub mod Labels
pub mod Service
pub mod Levels
pub mod SourceState
pub mod Open
pub mod Total
