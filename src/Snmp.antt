-- ===== src/Snmp.antt =====
-- SNMP: the identifiers of objects and the formulas of derived metrics.
pub mod Oid
pub mod Syntax
pub mod Formula
pub mod Arithmetic
pub mod Evaluate
pub mod Valid
pub mod Sound
pub mod Sources
pub mod Bounds
