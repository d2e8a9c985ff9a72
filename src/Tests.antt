-- ===== src/Tests.antt =====
-- The theorems of the library at concrete inputs.
pub mod Sample
pub mod Incidents
pub mod Monitoring
pub mod SignIn
pub mod Reports
pub mod Formulas
pub mod Checks
pub mod Limits
pub mod Entries
pub mod Order
