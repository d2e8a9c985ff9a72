-- ===== src/Monitoring.antt =====
-- `MonitoringService` (src/monitoring/services/monitoring.py): what is due, the retries of a check, and
-- the saving of its outcome. The checkers reach the network: an attempt's outcome is an argument.
-- One call of a method reads the clock once, as the argument `now`.
pub mod Saving
pub mod Due
pub mod Retry
pub mod Interval
pub mod Attempts
pub mod Guards
pub mod Lifecycle
pub mod Open
pub mod Refinement
