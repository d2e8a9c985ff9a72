-- ===== src/Model.antt =====
-- The rows of the database (src/monitoring/models/), with the columns that the modelled services
-- read or write. Instants are numbers of microseconds since the start of year 1, a Monday, in UTC; a
-- naive datetime stands for the same instant in UTC, as the services normalise it. Durations in
-- milliseconds (`latency_ms`) are carried in microseconds.
mod Kinds
mod Target
mod Result
mod IncidentRow
mod Schedule
mod Database
pub use Kinds.*
pub use Target.*
pub use Result.*
pub use IncidentRow.*
pub use Schedule.*
unfoldable pub use Database.*
