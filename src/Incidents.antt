-- ===== src/Incidents.antt =====
-- Incidents (src/monitoring/services/incidents.py, class `IncidentService`). The session is the
-- store that a method takes and gives back; what it returns beside it is the list of the
-- notifications to send. `utc_now()` is the argument `now`.
pub mod Settings
pub mod Notices
pub mod Attempts
pub mod Steps
pub mod Availability
pub mod Checks
pub mod Tls
pub mod Sources
pub mod Slots
pub mod Free
pub mod Streak
pub mod Invariant
pub mod Run
pub mod Suppression
pub mod Accounts
pub mod Effect
pub mod Methods
pub mod SourceMethods
