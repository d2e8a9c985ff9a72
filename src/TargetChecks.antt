-- ===== src/TargetChecks.antt =====
-- The checks of a target (src/monitoring/services/target_checks.py, dns_monitoring.py,
-- directory_monitoring.py) and the handlers that change them
-- (src/monitoring/web/target_check_routes.py).
pub mod Errors
pub mod Fields
pub mod Dns
pub mod Directory
pub mod FieldBounds
pub mod Rules
pub mod Primary
pub mod Synced
pub mod Refusals
pub mod Form
pub mod Handlers
pub mod SameCheck
pub mod Silent
pub mod Steps
pub mod Kept
pub mod Answers
pub mod Versions
pub mod Deletion
