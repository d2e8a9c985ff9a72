-- ===== src/Auth.antt =====
-- Sign-in (src/monitoring/services/auth.py, src/monitoring/models/auth.py): the sessions of a user, the
-- failed logins and the blocks that follow them. A text is the list of its code points, and `casefold`
-- is the one of ASCII letters. The password hash (argon2) and the token hash (SHA-256) are parameters;
-- the random tokens are arguments, and a call reads the clock once, as the argument `now`.
pub mod Counting
pub mod Throttle
pub mod Guessing
pub mod Liveness
pub mod Database
pub mod Users
pub mod Sessions
pub mod Logins
