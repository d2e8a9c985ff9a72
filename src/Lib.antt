-- ===== src/Lib.antt =====
-- Verification of the monitoring service (src/monitoring): checks of targets, incidents and their
-- notifications, work schedules, certificates, the checks of a target and their form, the gates of
-- sites, the order of display, SNMP formulas and thresholds, the scheduler's figures, sign-in and
-- pagination.
--
-- How the parts interact. The scheduler asks for the due targets, lets the checkers try them, and
-- hands every outcome to the monitoring service, which stores it and calls the incident service. That
-- one opens, escalates and resolves incidents and returns the notifications to send. Work schedules
-- decide both whether a target is due and whether an outcome is stored. The handlers of the form of a
-- check change the table of checks, give a changed check another version, so that outcomes from before
-- are not stored, and close its incidents in silence. Thresholds turn readings of SNMP into calls of
-- `set_source_state` of the incident service. The entry of a site holds its other targets back.
--
--   Base           numbers, lists, integers, text, tables, sorting, results of fallible code
--   Model          the rows of src/monitoring/models: kinds, targets, checks, results, incidents,
--                  schedules, sites, and the database that holds them
--   UnstableLink   services/unstable_link.py
--   Schedules      services/work_schedules.py: `schedule_is_working`. Week compares it with shifts
--   Incidents      services/incidents.py, one module per group of methods: Settings, Notices,
--                  Attempts (which notification is sent and marked), Steps, Availability
--                  (`process_result`), Checks (`process_target_check_result` and silent resolution),
--                  Sources (`set_source_state`), Tls (`apply_check_tls_health`). Slots, Free,
--                  Accounts, Effect, Methods, SourceMethods, Invariant, Run and Suppression are about
--                  any sequence of calls, Streak about the confirmation of an outage
--   Tls            services/tls_monitoring.py, `normalize_tls_monitoring` of services/target_checks.py
--   Monitoring     services/monitoring.py: Due, Retry, Saving. Attempts and Interval are about the
--                  attempts of a check and the interval of a target, Guards
--                  about stale outcomes, Lifecycle, Open and Refinement
--                  about the state machine behind the availability of a target
--   TargetChecks   services/target_checks.py, dns_monitoring.py, directory_monitoring.py and
--                  web/target_check_routes.py: Errors, Fields, Dns, Directory (normal forms), Rules
--                  (primary check, capacity, names, execution signature), Form, Handlers. FieldBounds,
--                  Primary, Synced, SameCheck, Silent, Steps, Kept, Answers, Refusals, Versions and
--                  Deletion prove their properties, Steps as a relation between databases
--   SiteEntry      services/site_entry.py; Unique and Blocking
--   DisplayOrder   services/target_order.py, services/site_order.py and services/snmp_order.py, whose
--                  moves are one function over the columns of a table; Sorted, Swap, Numbered,
--                  Renumbered and Shown carry Moves, Undo and Targets
--   Snmp           services/snmp_formula.py and `canonical_oid` of services/snmp_oid_catalog.py: Oid,
--                  Syntax, Formula (compilation), Arithmetic and Evaluate; Valid, Sound, Sources and
--                  Bounds are about compiled formulas
--   Thresholds     services/snmp_thresholds.py and its tables of models/snmp.py: Level, Tables, Values,
--                  Labels, Service; Levels, SourceState, Open and Total are about levels, incidents and
--                  termination
--   Metrics        services/scheduler_metrics.py
--   Auth           services/auth.py and models/auth.py: Database, Users, Sessions, Logins. Liveness is
--                  about sessions, Counting, Throttle and Guessing about blocks
--   Pagination     services/pagination.py
--   Maintenance    `cleanup_check_history` of services/maintenance.py
--   Tests          the theorems at concrete inputs
-- (services/, models/ and web/ are folders of src/monitoring.)
--
-- Conventions. An instant is a number of microseconds since the year 1 in UTC, so the source's aware
-- and naive times agree; float columns count thousandths or microseconds, as said beside them. One
-- call of a method reads the clock once, as an argument `now`, and the database is a record of tables
-- that is passed on; a look-up of the newest matching row and a change of the loaded row by its
-- primary key stand for the queries. `int()` is modelled on ASCII, `casefold` on ASCII letters.
-- Readings of SNMP count units of 10^-10, the last place of their columns. Parameters stand for code
-- outside the repository: the time zone database, the password and token hashes, the random tokens,
-- the parser of Python (`ast.parse`), decimal arithmetic, `float`, the codec of domain names, IP
-- addresses, the comparison of names by the database, and the encryption of secrets; the outcome
-- of each attempt on the network is an argument too.
--
-- Fuel: only `decimal` counts down rounds, as many as the number itself, and each divides by ten. All
-- other loops are structural.
--
-- Not modelled: the other web routes and the templates, audit rows of the handlers, the options of the
-- form of a threshold, the formatting of floats, the network checkers, SNMP polling, exports, backups,
-- mail and push delivery, which are input and output around these services; the incident that
-- `set_source_state` returns beside its notifications; `probe_http_status`, which stores nothing; locks
-- and the semaphore, which bound concurrency only.
pub mod Base
pub mod Model
pub mod UnstableLink
pub mod Schedules
pub mod Incidents
pub mod Tls
pub mod Monitoring
pub mod Metrics
pub mod Auth
pub mod Pagination
pub mod SiteEntry
pub mod Snmp
pub mod TargetChecks
pub mod Thresholds
pub mod DisplayOrder
pub mod Maintenance
pub mod Tests
