-- ===== src/Lib.antt =====
-- attendance-system: a server for attendance, work schedules and leave of one company, as a model
-- with theorems about it.
--
-- The server keeps its state in PostgreSQL. HTTP handlers call one service per module
-- (internal/api/server/modules), and each service reads and writes through its repository. The
-- modules meet in the tables and in four rules: A says whether a date is a working day for a person,
-- B where everybody stands on a date, C how much leave remains, D whose records a caller reaches.
--
-- Files and the code that they are about:
--   Prelude, Prelude/*   tests, integers, lists, tables, and errors (internal/pkg/apperr)
--   Text, Text/*         Go strings as code points, strings.TrimSpace, the note of a review
--   Time, Time/Calendar  Go's time package: instants, dates, zones, years
--   Access               roles and claims (internal/middleware/role.go, auth.go)
--   Db                   the tables (internal/db/migrations), and what audit_logs holds
--   User/*               modules/user: repository.go in Rows, Hierarchy (rule D, `SubtreeQuery`) and
--                        Store, validation.go in Validation, service.go in Directory; the theorems
--                        in Below, Orderly, Reachable and Succession, on Moves, Loops, Leaver, Steps,
--                        Tree and Admins
--   Auth/*               modules/auth: repository.go in Rows and Store, the counters in Redis in
--                        Attempts, service.go in Service; the theorems in OneUse, Reuse, Entry and
--                        Tries, on Steps, Spent, Rotation, SignIn, Limits and Lockout
--   Schedule/*           modules/schedule: clock.go in Clock, validation.go in Validation,
--                        resolve.go in Resolve (rule A), `Service.Days` in Roster, the writes of
--                        repository.go in Store and RosterStore, those of service.go in Planning and
--                        Assigning; the theorems in Rule, Plan, Checked, Weekdays, ClockText,
--                        RosterMap, RosterAudit, Rostered, Reached and Fitting, on Steps and Sound*
--   Attendance/*         modules/attendance: shift.go in Shift, geofence.go in Geofence,
--                        validation.go in Validation, repository.go in Store and CorrectionStore,
--                        service.go in Service, correction.go in Corrections, whosin.go in
--                        Standing (rule B); the theorems in Lateness, Picking, Locating, Arrival,
--                        Leaving, RuleB, Roll, Sound, Closed and Deciding, on Effects, Steps,
--                        Applying, Writing, Approving, Proving and Listing
--   Leave/*              modules/leave: validation.go in Validation, repository.go in Store (rule C)
--                        and TypeStore, service.go in Requests, leavetype.go in Types; the theorems
--                        in Quotas, Release, Sound, Lifecycle and Allowance, on Inversion, Checks
--                        and Steps
--   Report/*             modules/report: service.go and validation.go in Totals, the theorem in Sums,
--                        on Runs
--   Samples, */*Tests    a small company, runs, and the theorems at concrete inputs; the data of
--                        the attendance tests are in Attendance/Cases
--
-- A table is the list of its rows in the order of insertion, with the next value of its identity
-- column; `Db` holds all of them. An operation takes a `Db` and returns a `Result` of its answer and
-- the `Db` after it. A statement or a transaction that fails leaves the database as it was, so an
-- error carries none. Calls are taken one after another, each whole; a sequence of calls is a
-- `Reach` of `Step`s, one relation for each module that writes. The calls of modules/auth answer and
-- commit also when they refuse, so they return both, and with them the login counters of Redis.
--
-- Conventions. An error carries the format string of its message, without arguments. Ids are
-- natural numbers. created_at and updated_at are left out, and what is listed by created_at is
-- listed by insertion. A call asks the clock once. An instant is the number of nanoseconds since
-- Go's zero time and a date the number of days since 0001-01-01; earlier times are left out.
-- Differences of instants stop at the ends of a Duration, as in Go; counts of days and minutes are
-- integers without a bound, since all that is stored is far below 2^63. Coordinates are integers in
-- millionths of a degree, distances are in millimetres. Foreign keys whose rows are never deleted
-- are taken to hold: where Go would read a zero row for a missing schedule, the model has none.
--
-- Parameters, for what is not in the repository: the time zone, the object store's answer about an
-- upload, the current moment, bcrypt, sha256, the JWT library's signature and the tokens drawn, the
-- database's `lower` and its order of texts. The haversine distance is a parameter too, since it is
-- computed on floating-point numbers, and strings.ToLower, since it is a table of Unicode. No theorem
-- supposes anything of them but what it says.
--
-- Loops are structural. The rounds of the subtree query are as many as there are users, which is
-- enough, since each but the last finds somebody new.
--
-- Left out: the handlers and the generated API code, writing reports as CSV or PDF, uploads, the
-- text form in which the driver reads a weekday array, start-up and configuration, and failures of
-- the connections to the database and to Redis. The ids that a failed statement uses up are not skipped.
pub mod Prelude
pub mod Text
pub mod Access
pub mod Time
pub mod Db
pub mod User
pub mod Schedule
pub mod Auth
pub mod Attendance
pub mod Leave
pub mod Report
mod Samples
