-- ===== src/Lib.antt =====
-- A model of the server in internal/ of the starter kit, with what makes its parts correct.
--
-- The program is an HTTP service on PostgreSQL. A request passes the authentication of
-- internal/httpapi, then a service of internal/modules, which sends statements of internal/db/sqlc to
-- the database, some of them in a transaction of internal/db; an error is mapped by internal/db, and
-- turned into a response by internal/httpapi. Beside the requests, workers of
-- internal/modules/mailoutbox take mails from a table, where the account module puts them, and send them.
--
-- Base holds what the parts share: texts as lists of bytes, integers of 32 bits with their
-- wrap-around, tables as lists of rows, sorting, and rows under distinct keys.
-- AppError is internal/apperror: error.go in AppError, retry.go in AppError/Retry, diagnostic.go in
-- AppError/Diagnostic. A Go error is a tree, on which errors.Is and errors.As are functions.
-- Db is internal/db/errors.go, and how a statement is sent: a session holds the tables and a script
-- that tells, statement by statement, the time, what the other processes do before it, and whether
-- the database refuses it or loses its answer. At the end of the script nobody interferes.
-- Db/Transaction is transaction.go: a rollback takes back what the body has done and leaves what the
-- others have done; a commit may be refused, or take effect and lose its answer.
-- Validation is internal/validation, with the UTF-8 decoding and the white space of Go's packages
-- written out, since a length is counted in runes; Identity is internal/identity/validation.go, and
-- Identity/Tokens its token.go, with base64 written out.
-- Pagination is internal/pagination.
-- Project and Task are internal/modules/project and internal/modules/task, one function per method;
-- their Queries are internal/db/sqlc/projects.sql.go and tasks.sql.go, one function per statement,
-- with the primary keys and unique constraints of internal/db/migrations/00001_init.sql. The new
-- identifier and the database's order of texts are arguments. Calls makes the methods one type.
-- MailOutbox is internal/modules/mailoutbox with internal/db/sqlc/mail_outbox.sql.go: the statements
-- in Queries, one delivery (ProcessOne and what it calls) in Delivery, any sequence of statements of
-- any number of workers in History. The rows that other transactions hold locked, the clock, the
-- sender, the jitter and the lease identifiers are arguments.
-- HttpApi is errors.go and auth.go of internal/httpapi; the authenticator is an argument.
-- Account is internal/modules/account. Its tables are in Account/Tables, with the statements of
-- internal/db/sqlc in Users, Sessions, Accounts, Flows and Records (users.sql.go,
-- user_sessions.sql.go, accounts.sql.go, auth_flows.sql.go; auth_verifications.sql.go,
-- auth_rate_limits.sql.go and audit_events.sql.go). Enums is enums.go; Env is model.go and
-- errors.go with what a call takes from outside; Store is store.go and store_flows.go, the rules in
-- front of the statements; Audit is audit.go and rate_limit.go. The methods of the service are in
-- Self, Login, Register, Challenges, Password, Linking, Proofs, Reauth, Callback and Admin, which say
-- each which files they are of; Calls makes them one type, and runs them one after the other.
-- Of Account, Kept and Keeping say what each statement, and so each method, keeps true of the tables;
-- Standing and Lasting are about rows that stay as they are, Ending about the session that is found for
-- a digest, Sound about what every row has, Entry about who is let in, RateLimits about the limits.
-- Passwords is internal/platform/password, and Locker is locker.go and runner.go of
-- internal/platform/locker: what the library of the hash function, the backend of the locks, a task and
-- a context answer are arguments.
-- Tests applies the theorems to concrete values, and runs a login from end to end.
--
-- Times are natural numbers: microseconds in the tables, nanoseconds in delays. A delay in seconds is
-- rounded up exactly, where the program rounds a float64; the two agree below some fifty days.
-- Versions are natural numbers, where the program has an int64.
-- A client that follows pages gets one request more than there are rows, which is enough since each
-- page but the last takes at least one row. The loop of Locker runs over the turns that it is given, and
-- one theorem says with which of them it ends. No other definition runs on fuel.
-- Of the account module, the parsing of addresses, the lowering of letters, the digest, JSON, the texts
-- of the mails, the hash of passwords, the providers of identities, the random bytes, the new
-- identifiers and the clock are fields of Env, on which the theorems put no condition but those named.
--
-- Not modelled: the HTTP routes and pages of the modules, which decode requests and encode answers;
-- the loop that starts deliveries and waits in between (runner.go of mailoutbox), since it only repeats
-- what is modelled; the PostgreSQL backend of the locks and their metrics; configuration, telemetry,
-- mail and federation clients, and the wiring in internal/app and cmd. Reading rows over the network,
-- logging and JSON are left out as input and output.
pub mod Base
pub mod AppError
pub mod Db
pub mod Pagination
pub mod MailOutbox
pub mod Validation
pub mod Identity
pub mod Project
pub mod Task
pub mod Account
pub mod Passwords
pub mod Locker
pub mod HttpApi
pub mod Tests
