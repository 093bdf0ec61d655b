-- ===== src/Lib.antt =====
-- wallet-scan: imported public addresses are scanned for balances, a balance API answers single
-- queries, and generated wallets are checked once at startup.
--
-- How the parts interact. `internal/config` reads the environment, and `cmd/wallet-scan/main.go` makes
-- from it one limiter (`internal/adaptive`), one provider for each chain (`internal/providers`) and the
-- services. `internal/importer` turns a CSV file into addresses. `internal/scanner` asks the providers
-- for each address, with its own retries, semaphores and health tracker; `RunOnce` takes the addresses in
-- batches and stores what it finds with `internal/db`, which `internal/maintenance` clears of empty
-- addresses and `internal/notifications` reads the events from. `internal/httpserver` and
-- `internal/startupcheck` ask them through the limiter that they share: each takes a slot of a chain
-- and releases it with the outcome.
--
-- Files, and the code that they model:
--   Domain               internal/domain/domain.go
--   Adaptive             internal/adaptive/limiter.go: one function for each method; State: the state
--     Adaptive/Acquire   the loop of `Acquire`; Leases: the callers and the step relation
--     Adaptive/Outcomes  how `Acquire` gets its answer, told apart from its code
--     Adaptive/Events, Events/Idle, Windows, Windows/Batches, Windows/Phases: sequences of calls over
--     many adjustment intervals
--     Adaptive/Methods, HardCap, QueueWait, Adjust: proofs
--   Providers            internal/providers: `request`, `Check` of each chain
--     Providers/Quantities  the results that are balances, as a grammar; Replies, Decode: proofs
--   Scanner/Health       internal/scanner/health.go; Health/History: the tracker against its calls
--   Scanner/Check        internal/scanner/scanner.go: `checkAddress`; Attempts: `checkWithRetry`
--     Scanner/Check/Retry, Addresses: proofs
--   Scanner/Run          internal/scanner/scanner.go: `RunOnce`, `run`, `processBatch`
--     Scanner/Run/Order, Counts, Ranges: batches and ids; Coverage, Batch, Safety, Loop, Rounds, Start,
--     Create, Once: what a run does; Importing: an import beside it; Example: a small table
--   Scanner/Retry        internal/scanner/scanner.go: `RetryFailed`, and what it keeps
--   Store                internal/db/store.go
--     Store/Tables       the tables of internal/db/migrations/001_initial.sql, with their keys and checks
--     Store/Session      statements, transactions and the faults of a connection
--     Store/Scans        ranges of ids, `scan_runs`; Imports: `insertAddressesWithIDs`
--     Store/Records      `SavePositiveFindings`, the retry queue, incidents, new events
--     Store/Outbox       what a delivery reads and stores; Queue: `NextRetries`, `ReadStatus`
--     Store/Rules, Kept, Imports/Growth, Imports/Ids: proofs
--   Life                 the calls of cmd/wallet-scan/main.go on one database, in any order
--   Maintenance          internal/maintenance/cleanup.go; Empty, Scanned, Deletion: proofs
--   Notifications        internal/notifications/outbox.go and wecom.go: `Deliver`, `Drain`; Amounts:
--                        `formatAtomic`, `chainUnits`; Delivery, Amounts/RoundTrip: proofs
--   Importer             internal/importer/importer.go: `NormalizeAndValidate`, `ParseCSV`
--     Importer/Addresses, Rows, Results: proofs
--   HttpServer           internal/httpserver/balance.go: `HandleBalance`, `HandleCapacity`; Wire: the
--                        requests and responses
--     HttpServer/Outcomes, Responses, Backed, Slots, Leaks, Capacity: proofs
--   StartupCheck         internal/startupcheck/check.go: `check`, `RunOnce`; Rows: the table rows
--     StartupCheck/Results, Runs, Ends: proofs
--   Config               internal/config/config.go: `Load`; Readers: `envString`, `envInt`, `envBool`
--     Config/Bounds      proofs; Compose: the limiter that `runService` makes
--   Prelude              names, lists, 64-bit integers, byte texts and maps that all parts share
-- A Tests module below a component holds its examples. A function keeps its Go name in snake case; a
-- piece of a long function has a name of its own, with a comment on the place that it stands for.
--
-- State and time. A method that holds a mutex is one step on an explicit state, and reads the clock
-- once. Instants are natural numbers of nanoseconds; a duration is an int64, an integer with the
-- wrap-around of `+` and `*` written out. The limiter's limits and counts are natural numbers: they
-- start at 1 or 0 and stay below the cap, and a cap that the configuration loads is at most 10000, so
-- that the Go int does not overflow. The closures that `Acquire` hands out are a list of leases beside
-- the limiter; a release uses up one of them, since both callers in the program call their closure
-- once, with the chain that they acquired. What other goroutines do between two steps is a function on
-- the shared state, a parameter of the world that a call is given.
--
-- The database. A table is the list of its rows in the order of their ids, and a statement is a function
-- on the tables that meets a moment: the clock, a fresh UUID, and a fault. A fault loses the statement, or
-- its answer only; a transaction that fails gives the tables back, and keeps the numbers that its sequences
-- have given out. Keys and checks refuse rows as PostgreSQL does, but the foreign keys of events and
-- incidents are left out, since their ids come from the database. Between the statements of a scan no other
-- session writes; imports, deliveries and clean-ups stand before and after a scan's run. A balance is the
-- integer whose decimal text the code passes. Ids, counts and batch sizes are natural numbers. The
-- results of a batch come in any order, and what other workers do to the health tracker is part of each
-- check's world; no workers at all are an error of the model, since the code waits for ever.
--
-- Loops. The passes of `Acquire` are a list of rounds, one for each pass; the answer `waiting`, or none
-- for a handler, means that the list was too short. Passes lie 10 ms apart or end the queue wait, which
-- bounds their number. The loop of `run` has a round for each address in the table and one more; each
-- round but the last takes an address. The loop of `checkWithRetry` runs on `MaxRetries` + 1 rounds, which it has by
-- its own condition.
--
-- Parameters, for code that is not in the repository: what net/http, encoding/json, encoding/csv,
-- PostgreSQL, wallet cryptography, `os.Getenv` and `net.SplitHostPort` deliver. Texts are byte lists;
-- `ToLower` and `TrimSpace` are theirs on ASCII.
--
-- Not modelled: `SaveWalletBalanceCheck`, whose table only the startup check writes, and the CSV export of
-- internal/db, and its connection and migration; the web hook and the fixed words of
-- internal/notifications/wecom.go; internal/balanceclient, internal/wallet, the commands of
-- cmd/wallet-scan, internal/httpserver/server.go (routes and time-outs), log lines, and the free message
-- texts of HTTP errors.
pub mod Prelude
pub mod Adaptive
pub mod Domain
pub mod Providers
pub mod Store
pub mod Scanner
pub mod Maintenance
pub mod Notifications
pub mod Life
pub mod Importer
pub mod HttpServer
pub mod StartupCheck
pub mod Config
