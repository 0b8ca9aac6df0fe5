-- ===== src/Lib.antt =====
-- Skawld Maintenance: the backend's core, modelled and proved.
--
-- The program keeps organizations, sites and the principals that act on them in PostgreSQL, and
-- serves them over HTTP. A request goes through an application service
-- (internal/identity/application), which checks permissions and arguments, to a store
-- (internal/identity/adapter/postgres), which runs one transaction (internal/platform/database)
-- under an idempotency key (internal/platform/idempotency) and writes an audit event
-- (internal/platform/audit). Who the caller is comes from internal/platform/auth, and what the
-- processes are set to from internal/platform/config.
--
-- Files, and the code that each models:
--   Prelude        Boolean tests, lists, counting, Go's text functions, int32
--   Errors, Json   error values and `errors.Is`; JSON values
--   Database       statements, transactions (`InTx`), the clock and the generator of ids:
--                  internal/platform/database/database.go, clock/clock.go, id/id.go; Pool (`Open`),
--                  Migrations (migrate.go, migrate_river.go); the tables of
--                  migrations/00001_foundation.sql are in Database/Schema
--   Idempotency    internal/platform/idempotency/store.go: `HashRequest`, `Store.Begin`,
--                  `Store.Complete`, `equalBytes`
--   Audit          internal/platform/audit/audit.go: `Sink.Append`
--   Identity       internal/identity: Authorization (`Has`, `CanAccessSite`, `Matches`,
--                  `CanApprove`), Organization (`NewOrganization`), Service (the application
--                  services), OrganizationStore (`OrganizationStore.Create`), SiteReader
--                  (`SiteReader.Get`)
--   Integration    internal/integration/domain/source_of_truth.go: `Validate`
--   Config         internal/platform/config/config.go: Settings (the records), Checks (`Validate`),
--                  Load (`Load` and how it reads the environment)
--   Auth           internal/platform/auth/repository.go: Flows (`SaveFlow`, `ConsumeFlow`),
--                  Principals (`ResolvePrincipal`), Sessions (`CreateSession`,
--                  `PrincipalForSession`, `RevokeSession`); and oidc.go: Bearer (`authenticate`,
--                  `claimsFromToken`), Oidc (`New`), Login (`Begin`, `Callback`, `Logout`,
--                  `randomToken`), Return (`safeReturnTo`), Middleware (`Middleware`)
--   Http           requests, responses and handlers as functions of the world
--   HttpServer     internal/platform/httpserver: the handlers of router.go, problem.go, and
--                  Routes (`New`)
--   Jobs           internal/platform/jobs/client.go
--   Processes      cmd/api/main.go, cmd/worker/main.go, cmd/migrate/main.go: `main`
--   Package        tools/package/main.go: Machine (what it asks of the system), Root
--                  (`repositoryRoot`), Environment (`targets`, `targetEnvironment`), Files
--                  (`copyFile`, `writeZip`, `writeTarGzip`, `walkPackage`, `writeChecksums`), Build
--                  (`buildTargetArchive`, `run`)
--   Tests          a server, data and runs, on which the theorems are applied
--
-- State is passed explicitly: a program takes a world, which is the tables and the number of calls
-- made so far, and gives a result and a world. What the program does not decide is the record
-- `Env`: the clock, the ids, SHA-256, the cast of a text to uuid, the encoding of an array
-- parameter, and the fate of each call of the server, which is answered, refused, or done with its
-- answer lost. A statement that breaks a constraint of its table, or that casts a text that is no
-- uuid, fails. After an error in a transaction no statement follows, so that the aborted state of
-- PostgreSQL's transactions is not needed. Other transactions run before or after one, never in the
-- middle: the row locks of the key table are taken to order requests under one key.
--
-- Times are natural numbers of nanoseconds. What a timestamptz column keeps of one is a parameter,
-- which is applied to the times of a new flow or session; the other columns with times are never read
-- back or compared, and keep them as they are; machine integers are integers with `int32` written
-- out. The loops are structural recursion, but for the search of the packaging tool, which has fuel
-- for its rounds: as many as the working directory is deep, and one more, are enough. A Go string
-- is read as its code points, and its length is that of its UTF-8 encoding.
--
-- A handler is a function of the request and the world to a response and a world; the server
-- answers one request after another. What the libraries of the handlers do is a parameter: the
-- identity provider, url.Parse, the Location of http.Redirect, chi's matching of routes,
-- encoding/json and uuid.Parse. The packaging tool works on a machine that answers each operation
-- by what was attempted before it.
--
-- A stored response is a JSON value: what json.Marshal, the jsonb column and json.Unmarshal make of
-- a result is written for its four fields, without the text in between.
--
-- Not modelled: logs, signals, the request id and the recovery from panics; the object store (an
-- interface without an implementation), the package marker, the embedded directory of migrations
-- and the test of the imports, which have no logic of their own.
pub mod Prelude
pub mod Errors
pub mod Json
pub mod Database
pub mod Idempotency
pub mod Audit
pub mod Identity
pub mod Integration
pub mod Config
pub mod Http
pub mod HttpServer
pub mod Auth
pub mod Jobs
pub mod Processes
pub mod Package
pub mod Tests
