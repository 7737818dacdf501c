-- ===== src/Lib.antt =====
-- Recruiting OS: the core of the program in src/, as definitions that compute and theorems about
-- them.
--
-- The program collects recruiting information for student organizations. A request that has passed
-- the session check, or a scheduler, enqueues jobs; workers lease jobs, fetch sources and ingest
-- them: a source is staged as a version by the hash of its content, claims are extracted from it,
-- and a resolver turns the claims into opportunities. The parts share one database and meet in its
-- tables.
--
-- Which file models which part:
--   Domain        src/domain/models.ts, src/domain/errors.ts: the enumerations, JSON values, principals,
--                 errors.
--   Queue         src/infrastructure/queue/sqlite-job-queue.ts and the tables `jobs` and
--                 `tenant_queue_state` of src/store.ts. Queue/Rows holds the columns, Queue/Enqueue
--                 `enqueue`, Queue/Cancel `cancelPending`, Queue/Lease `leaseNext` and `renewLease`,
--                 Queue/Settle `complete`, `fail` and `stats`. Queue/Machine makes histories of them:
--                 a `Call` with the clock readings that it makes, `step` and `run`.
--   Sources       src/store.ts: Sources/Rows holds the tables and `contentHash`, Sources/Stage
--                 `stageSource` and `putSource`, Sources/Settle `markSourceProcessing`,
--                 `markSourceSucceeded`, `markSourceFailed` and `getSourceVersionStatus`.
--                 Sources/Machine makes histories of these calls.
--   Catalog       the rest of src/store.ts: Catalog/Organizations holds `upsertOrganization`,
--                 `getOrganization`, `listOrganizations` and `getSource`, Catalog/Claims `putClaims` and
--                 `listClaims`, Catalog/Opportunities `replaceOpportunities` and `listOpportunities`,
--                 Catalog/Overrides the reviewed overrides, Catalog/Connectors the connector state.
--   Resolver      src/resolver.ts: Resolver/Score the scores and the best claims, Resolver/Application
--                 the verdict on the application, Resolver/Events events and overrides,
--                 Resolver/Resolve `resolveOrganization` over the calls of Catalog.
--   Ingestion     src/ingest.ts: Ingestion/Source `ingest` of one source, over Sources, Catalog and
--                 Resolver, Ingestion/Links the links that it follows.
--   Privacy       src/infrastructure/privacy/sqlite-privacy-repository.ts over the rows of the other
--                 parts: Privacy/Export `exportAccount`; Privacy/Erase, Privacy/Account and
--                 Privacy/Transaction `eraseAccount`.
--   Auth          src/infrastructure/auth/sqlite-auth-repository.ts (Auth/Repository),
--                 src/application/auth/session-service.ts (Auth/Session),
--                 src/application/auth/authorization.ts and initial-roles.ts (Auth/Roles); Auth/Machine
--                 makes histories of the repository's calls.
--   RateLimit     src/application/ports/rate-limiter.ts (RateLimit/Port) and
--                 src/infrastructure/rate-limit/in-memory-rate-limiter.ts (RateLimit/Memory).
--   Gate          the `onRequest` hook of src/http/app.ts: the kinds of paths (Gate/Paths) and the hook
--                 (Gate/Hook), over any rate limiter of RateLimit/Port and the sessions of Auth.
--   Outbound      src/infrastructure/outbound-http/bounded-response.ts (Outbound/Bounded) and
--                 provider-http-client.ts (Outbound/Client), safe-http-client.ts (Outbound/Safe).
--   Credentials   src/infrastructure/credentials/sqlite-credential-repository.ts
--                 (Credentials/Repository) and encrypted-credential-vault.ts (Credentials/Vault).
--   Worker        src/application/queue/job-lease-heartbeat.ts (Worker/Heartbeat).
--   Common        what the parts share: tables as lists with SQL's statements, keys, a least row by an
--                 order, tests on numbers and texts, results.
-- The other files of a folder hold what its theorems need, named for what they prove.
--
-- Conventions. A table is a list of records, a row of it in the order of insertion; a statement is
-- an update, a filter or an append, with the constraints of the schema that can fail written out. A
-- transaction that throws leaves the tables as they were; outside one the statements before the error
-- stay. Where two rows agree in all that a query orders by, the first one in the table is taken. Times
-- are milliseconds; a call takes its clock as the sequence of the readings that it makes, so the
-- theorems hold for any clock, also one that goes back. A column of JSON text holds the value.
-- `stableId` and SHA-256 are parameters, and so are random values, the extractor, the web connector,
-- `JSON.stringify`, `String`, the reading of dates, SQL's LIKE and floating point arithmetic. Other
-- numbers are natural numbers. No definition needs fuel: a loop runs over a list, or over the number of
-- attempts or redirects that are left.
--
-- Not modelled: the connectors and their scheduling; the loop of src/bootstrap/worker.ts, of which the
-- lease heartbeat is modelled; the tests of URLs (src/url.ts), which the public HTTP client and the
-- ingestion take as parameters; the configuration; the PostgreSQL adapters, whose rules stand in SQL
-- functions and row policies; the HTTP routes, pages and schemas; the OIDC and OAuth flows; extraction
-- by regular expressions and language models; logging, start-up and scripts.
pub mod Auth
pub mod Catalog
pub mod Common
pub mod Credentials
pub mod Domain
pub mod Gate
pub mod Ingestion
pub mod Outbound
pub mod Privacy
pub mod Queue
pub mod RateLimit
pub mod Resolver
pub mod Sources
pub mod Worker
