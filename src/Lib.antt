-- ===== src/Lib.antt =====
-- PromptLens: a model of the services that capture, store and analyse prompts, and proofs about it.
--
-- The program. A connector of a coding tool (connectors/sdk/src/index.ts) captures prompts on a
-- developer's machine, keeps them in a queue and sends them to the API. It gets its tokens by the
-- device flow of the API (apps/api/src/connectors/device-authorization.service.ts), which a
-- signed-in member of a workspace approves. The API stores a prompt once for each event, with an
-- analysis and an outbox event (apps/api/src/prompts/prompts.service.ts). The worker
-- (apps/worker/src/main.ts) turns outbox events into jobs and runs each job: it claims the analysis,
-- asks an AI provider under limits (apps/worker/src/analysis) and stores the answer. People sign in
-- and reset passwords through apps/api/src/auth/auth.service.ts; owners and administrators keep the
-- members, the connectors and the access of support through apps/api/src/admin/admin.service.ts. All
-- of them share one PostgreSQL database (packages/database/prisma/schema.prisma).
--
-- The files.
--   Prelude: shared names, Boolean tests, list functions, columns that are keys.
--   Store: the database client as a record of operations with laws (`Prisma`), transactions that
--     throw and roll back, and the lemmas on filters that select one row; `memory` meets the laws.
--     Store.Overlap: transactions that read, wait and go on, in any order of steps.
--   Schema: the tables of schema.prisma as records, the state `Db`, one delegate for each table.
--   Actor: who calls (auth.types.ts, connector-auth.types.ts).
--   Device: DeviceAuthorizationService. Device.Messages has its requests and answers, Grant create
--     and approve, Exchange poll and refresh, Device itself authenticate. Device.Poll, Refresh,
--     Approve and Authenticate prove what one call does, Lifecycle and History follow a row through
--     sequences of calls, Rotation the credentials. Device.Race: calls that overlap, as instances of
--     Store.Overlap; Race.Once is about polls, Refreshed about refreshes, Approvals about approvals.
--   Sdk: ConnectorClient, with the storage, the clock, the random numbers and the server as one
--     world (Sdk.World). Sdk.Queue, Backoff and Flush are about the queue, Sdk.Shared about calls of
--     flush that overlap. Sdk.Connect: beginAuthorization, with `connect` of the connectors' command
--     lines (connectors/claude-code/src/cli.ts); Sdk.Capture: their `capture`.
--   Ingest: PromptsService.ingest, Ingest.Event its request. Ingest.Created is about a new event,
--     Repeat about a repeated one.
--   Analysis: AnalysisControls, classifyAnalysisError and calculateScore, with Redis as a record of
--     commands with laws (Analysis.Redis). Limits, Circuit, Month and Score are about them.
--     Analysis.Fake: the provider that needs no network (fake-analysis.provider.ts).
--   Worker: processAnalysis, Worker.Job the rows that it writes. Worker.Process and Running are
--     about a run, Dispatch about dispatchOutbox, Lifecycle about enforceDataLifecycle.
--   Admin: updateMember, removeMember, revokeConnector; Admin.Race: two changes of a role that
--     overlap; Admin.Workspace: updateUserStatus, addMember, updateSettings, scheduleDeletion,
--     cancelDeletion; Admin.Overview: overview without the costs; Admin.Support: requestSupport,
--     approveSupport, revokeSupport and the check of supportMetadata.
--   Auth: login, authenticate, logout, revokeSession, switchTenant; Auth.Register: register;
--     Auth.Tokens: verifyEmail, resendVerification, requestPasswordReset and resetPassword;
--     Auth.MailService: what MailService hands over to the transport, which Register.Mailed joins to
--     `register`.
--   Config: parseRuntimeConfig of packages/config, over a parameter that reads the single fields.
--   History: promptScope, reanalyze and delete of PromptHistoryService; History.List: list and
--     detail (History.List.Query their messages), with Order and Walk about the pages against the
--     whole list; History.Export: export, with Rounds about its loop, Whole about the records and
--     Reading about the file; History.Csv: its CSV text.
--   Projects: create and update of ProjectsService; Projects.Name: ProjectName of packages/domain.
--   Tenancy: withTenantContext of packages/database and the row-level security policies of its
--     migrations, over operations as programs of statements. The handlers of the other modules name
--     the workspace in their filters and run as transactions without policies.
--   Connector: what the Claude Code and Codex connectors do besides the SDK. Connector.Command: the
--     command of the hook; Hooks: installHook; Lock: withLock of their storage.
-- A handler is a function from the state to an answer and a state; an exception is a value of
-- `Error`. The modules named Tests hold runs on concrete inputs.
--
-- Bounds. Every function ends by structural recursion. Two loops run on fuel, which theorems show to
-- be enough: the export, on ten rounds, and `connect`, on one round for each second until its
-- deadline and one more. Ids and timestamps are natural numbers; the time, the random tokens and the
-- ids of new rows are arguments of a call. In the queue of the SDK an instant is counted in ticks
-- that are fine enough to hold the fractions of a millisecond which a random delay gives.
--
-- What is taken as given. The Prisma client, Redis, the queue of jobs and the AI providers of third
-- parties are parameters with laws that say what their documentation says. So are SHA-256, Argon2,
-- the Unicode case mapping and trimming, `encodeURIComponent`, the test of a regular expression and
-- the schema of the single fields of the configuration, mostly without laws. What
-- PostgreSQL does to delete a workspace is a parameter that takes the prompts along where it succeeds,
-- and what the storage of a connector throws is an argument of the command `capture`; of the writes of
-- a run of the worker, the completion and the one of its `catch` can fail. Transactions do not overlap,
-- except in Device.Race and Admin.Race, where one goes on in a single step from what it has read.
--
-- What is not modelled. HTTP controllers, cookies and rate limits at the edge; logging; the web
-- application; the dispatch of the command lines, the browser and the keyring; the lists of the
-- administration and its data export; unique and foreign keys under row-level security; the parts of
-- the services above that are not named. They are reports, wiring or input and output around the
-- modelled code.
pub mod Prelude
pub mod Store
pub mod Schema
pub mod Actor
pub mod Device
pub mod Sdk
pub mod Ingest
pub mod Analysis
pub mod Worker
pub mod Admin
pub mod Config
pub mod Connector
pub mod Tenancy
pub mod Projects
pub mod Auth
pub mod History
