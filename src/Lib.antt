-- ===== src/Lib.antt =====
-- A verification library of the gachinol server: the editorial workflow that takes a reporter's upload
-- to its publication, and the services around it. The contracts are packages/shared/src, the server is
-- services/api/src; other parts of the repository (the three apps, the workers, the user interface
-- package, the infrastructure) are not modelled.
--
-- Shared: the statuses and transition maps of packages/shared/src, a module for each entity
-- (content/workflow.ts is Shared/ContentStatus.antt), over common/state-machine.ts
-- (Shared/StateMachine.antt).
--
-- Api/Exec.antt is how a service method runs: `Exec S A` reads and writes a state and may throw; a
-- transaction that throws is rolled back; Api/Exec/Guarantee.antt has one rule for each way to build
-- a method, for a relation between the states before and after.
--
-- Api/Contents: services/api/src/contents/content-workflow.service.ts with the tables that it uses
-- (Database) and the review gate of services/api/src/resident-links (ReviewGate). `applyHop` is
-- `apply_hop` (Workflow/Hop), the guards are Workflow/Guards, the methods are Workflow/Operations and,
-- where they run in the transaction of a caller, Workflow/InTransaction. A method waits before and after
-- its transactions: `Environment.between` is what others commit meanwhile, and in Workflow/Requests
-- it is a run of further requests. A transaction runs without interruption. Workflow/Discipline,
-- Methods, MethodsInTransaction and Schedules carry a property of single hops to whole runs; Audit,
-- AuditHop and AuditRun, and Release and ReleaseRun, are the two properties.
--
-- Api/Publications: services/api/src/distribution/publications.service.ts on a list of rows (Service,
-- Report); Writes is its statements in any order, and Laws, RowRules, FirstResult and Summary are about
-- them.
-- Api/Media: the keys and ids of packages/shared/src/media/media-job.ts (Keys) and the table of
-- media/media-assets.service.ts (Assets); AssetLaws and Originals prove its properties.
-- Api/Pipeline: pipeline/pipeline.service.ts, which turns the events of the job queues into transitions.
-- System is the state: the database, the publications, the assets, the analyses and the jobs that
-- were added; Producers is queue/queue-producer.service.ts and analysis/analysis-producer.service.ts;
-- Media and Distribution are the handlers and Events the listeners. A handler waits before each of its
-- reads, writes and calls: `Outside.between` is what the rest of the server does meanwhile, the
-- handlers of other events among it. Keeps, ProducersKeep, HandlersKeep and EventsKeep carry a
-- discipline of the workflow to every event, and Runs applies them; Settled and SettledHandlers are
-- about repeated events, and Quiet, Outcomes and Failures about single ones.
-- Api/Distribution: the channels of a content, of distribution/channel-accounts.service.ts (Channels);
-- the jobs of distribution/distribution-producer.service.ts (Jobs); the requests that
-- contents/distribution-orchestrator.service.ts serves (Orchestrator, Requests), over the state of the
-- pipeline, with the accounts, the adapters and a hash as parameters (`Desk`). OrchestratorKeep and
-- RequestsKeep carry a discipline of the workflow to the requests; Refusals is about errors.
-- Api/Feed: feed/feed.cursor.ts (Cursor) and one page of feed/feed.service.ts (List); Paging is about
-- lists in pages, and Client and Walk about a subscriber who asks for page after page.
-- Api/Recommendations, Api/Stations, Api/Live: the services recommendation-workflow, station-workflow
-- and live-sessions, each as an `Exec` over its own table; Api/Recommendations/Week is
-- recommendations/week.ts, with the dates of JavaScript as a parameter.
-- Api/RateLimits: live/chat-rate-limiter.ts and telemetry/telemetry-rate-limiter.ts.
-- Api/Arbiter: arbiter/arbiter-policy.ts, and arbiter/dcp-arbiter.service.ts as steps between its awaits,
-- with calls of the queue that fail before or after the queue has done them.
-- Tests: the theorems at concrete inputs.
--
-- Times and counts are native natural numbers, texts are lists of UTF-16 code units. A clock is a
-- field of the state and does not advance within a method. No loop of the
-- server needs fuel: every recursion is on a list, a run or a schedule. The walk of a subscriber through
-- the feed takes fuel, and as much as there are contents, and one, is enough.
--
-- Not modelled: messages and details of errors, metrics, broadcasts, JSON columns, ids that uuid gives
-- to log rows, the isolation level of the database beyond the atomicity of a transaction, its unique
-- indexes, and everything that calls storage, queues, Redis, ffmpeg, platforms or models. The hooks for
-- public media are parameters.
pub mod Prelude
pub mod Shared
pub mod Api
pub mod Tests
