-- ===== src/Lib.antt =====
-- The workers of the e-mail service: they take messages from NATS JetStream queues, send mail with
-- AWS SES, keep their state in PostgreSQL and their rate limits and locks in Redis.
--
-- Effect has the common ground of the workers. An operation is a function of an environment, which
-- decides for each outside call whether it is done, is lost, or is done with an error for an answer,
-- and of a world: the tables (Schema), the token buckets and locks, what has been published, mailed
-- and settled, and the clock. Errors of Go are values (Effect/Errors); what is only logged is dropped.
-- A statement of PostgreSQL runs alone, and so do a Redis command and a script. JSON decoding gives
-- the body of a message or nothing. Effect/Keeps has the rules by which the proofs walk through a
-- handler: on mails and settlements (OnDone), on rows and mails (OnDb), on settlements (OnSettled).
--
-- The parts, with the files that they model:
--   Types                 pkg/types/nats_payloads.go
--   Schema, Postgres      internal/infra/postgres/client.go: EmailSends, Recipients, Campaigns,
--                         DueCampaigns, BulkInsert, SegmentContacts, Domains, Segments, Contacts,
--                         Identity, Events and Workflows have the statements on those tables, Keyset
--                         the paging by key
--   RateLimit             internal/ratelimit/token_bucket.go: Bucket is the Lua script, Acquire the
--                         loop of Acquire, with the budget in milliseconds and one as fuel, since each
--                         round waits a millisecond at least
--   Locks                 internal/infra/redis/client.go: AcquireLock and ReleaseLock
--   Queue                 internal/queue/producers/publisher.go
--   Ses/Client            internal/infra/ses/client.go: SendEmail and IsPermanentError
--   Ses/Verification      internal/worker/ses/handler.go and cleanup_scheduler.go, and
--                         CheckDomainVerification of internal/infra/ses/client.go
--   Email/Renderer        internal/worker/email/renderer.go
--   Email/Validate        the payload checks of internal/worker/email/handler.go and batcher.go
--   Email/Handler         the transactional handler of internal/worker/email/handler.go: `handle` is
--                         Handler.Handle, cut into stages at its early returns
--   Email/Chunk           the campaign chunk handler of the same file: `handle_chunk_message` is
--                         CampaignChunkHandler.Handle, `process_recipient` is processRecipient
--   Email/Batcher         internal/worker/email/batcher.go: StreamAndChunk and the campaign start handler
--   Email/CampaignScheduler  internal/worker/email/campaign_scheduler.go
--   Segments/Evaluator    internal/worker/segments/evaluator.go: the filter tree on a contact
--                         (Documented has what docs/workers/segment-computation.md says of it)
--   Segments/Handler      internal/worker/segments/handler.go: `handle_refresh` is Handler.Handle
--   Workflows/Executor    internal/worker/workflows/executor.go: `run` is Executor.Run
--   Workflows/Handler     internal/worker/workflows/handler.go: the trigger and register handlers
--   Workflows/Scheduler   internal/worker/workflows/scheduler.go: poll and resume
--   Events/Enricher       internal/worker/events/enricher.go: the contact that an event is about
--   Events/Handler        internal/worker/events/handler.go: `handle_event` is Handler.Handle, with
--                         the nak of the registry where the enricher panics
--   Cleanup               internal/worker/cleanup/scheduler.go, with Postgres/OldRows
--   Examples              concrete runs
-- A Go method's name is kept in snake case; a stage of a method has a name of its own.
--
-- Numbers are natural numbers; times and durations are milliseconds. The token bucket counts whole
-- thousandths of a token where the script has float64: rounding is not modelled, and nothing is said of
-- the exact millisecond at which a call is admitted again. Retries of
-- the queue are lists of deliveries, each with its own environment.
--
-- The stream of contacts runs on one round of fuel more than there are contacts, which is enough
-- since every full page goes past a contact; the stream of a campaign has one more than rows of the
-- join of contacts with memberships. A sweep of old rows has one more than rows, since each round that
-- another follows deletes some. The nodes of a workflow may form a loop, so that Run has
-- no bound of its own: its fuel is a parameter, and where every node has a rank above the next, one
-- more than the rank of the first is enough. Where the fuel runs out, Run has not returned: what would
-- follow it in the handler or the scheduler is not done.
--
-- Parameters: Conversions has what Go's library does with text, numbers and JSON in the evaluator,
-- Parsers what it does with the stored nodes of a workflow and with durations; `uuid` gives
-- the number of the ids that PostgreSQL compares, `fresh` the ids that it makes, `itoa` a number's text.
--
-- Not modelled: the ticker loops, process start, configuration, logging, the streams' declarations
-- and the libraries behind the clients, which are I/O; a JSON null among the rules of a filter tree,
-- on which the evaluator panics; of the consumer registry, all but the nak for a panic.
pub mod Prelude
pub mod Types
pub mod Schema
pub mod Effect
pub mod RateLimit
pub mod Queue
pub mod Ses
pub mod Postgres
pub mod Cleanup
pub mod Email
pub mod Segments
pub mod Events
pub mod Workflows
pub mod Locks
pub mod Examples
