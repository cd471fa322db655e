-- ===== src/Lib.antt =====
-- Verification of the core logic of the personal_assistant backend, a Go service with an event
-- broker for browsers, role and organisation based authorization, a transactional outbox, an
-- assistant with a long-term memory, and tracing.
--
-- Base: the shared helpers. Base.Tests, Base.Keys, Base.Lists, Base.Maps (Go maps),
-- Base.Buckets (maps of sets, which are deleted when they are empty), Base.Int (signed
-- numbers), Base.Text (Go strings as lists of code points with strings.TrimSpace and
-- strings.HasPrefix), Base.Decimal (the %d of fmt) and Base.Result (a value or an error).
--
-- Sse: internal/infrastructure/sse. Sse.Types is types.go (events, principals, the policy and
-- its Normalize), Sse.Connection is connection.go and Sse.Broker is broker.go, with Register,
-- Unregister, PublishToSubject, PublishToChannel, RevokeSubject, BeginDrain, Stats and the
-- close callback. A connection is a value with an address, and the cells that its methods write
-- stand in a store by address, so that two connections with one id stay apart. Each method of
-- the broker, with the closings it starts, is one step: the locks make each map access atomic,
-- and interleavings inside one method are not modelled. Go iterates over a map in any order,
-- the model in the order of insertion. The counter of slow consumers is an int64 kept as its
-- pattern of 64 bits. A connection's loop is a step for each wake-up of its select.
--
-- Auth: Auth.Casbin is pkg/casbin/casbin.go (BuildSubject, HasPermission), with the third-party
-- enforcer as a function of the request. Auth.Roles and Auth.Authorization are
-- internal/service/system/authorizationSvc.go, over a record of what the repositories and the
-- enforcer answer during a request. Auth.Gate is internal/middleware/permissionMW.go. Logging,
-- response bodies and the texts of wrapped errors are left out.
--
-- OjTask: internal/service/system/ojTaskDispatcher.go with the claim of
-- internal/repository/system/ojTaskExecutionRepo.go. OjTask.Types is the rows, OjTask.Snapshot
-- and OjTask.Build the snapshot of who has solved what, OjTask.Dispatch one attempt at an
-- execution and the call of it for an event, OjTask.Runs attempts one after the other,
-- OjTask.Carried an attempt in which no call fails. The answers of the lock, of the reads and
-- of the writes are given from outside for each call, so that every failure is covered; the
-- outcome of the check before the start and of the transaction are given too; OjTask.Persist is
-- the transaction's rows of users, organisations and items, which the tables of OjTask.Types do
-- not hold. Go's sort.Slice is a sorting by insertion, and the order of a range over a map is
-- that of insertion, which the sorting makes irrelevant. The texts of errors are a parameter.
--
-- OjTask.Lifecycle: internal/service/system/ojTaskSvc.go with the drafts of
-- ojTask_resolution.go and the tables of internal/repository/system/ojTaskRepo.go. Draft and
-- Materialize make the draft of a request, Store is the tables and what an operation meets
-- outside, and Create, Edit and Versions are CreateTask, UpdateTask, DeleteTask,
-- ExecuteTaskNow, ReviseTask and RetryTask, each with the failure of every call, of which none
-- leaves a trace, since a transaction is undone as a whole. Reached joins them with the
-- dispatcher of OjTask.Dispatch: its steps are the operations, the event of a new question, the
-- claim of an execution, and the rest of an attempt, in any order; the rest of an attempt is
-- one step, which may change the rows of items, since the check before the start matches them
-- anew. ReviseTask and RetryTask read their source before the transaction, and nothing comes
-- between in the model. Passes is DispatchPendingExecutions with one worker (several workers
-- make the same attempts in another order), Preflight is the check of the items before an
-- attempt, ojTask_preflight.go, where Decided says what it makes of one item, and Upserted is
-- HandleQuestionUpserted of ojTask_question_upsert.go. Change is what a step may do to the
-- tables and Consistent their invariant; Edited, Stored, Versioned, Attempts and Reached hold
-- the lemmas on the steps, Moved and Created those on the invariant, and Passed those on a
-- pass. The ids that the tables give to new rows are given from outside, and are fresh and
-- positive, as those of an auto-increment column are; versions are natural numbers, without the
-- bounds of int. Permissions, organisations, the token's codec and the question banks answer
-- from outside.
--
-- Outbox: Outbox.Table is internal/repository/system/outboxRepo.go, the queries over a list of
-- rows; Outbox.Relay is Process of internal/infrastructure/outbox/processor.go. The answers of
-- the lock, of the read, of the publisher and of the marking are given from outside, so that
-- every failure is covered, and the messages that the publisher took are logged in order.
-- Whether the CASE of MarkAsFailed reads the retry count before or after the same statement
-- increments it depends on the database and is a parameter. Run, which calls Process on a
-- ticker and on notifications, and the trace metadata of messages are not modelled.
--
-- Memory: internal/service/system/aiMemoryPolicy.go with the types of
-- internal/domain/ai/memory.go and memory_policy.go. Memory.Access resolves scopes and checks
-- accesses, Memory.Store admits facts, Memory.Document admits documents and builds their dedup
-- keys, Memory.Ttl computes expiries, Memory.Override decides which fact wins, where
-- Memory.Override.Ranking describes the order of the sources apart from the numbers of the
-- code. Decisions keep their reason codes, not their texts. A confidence is a finite float64, a
-- fraction whose denominator is a power of two; parsing dates, rounding a difference to days,
-- SHA-256 and the lower case of a text are parameters.
--
-- RateLimit: the sliding window of pkg/ratelimit. RateLimit.Zset states what the script relies
-- on in Redis, as laws of the sorted set commands and of a key's expiry; RateLimit.Sliding is
-- sliding_window.go, with runs of calls for one identifier. A call is answered, or its answer
-- is lost after the script ran, or the script does not run. The clocks of the callers and of
-- Redis count as one; the window does not depend on the identifiers of other keys. The fixed
-- window of ratelimit.go is not modelled.
--
-- RedisLock: pkg/redislock/concurrency_lock.go. RedisLock.Cell states what the lock relies on
-- in Redis, as laws of the commands on one key; RedisLock.Lock is the operations of a lock and
-- runs of operations of several clients, each with a lease: until when it may take the lock for
-- its own. A renewal may come at any time, as the ticker is not modelled. Durations are whole
-- milliseconds, and the clocks of the clients and of Redis count as one.
--
-- Traceparent: pkg/observability/w3c/w3c.go, parsing, building and validation of the W3C
-- header, with the lower case of letters outside ASCII as a parameter, and the generation of
-- ids, a loop over the reads of the random source, which are given as a list: it ends if one of
-- them is good.
--
-- Chunk: internal/infrastructure/ai/memory/chunker.go. Chunk.Lines classifies lines,
-- Chunk.Blocks cuts a document into blocks (splitBlocks), Chunk.Units cuts blocks into units,
-- groups and windows, Chunk.Splitter is ParagraphChunker, Chunk.Merge joins chunks again. A
-- text is a list of code points, which is what the source counts. The loops over lines and over
-- windows take as fuel the number of lines and of runes; a round takes at least one of them
-- away. Chunk itself, which puts ids and hashes on the texts, is not modelled.
--
-- The other fuel is that of Base.Decimal, where a number has fewer digits than its successor.
-- Numbers of type uint are natural numbers without a bound, since the code only compares and
-- prints them.
--
-- Not modelled: HTTP controllers and routers, database access through gorm apart from the
-- outbox, Redis scripts, the language model runtime, vector search, crawlers, storage back
-- ends, configuration and start-up.
pub mod Auth
pub mod Base
pub mod Chunk
pub mod Memory
pub mod OjTask
pub mod Outbox
pub mod RateLimit
pub mod RedisLock
pub mod Sse
pub mod Traceparent
