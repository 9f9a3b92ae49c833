-- ===== src/Lib.antt =====
-- Laravelize for Nuxt: the parts of the library that keep state, as definitions, with what holds of
-- them. The packages stand under packages/.
--
-- Parts and files:
--   Common: what the parts share. Common/Exec has methods that mutate an object and may throw: a
--     method takes the state and returns its result, or what it throws, with the state that it
--     leaves. Common/Map has a JavaScript `Map` with string keys. Common/Text counts UTF-16 units and
--     writes numbers.
--   Cache: packages/cache/src/runtime. Cache/InMemory has InMemoryCache.ts, one definition per
--     method, with increment in Counter, the fixed windows in Window and remember in Remember.
--     Cache/Lock has CacheLock.ts, which calls add, forgetIf, expireIf and get of the cache. View says
--     what a reader sees (the entries that are not over), and Valid what holds between calls.
--   Workflow: packages/workflows/src. Types has types.ts, State state.ts, Definition definition.ts,
--     Identity, Validation and Receipts validation.ts, Json the functions on JSON, Store store.ts, and
--     Transition and Manager manager.ts. The manager reads a workflow, claims it for a lease, commits
--     that a step has started, runs the handler while a heartbeat renews the lease, and commits the
--     result. A cancellation may come between any two of these; the store then merges it into the
--     commit, and the manager compensates the committed steps from the last to the first.
--   Migrations: packages/migrations/src. Migrations has the types of index.ts, Identifier the names and
--     defineMigration, Order topologicalSort, Load what a runner loads and checkedRecords, Runner the
--     calls of MigrationRunner, Status its constructor and plan, and Sql splitSqlStatements. Backend has
--     the backend in memory of testing.ts. The runner loads the migrations in their order, holds the
--     records of the backend against them, and runs in one transaction, which keeps what it wrote
--     only if the run returns.
--   RateLimiter: packages/rate-limiter/src/runtime/RateLimiter.ts, over the in-memory cache, in the
--     atomic mode and in the mode with a timer.
--   Reliability: packages/reliability/src/testing.ts, the outbox and the inbox in memory, with the
--     types of index.ts. Store/Prune has the pruning. Consumer has the InboxConsumer of index.ts,
--     which claims a message, renews its lease while the handler runs, and settles it; Processor has
--     what the OutboxProcessor does with one claimed row, in the same manner, and Processor/Loop its
--     loop, which claims as many rows at a time as its concurrency and its limit allow.
--
-- How the code is read:
--   An instant is a natural number of milliseconds, and one before the epoch reads as 0: no clock
--   reading is before it. A clock reading is an argument of the method that reads the clock. A time
--   to live is a whole number of seconds, and one whose milliseconds are infinite is invalid; instants
--   are exact, so they stand for safe integers. The numbers of a counter are integers, with infinities
--   and NaN; a sum is rounded to a double, by powers of 2 up to 2^972, which are enough below 2^1025,
--   and one that rounds to 2^1024 or more is infinite. Objects and promises have an identity that
--   counts up.
--   The part of an `async` method before an `await` and the part behind it are two definitions where
--   other calls may come between: remember and settle, and the beats of the heartbeat.
--   Numbers in JSON are integers, and the keys of an object stand in sorted order. The check of the
--   shape of an unknown value is done by the types. Texts are ordered by code points, which differs
--   from JavaScript only beyond the basic plane, and a text that is cut drops a split pair whole.
--   A timestamp in the canonical ISO form is its instant, and `localeCompare` is an argument. A value
--   under a key of the rate limiter that is not the limiter's is an error.
--   A snapshot is a value, so `structuredClone` is the identity; the format version is always 1.
--   A handler of a migration is the statements that it executes, one after the other, and what it
--   throws behind them; the clock of the runner answers for the migration that is recorded. Whether a
--   text is a canonical date, and which characters beyond ASCII are letters, are arguments. The loop
--   of the topological sort has as much fuel as there are migrations, and sorts one in every round.
--   What the manager is given from outside is an argument: the resolver, the tokens, the runs of the
--   handlers, the answers of the retry schedule, and what other processes do to the store, at every
--   place where a call waits for it: before the claim and behind a claim that conflicts, before the
--   first commit, at the beats and at the end of a handler, and on both sides of the reading behind a
--   commit that conflicts. The rows that the outbox processor claims together are taken in the order
--   in which they end; what a row does to the store before is among what others do to it. The list
--   of calls bounds the loop of `run`, as `maxTransitions` does, and the list of rounds the loop of
--   `block`. The loop of the outbox processor has one more fuel than its limit; every other loop
--   follows a list.
--
-- Not modelled: the defaults of constructors, the contexts that handlers are called with, timers and
-- abort signals beyond their answers, the worker of the outbox processor, the discovery of an
-- application's migrations and the command line, the queue, the container and the kernel, the
-- scheduler, dead letters and idempotency, fractions in counters and times to live, and the packages
-- that only call services, databases or the platform.
pub mod Common
pub mod Cache
pub mod Migrations
pub mod Workflow
pub mod Reliability
pub mod RateLimiter
