-- ===== src/Lib.antt =====
-- Taskflow: a distributed job scheduler over Postgres.
--
-- The program has three services, which share nothing but a database. The API server (internal/api)
-- creates, lists, pauses and resumes jobs; the scheduler (internal/scheduler) turns jobs that are due
-- into pending runs, of several replicas the one that internal/lock elects; each worker
-- (internal/worker) leases pending runs, executes them with its handlers, and settles them. All of
-- them reach the tables through the Store interface of internal/store/store.go, which
-- internal/store/postgres.go implements in SQL.
--
-- - Model: the domain types of internal/model/model.go.
-- - Store: the tables of migrations/0001_init.sql as lists of rows (Tables), and the methods of
--   postgres.go as queries: functions from a world, which is the primary's tables, the replica's,
--   a clock and the script of the coming round trips, to an answer and a world (Query). Jobs, Runs
--   and Workers hold one query for each method (CreateJob is `create_job`), one statement for each
--   SQL statement. A round trip may be refused, or lose its reply after the statement was carried
--   out; a transaction that fails is rolled back. Post, Ensures and Keeps are the contracts of
--   queries and their rules for every network; Reliably has those for a network that delivers
--   every reply. Reads and Valid state what the methods keep, History and Ledger are about their
--   sequences, Creation about CreateJob, Lease about the claim of a run, Reclaim about the recovery
--   of expired leases, and Effects about what the other operations do to a run's row. Lease.Progress
--   is about LeaseNextRun where a run is due, and Onward about what every query does to the script
--   and the clock.
-- - Scheduler: NextRunDue and DependenciesSatisfied of schedule.go (Schedule), and PromoteOnce of
--   promoter.go (Promoter), whose loop is a recursion on the jobs that ListJobs gives. Due,
--   Dependencies, Promotion, Pass and Progress are about them.
-- - Worker: the backoff of pool.go in wrapping 64-bit arithmetic (Backoff), executeOne and the
--   handlers it looks up (Pool), and leaseLoop, heartbeatLoop and janitorLoop, each for any number
--   of rounds until the context is cancelled (Loops). Execution, Isolation and Safety are about
--   them, Keeping has the rule for what executeOne keeps, Attempts is about how often a run is
--   leased, and Fairness about how long one waits for it. Exclusion has the loops of all workers as
--   a step relation: one step a call of the store, in which a handler's answer may be any.
--   Handlers has the three handlers of handlers.go, over the timer, the context and the client of
--   net/http; Handlers.Sleeping and Handlers.Calling are about them.
-- - Lock: TryAcquire and Release of internal/lock/postgres.go over the sessions of Postgres (Lock
--   itself, Acquiring, Releasing), and any number of electors as a step relation in which sessions
--   open and end at any time (Cluster, Exclusion). Scheduler.Run is the loop of Promoter.Run, a list
--   of ticks and the Release at its end.
-- - Api: the handlers of internal/api/handlers.go (Handlers) over a record of the methods of Store
--   that they call (Store.Service, which the queries fill), with Go's TrimSpace, HasPrefix and Atoi
--   (Text) and what requests and responses hold (Http); ratelimit.go (Limiter), where a list of
--   buckets stands for the map; auth.go (Auth); router.go (Router), from a request to its response:
--   the routes, the limiter, the token, the handler. Contract has the rules for contracts of
--   handlers; Creation, Retry, Listing, Validity, Access, Limiter.Quota and Auth.Minting are about
--   them, and System puts the requests among the calls of the other processes.
-- - Cache: internal/cache/cache.go, a Store.Service in front of another, with Redis and encoding/json
--   as records of their operations; Coherence is about calls one after the other,
--   Overlap about calls of GetJob and UpdateJobStatus that overlap, as a step relation; Overlap.Stored
--   has what it needs of PostgresStore, whatever the network does.
-- - Migrations: RunMigrations of internal/store/migrate.go, over the files of a directory and the
--   replies to come; Progress and Again are about it.
-- - Config: Load of internal/config/config.go over the environment (Config itself, Loading).
-- - Commands: the mains of cmd/api, cmd/scheduler and cmd/worker, and Init of
--   internal/tracing/tracing.go, over the pools that a process has open (Store.Connecting has New,
--   EnableReadReplica and Close). Process has what the three share and Mains the three; Startup is
--   about their start, Service about the API server, Shutdown about the end of a scheduler,
--   Working about the worker.
-- - Common: tests, signed integers, lists as tables, and their lemmas.
--
-- What JSONB can hold of a handler's result is Store.Json. Once a worker's context is cancelled,
-- executeOne sends nothing more for the run whose handler was cancelled.
--
-- A UUID is a number, which gen_random_uuid() draws by the script; a time or duration is an integer
-- of nanoseconds; a map[string]any is the list of its fields. Equal keys of ORDER BY keep the order
-- of insertion. Each statement and each transaction is atomic; the rows that SKIP LOCKED passes over
-- are part of the script. github.com/robfig/cron is the parameter `Cron`, of which only what its
-- documentation says is used: a later time, or the zero time. A handler is any function that
-- answers; one that never returns is not modelled.
--
-- In Lock a session is a number, and what the pool, the network and the server do to a call is its
-- argument. In Api, chi, golang-jwt, encoding/json, net.SplitHostPort and Postgres' reading of a UUID
-- are parameters; what golang-jwt documents is the record `SignsTokens`. The limiter counts billionths
-- of tokens, a rate is a whole number of tokens a second, and time is in nanoseconds, so that nothing
-- is rounded as float64 is.
--
-- A process is modelled from its environment to its end; that a server fails to listen only ends it,
-- as a signal does. The requests of an API server have been answered when its pools are closed.
--
-- Not modelled: calls of GetRun through the cache that overlap; a depends_on with a text that is no
-- UUID, which createJob decodes and on which CreateJob fails, so that the answer is 500; a payload with
-- the character 0, on which CreateJob fails in the same way; logs, metrics and spans, requestLogger and Recoverer
-- among them, which change no state.

pub mod Common
pub mod Model
pub mod Store
pub mod Lock
pub mod Cache
pub mod Migrations
pub mod Config
pub mod Scheduler
pub mod Worker
pub mod Api
pub mod Commands
