-- ===== src/Commands/Mains.antt =====
-- The mains of cmd/api, cmd/scheduler and cmd/worker, and the goroutines of Pool.Run of
-- internal/worker/pool.go.
--
-- The servers of net/http and the signals are not there: a server that fails only ends its process,
-- as a signal does.
use taskflow.Common.{
  ℕ, zero, suc, ◌*◌, ◌%◌, ◌^◌, ◌||◌, ℤ, pos, negsuc, pos_part, leb_ℤ, String, Bool, if◌then◌else◌,
  List, [], ◌∷◌, Option, none, some,
}
use taskflow.Store.Query.{Reply, RoundTrip}
use taskflow.Store.Tables.{Database}
use taskflow.Store.Connecting.{PostgresStore}
use taskflow.Config.{Config}
use taskflow.Api.Text.{is_empty}
use taskflow.Lock.{Sessions, Elector, Attempt, new_elector}
use taskflow.Scheduler.Schedule.{Cron}
use taskflow.Scheduler.Run as Promoter
use taskflow.Worker.Backoff.{int64}
use taskflow.Worker.Pool.{Pool, new_pool}
use taskflow.Worker.Handlers.{Clock, Client, with_handlers}
use taskflow.Commands.Process.{
  Host, Process, Main, ◌>>=◌, ◌>>◌, return, connected, loaded, with_secret, with_read_replica,
  stopped, Exit, panicked, hangs, returned, finished,
}

-- What an API server works with. `redis` is the address of the cache that stands before the store.
pub record Serving (F : Type 0) : Type 0 where
  pub config : Config F
  pub store : PostgresStore
  pub redis : Option String

abbrev pub cached : String → Option String
cached addr = if is_empty addr then none else some addr

module _ {F D : Type 0} (host : Host F D) where
  unfoldable pub api_start : Main D (Serving F)
  unfolding loaded connected with_read_replica
  api_start = do
    cfg ← loaded host
    with_secret host cfg
    st ← connected host cfg
    st' ← with_read_replica host cfg st
    return (record { config = cfg; store = st'; redis = cached cfg.redis_addr })

-- The servers run until a signal, or one fails; their requests have been answered then.
unfoldable pub api_main : {F D : Type 0} → Host F D → Process D → Exit D (Serving F)
unfolding api_start stopped
api_main host p = finished (api_start host p) (λ s p'. returned s (stopped s.store p'))

-- time.NewTicker panics on such an interval.
abbrev pub cannot_tick : ℤ → Bool
cannot_tick interval = leb_ℤ interval (pos 0)

-- A scheduler: its interval, its store, and the elector on the store's pool.
pub record Scheduling : Type 0 where
  pub interval : ℤ
  pub store : PostgresStore
  pub elector : Elector

module _ {F D : Type 0} (host : Host F D) where
  unfoldable pub scheduler_start : Main D Scheduling
  unfolding loaded connected
  scheduler_start = do
    cfg ← loaded host
    st ← connected host cfg
    return (record { interval = cfg.poll_interval; store = st; elector = new_elector })

-- st.Close waits for the connection that the elector has checked out of the pool.
abbrev pub closed_with : {D A : Type 0} → Option ℕ → A → PostgresStore → Process D → Exit D A
closed_with none a st p = returned a (stopped st p)
closed_with (some conn) a st p = hangs a p

-- What the scheduler meets while it runs: the clock and the round trips, the sessions of Postgres,
-- what becomes of TryAcquire on each tick until the signal, and of Release after it. `tables` is the
-- part of the database that the migrations make.
pub record Life (D : Type 0) : Type 1 where
  pub cron : Cron
  pub tables : D → Database
  pub now : ℤ
  pub script : List RoundTrip
  pub sessions : Sessions
  pub ticks : List Attempt
  pub release : Reply

unfoldable pub replica_of : {D : Type 0} → Life D → Elector → Process D → Promoter.Replica
replica_of life elector p = record {
  world = record {
    db = life.tables p.session.schema.tables;
    replica = none;
    now = life.now;
    script = life.script;
  };
  sessions = life.sessions;
  elector = elector;
}

abbrev pub promoted : {D : Type 0} → Life D → Scheduling → Process D → Exit D Scheduling
promoted life s p =
    let final = Promoter.run life.cron life.ticks life.release (replica_of life s.elector p) in
    if cannot_tick s.interval
    then panicked s (stopped s.store p)
    else closed_with final.elector.conn (record s { elector = final.elector }) s.store p

unfoldable pub scheduler_main : {F D : Type 0} → Host F D → Life D → Process D → Exit D Scheduling
unfolding scheduler_start Promoter.run stopped replica_of
scheduler_main host life p = finished (scheduler_start host p) (promoted life)

-- The goroutines of Pool.Run.
pub data Loop : Type 0 where
  lease heartbeat janitor : Loop

abbrev pub leasing : ℕ → List Loop → List Loop
leasing zero ls = ls
leasing (suc n) ls = lease ∷ leasing n ls

unfoldable pub goroutines : Pool → List Loop
goroutines p = leasing (pos_part p.concurrency) (heartbeat ∷ janitor ∷ [])

pub record Working : Type 0 where
  pub interval : ℤ
  pub store : PostgresStore
  pub pool : Pool
  pub loops : List Loop

module _ {F D : Type 0} (host : Host F D) (clock : Clock) (client : Client) where
  unfoldable pub worker_start : Main D Working
  unfolding loaded connected new_pool with_handlers goroutines
  worker_start = do
    cfg ← loaded host
    st ← connected host cfg
    let pool =
        with_handlers clock client
          (new_pool cfg.worker_id cfg.concurrency cfg.lease_duration (pos_part cfg.poll_interval))
    return
        (record { interval = cfg.poll_interval; store = st; pool = pool; loops = goroutines pool })

-- p.PollInterval * 5, which wraps.
abbrev pub janitor_interval : ℤ → ℤ
janitor_interval (pos n) = int64 ((n * 5) % 2 ^ 64)
janitor_interval (negsuc n) = negsuc n

-- The heartbeat and the janitor loop start a ticker each, and a panic of either ends the process at
-- once. After the signal Pool.Run waits for its loops.
abbrev pub worked : {D : Type 0} → Working → Process D → Exit D Working
worked w p =
    if cannot_tick w.interval || cannot_tick (janitor_interval w.interval)
    then panicked w p
    else returned w (stopped w.store p)

unfoldable pub worker_main : {F D : Type 0} → Host F D → Clock → Client → Process D → Exit D Working
unfolding worker_start stopped
worker_main host clock client p = finished (worker_start host clock client p) worked
