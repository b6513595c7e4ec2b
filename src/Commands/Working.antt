-- ===== src/Commands/Working.antt =====
-- A worker from its start to its end.
use taskflow.Common.{ℕ, ◌≡◌, ◌||◌, Bool, true, false, List, none, some, pos_part, count_where}
use taskflow.Store.Connecting.{PostgresStore}
use taskflow.Store.Connecting.Closing.{AreNumbered}
use taskflow.Config.{Config, load}
use taskflow.Worker.Pool.{Pool, handler_of, new_pool}
use taskflow.Worker.Handlers.{
  Clock, Client, with_handlers, echo_handler, sleep_handler, http_call_handler,
}
use taskflow.Commands.Process.{
  Host, Process, Reason, load_config, Exit, exited, panicked, hangs, returned,
}
use taskflow.Commands.Mains.{
  Working, Loop, lease, heartbeat, janitor, goroutines, cannot_tick, janitor_interval,
}
use taskflow.Commands.Startup.{AtWork, Fails}

abbrev pub is_lease : Loop → Bool
is_lease lease = true
is_lease heartbeat = false
is_lease janitor = false

abbrev pub is_heartbeat : Loop → Bool
is_heartbeat heartbeat = true
is_heartbeat lease = false
is_heartbeat janitor = false

abbrev pub is_janitor : Loop → Bool
is_janitor janitor = true
is_janitor lease = false
is_janitor heartbeat = false

-- The loops that a pool of `n` runs at once has.
abbrev pub AreLoops : ℕ → List Loop → Type 0
AreLoops n ls =
    (count_where is_lease ls ≡ n)
    × (count_where is_heartbeat ls ≡ 1)
    × (count_where is_janitor ls ≡ 1)

module _ {F D : Type 0} (host : Host F D) (clock : Clock) (client : Client) (p : Process D) where
  -- A worker at work: its three handlers stand under their names, and its loops run.
  pub record AtLoops (w : Working) (q : Process D) : Type 0 where
    pub config : Config F
    pub settings : load host.env ≡ some config
    pub work : AtWork host p config w.store q
    pub interval : w.interval ≡ config.poll_interval
    pub worker_id : w.pool.worker_id ≡ config.worker_id
    pub lease_duration : w.pool.lease_duration ≡ config.lease_duration
    pub loops : AreLoops (pos_part config.concurrency) w.loops
    pub echo : handler_of "echo" w.pool.handlers ≡ some echo_handler
    pub sleep : handler_of "sleep" w.pool.handlers ≡ some (sleep_handler clock)
    pub http_call : handler_of "http_call" w.pool.handlers ≡ some (http_call_handler client)

  -- Why a worker gave up.
  abbrev pub Quits : Reason → Process D → Type 0
  Quits load_config q = (load host.env ≡ none) × (q ≡ p)
  Quits r q = (cfg : Config F) × (load host.env ≡ some cfg) × Fails host p cfg r q

  -- How the process of a worker ends.
  abbrev pub Concludes : Exit D Working → Type 0
  Concludes (exited r q) = Quits r q
  Concludes (panicked w q) =
      AtLoops w q × ((cannot_tick w.interval || cannot_tick (janitor_interval w.interval)) ≡ true)
  Concludes (hangs w q) = ⊥
  Concludes (returned w q) =
      (during : Process D) × AtLoops w during
      × ((cannot_tick w.interval || cannot_tick (janitor_interval w.interval)) ≡ false)
      × (q.session ≡ during.session)
      × (q.pools.live ≡ p.pools.live)
      × (q.exporting ≡ false)

  module _ (n : AreNumbered p.pools) where
    abbrev pool_of : Config F → Pool
    pool_of cfg =
        with_handlers clock client
          (new_pool cfg.worker_id cfg.concurrency cfg.lease_duration (pos_part cfg.poll_interval))

    abbrev working : Config F → PostgresStore → Working
    working cfg st = record {
      interval = cfg.poll_interval;
      store = st;
      pool = pool_of cfg;
      loops = goroutines (pool_of cfg);
    }
