-- ===== src/Commands/Process.antt =====
-- What the mains of cmd/api, cmd/scheduler and cmd/worker do alike, and Init of
-- internal/tracing/tracing.go.
--
-- The exporter of OpenTelemetry is a parameter.
use taskflow.Common.{String, Bool, true, false, if◌then◌else◌, Option, none, some}
use taskflow.Store.Connecting.{Pgx, Pools, PostgresStore, open_store, enable_read_replica, close}
use taskflow.Migrations.{Directory, Session, run_migrations}
use taskflow.Config.{Config, Env, load}
use taskflow.Api.Text.{is_empty}

-- What a process finds when it is started. `F` is float64, `D` the database beside
-- schema_migrations.
pub record Host (F D : Type 0) : Type 0 where
  pub env : Env F
  pub pgx : Pgx
  -- Whether otlptracehttp.New makes an exporter for an endpoint.
  pub exports : String → Bool
  pub directory : Directory
  pub apply : String → D → Option D

-- The pools that it has open, whether it has a tracer provider, and the database.
pub record Process (D : Type 0) : Type 0 where
  pub pools : Pools
  pub exporting : Bool
  pub session : Session D

-- Why a command calls os.Exit(1).
pub data Reason : Type 0 where
  load_config empty_secret init_tracing connect_database migrate connect_replica : Reason

pub data Step (D A : Type 0) : Type 0 where
  goes : A → Process D → Step D A
  exits : Reason → Process D → Step D A

abbrev pub Main : Type 0 → Type 0 → Type 0
Main D A = Process D → Step D A

abbrev pub and_then : {D A B : Type 0} → Step D A → (A → Main D B) → Step D B
and_then (goes a p) f = f a p
and_then (exits r p) f = exits r p

infixl 5 ◌>>=◌ ◌>>◌
abbrev pub ◌>>=◌ : {D A B : Type 0} → Main D A → (A → Main D B) → Main D B
◌>>=◌ m f p = and_then (m p) f

abbrev pub ◌>>◌ : {D B : Type 0} → Main D (Unit {0}) → Main D B → Main D B
m >> k = m >>= λ _. k

abbrev pub return : {D A : Type 0} → A → Main D A
return a p = goes a p

-- fatal
abbrev pub or_fatal : {D A : Type 0} → Reason → Option A → Main D A
or_fatal r none p = exits r p
or_fatal r (some a) p = goes a p

abbrev pub on_pools : {D A : Type 0} → Reason → (Pools → Option A × Pools) → Main D A
on_pools r f p = let (a, ps) = f p.pools in or_fatal r a (record p { pools = ps })

module _ {F D : Type 0} (host : Host F D) where
  -- Init: no endpoint, no provider.
  unfoldable pub init : String → Main D (Unit {0})
  init endpoint p =
      if is_empty endpoint
      then goes tt p
      else if host.exports endpoint
      then goes tt (record p { exporting = true })
      else exits init_tracing p

  abbrev pub run_migrations_or : Main D (Unit {0})
  run_migrations_or p =
      let (done, session) = run_migrations host.directory host.apply p.session in
      or_fatal migrate done (record p { session = session })

  -- What the three commands do alike once they have their settings.
  unfoldable pub connected : Config F → Main D PostgresStore
  unfolding init open_store run_migrations
  connected cfg = do
    init cfg.otlp_endpoint
    st ← on_pools connect_database (open_store host.pgx cfg.database_url)
    run_migrations_or
    return st

  unfoldable pub loaded : Main D (Config F)
  unfolding load
  loaded = or_fatal load_config (load host.env)

  -- if cfg.JWTSecret == ""
  abbrev pub with_secret : Config F → Main D (Unit {0})
  with_secret cfg p = if is_empty cfg.jwt_secret then exits empty_secret p else goes tt p

  -- if cfg.ReplicaURL != ""
  unfoldable pub with_read_replica : Config F → PostgresStore → Main D PostgresStore
  unfolding enable_read_replica
  with_read_replica cfg st =
      if is_empty cfg.replica_url
      then return st
      else on_pools connect_replica (enable_read_replica host.pgx cfg.replica_url st)

-- The deferred calls, the last one first.
unfoldable pub stopped : {D : Type 0} → PostgresStore → Process D → Process D
unfolding close
stopped st p = record p { pools = close st p.pools; exporting = false }

-- How a process ends, after what it worked with: by os.Exit(1), by a panic, never, since it waits
-- for a connection that is not given back, or by a return.
pub data Exit (D A : Type 0) : Type 0 where
  exited : Reason → Process D → Exit D A
  panicked : A → Process D → Exit D A
  hangs : A → Process D → Exit D A
  returned : A → Process D → Exit D A

abbrev pub finished : {D A : Type 0} → Step D A → (A → Process D → Exit D A) → Exit D A
finished (exits r p) f = exited r p
finished (goes a p) f = f a p
