-- ===== src/Commands/Service.antt =====
-- The API server from its start to its end.
use taskflow.Common.{◌≡◌, true, false, not, none, some, is_some}
use taskflow.Store.Connecting.{PostgresStore}
use taskflow.Store.Connecting.Closing.{AreNumbered}
use taskflow.Config.{Config, load}
use taskflow.Api.Text.{is_empty}
use taskflow.Commands.Process.{
  Host, Process, Reason, load_config, empty_secret, Exit, exited, panicked, hangs, returned,
}
use taskflow.Commands.Mains.{Serving, cached}
use taskflow.Commands.Startup.{AtWork, Fails}

module _ {F D : Type 0} (host : Host F D) (p : Process D) where
  -- An API server at work.
  pub record AtService (s : Serving F) (p' : Process D) : Type 0 where
    pub settings : load host.env ≡ some s.config
    pub secret : is_empty s.config.jwt_secret ≡ false
    pub work : AtWork host p s.config s.store p'
    pub replica : is_some s.store.replica_pool ≡ not (is_empty s.config.replica_url)

  -- Why an API server gave up.
  abbrev pub Refused : Reason → Process D → Type 0
  Refused load_config p' = (load host.env ≡ none) × (p' ≡ p)
  Refused empty_secret p' =
      (cfg : Config F) × (load host.env ≡ some cfg) × (is_empty cfg.jwt_secret ≡ true) × (p' ≡ p)
  Refused r p' =
      (cfg : Config F) × (load host.env ≡ some cfg)
      × (is_empty cfg.jwt_secret ≡ false)
      × Fails host p cfg r p'

  module _ (n : AreNumbered p.pools) (cfg : Config F) (settings : load host.env ≡ some cfg)
      (secret : is_empty cfg.jwt_secret ≡ false) where
    abbrev Configured : PostgresStore → Process D → Type 0
    Configured st p' =
        AtWork host p cfg st p' × (is_some st.replica_pool ≡ not (is_empty cfg.replica_url))

    serving : PostgresStore → Serving F
    serving st = record { config = cfg; store = st; redis = cached cfg.redis_addr }

  -- How the process of an API server ends.
  abbrev pub Ends : Exit D (Serving F) → Type 0
  Ends (exited r p') = Refused r p'
  Ends (panicked s p') = ⊥
  Ends (hangs s p') = ⊥
  Ends (returned s p') =
      (during : Process D) × AtService s during
      × (p'.session ≡ during.session)
      × (p'.pools.live ≡ p.pools.live)
      × (p'.exporting ≡ false)
