-- ===== src/Commands/Startup.antt =====
-- What a command has done when it starts to work, and when it gives up.
use taskflow.Common.{
  String, ◌≡◌, refl, sym, ap, subst, ◌∙◌, Bool, true, false, Bool-cases, inl, inr, if◌then◌else◌,
  List, Option, none, some, is_some, Option-cases,
}
use taskflow.Store.Query.{Reply, delivered, refused, lost}
use taskflow.Store.Connecting.{Pools, PostgresStore, open_store}
use taskflow.Store.Connecting.Closing.{AreNumbered, Owns, Opened, reachable, open_store-Opened}
use taskflow.Migrations.{
  Directory, Entry, Session, Schema, trip, versions_of, run_migrations, after_table, after_lock,
  after_acquire, unlocked,
}
use taskflow.Migrations.Progress.{Migrated, run_migrations-Reached}
use taskflow.Config.{Config}
use taskflow.Api.Text.{is_empty}
use taskflow.Commands.Process.{
  Host, Process, Reason, load_config, empty_secret, init_tracing, connect_database, migrate,
  connect_replica, Step, goes, exits, init, run_migrations_or, connected, or_fatal, on_pools,
  and_then,
}

module _ {D : Type 0} (dir : Directory) (apply : String → D → Option D) where
  -- The migrations are applied: all of them, or up to some point.
  abbrev pub Applied : Bool → Schema D → Schema D → Type 0
  Applied b s t =
      (entries : List Entry) × (dir.entries ≡ some entries)
      × Migrated dir apply (versions_of entries) s t b

  unread_table :
      (r : Reply) (st : Session D) → dir.entries ≡ none → (after_table dir apply r st).0 ≡ none
  unread_table delivered st e = rw e refl
  unread_table refused st e = refl
  unread_table lost st e = refl

  unlocked_same : (x : Option (Unit {0}) × Session D) → (unlocked dir apply x).0 ≡ x.0
  unlocked_same (answer, st) = refl

  unread_lock :
      (r : Reply) (st : Session D) → dir.entries ≡ none → (after_lock dir apply r st).0 ≡ none
  unread_lock delivered st e =
      unlocked_same (after_table dir apply (trip st).0 (trip st).1)
      ∙ unread_table (trip st).0 (trip st).1 e
  unread_lock refused st e = refl
  unread_lock lost st e = refl

  unread_acquire :
      (r : Reply) (st : Session D) → dir.entries ≡ none → (after_acquire dir apply r st).0 ≡ none
  unread_acquire delivered st e = unread_lock (trip st).0 (trip st).1 e
  unread_acquire refused st e = refl
  unread_acquire lost st e = refl

  unread : (st : Session D) → dir.entries ≡ none → (run_migrations dir apply st).0 ≡ none
  unfolding run_migrations
  unread st e = unread_acquire (trip st).0 (trip st).1 e

  done-Applied :
      (st st' : Session D) (done : Unit {0})
      → run_migrations dir apply st ≡ (some done, st')
      → Applied true st.schema st'.schema
  done-Applied st st' done e = elim (Option-cases dir.entries) [
    | inl h ↦ cc (ap (λ x. x.0) e, unread st h)
    | inr (entries, h) ↦ (
      entries,
      h,
      subst (λ x. Migrated dir apply (versions_of entries) st.schema x.1.schema (is_some x.0)) e
          (run_migrations-Reached dir apply entries st h),
    )
  ]

module _ {F D : Type 0} (host : Host F D) where
  -- A command at work: the pools of its store are open and no other, every migration is applied, and
  -- it exports traces if an endpoint is set.
  pub record AtWork (p : Process D) (cfg : Config F) (st : PostgresStore) (p' : Process D)
      : Type 0 where
    pub pools : Owns p.pools st p'.pools
    pub migrated : Applied host.directory host.apply true p.session.schema p'.session.schema
    pub traced : p'.exporting ≡ (if is_empty cfg.otlp_endpoint then p.exporting else true)

  -- Why a command gave up once it had its settings, and what it has changed until then.
  abbrev pub Fails : Process D → Config F → Reason → Process D → Type 0
  Fails p cfg init_tracing p' =
      (is_empty cfg.otlp_endpoint ≡ false) × (host.exports cfg.otlp_endpoint ≡ false) × (p' ≡ p)
  Fails p cfg connect_database p' =
      ((open_store host.pgx cfg.database_url p.pools).0 ≡ none)
      × (p'.session ≡ p.session)
      × (p'.pools.live ≡ p.pools.live)
  Fails p cfg migrate p' = run_migrations host.directory host.apply p.session ≡ (none, p'.session)
  Fails p cfg connect_replica p' =
      (is_empty cfg.replica_url ≡ false)
      × (reachable host.pgx cfg.replica_url ≡ false)
      × Applied host.directory host.apply true p.session.schema p'.session.schema
  Fails p cfg load_config p' = ⊥
  Fails p cfg empty_secret p' = ⊥

-- What a step of `main` comes to.
abbrev pub Led :
    {D A : Type 0} → (A → Process D → Type 0) → (Reason → Process D → Type 0) → Step D A → Type 0
Led P E (goes a p) = P a p
Led P E (exits r p) = E r p

pub Led-then :
    {D A B : Type 0} (P : A → Process D → Type 0) (Q : B → Process D → Type 0)
    (E : Reason → Process D → Type 0) (m : Step D A) (f : A → Process D → Step D B)
    → Led P E m
    → ((a : A) (p : Process D) → P a p → Led Q E (f a p))
    → Led Q E (and_then m f)
Led-then P Q E (goes a p) f h g = g a p h
Led-then P Q E (exits r p) f h g = h

pub Led-weaken :
    {D A : Type 0} (P : A → Process D → Type 0) (E E' : Reason → Process D → Type 0)
    → ((r : Reason) (p : Process D) → E r p → E' r p)
    → (m : Step D A) → Led P E m
    → Led P E' m
Led-weaken P E E' w (goes a p) h = h
Led-weaken P E E' w (exits r p) h = w r p h

module _ {F D : Type 0} (host : Host F D) (cfg : Config F) (p : Process D)
    (n : AreNumbered p.pools) where
  abbrev Traced : Unit {0} → Process D → Type 0
  Traced u p' =
      (p'.pools ≡ p.pools)
      × (p'.session ≡ p.session)
      × (p'.exporting ≡ (if is_empty cfg.otlp_endpoint then p.exporting else true))

  init-Led : Led Traced (Fails host p cfg) (init host cfg.otlp_endpoint p)
  unfolding init
  init-Led = elim (Bool-cases (is_empty cfg.otlp_endpoint)) [
    | inl e ↦ rw e (refl, refl, rw e refl)
    | inr e ↦ elim (Bool-cases (host.exports cfg.otlp_endpoint)) [
      | inl f ↦ rw (e, f) (refl, refl, rw e refl)
      | inr f ↦ rw (e, f) (e, f, refl)
    ]
  ]

  abbrev Stored : PostgresStore → Process D → Type 0
  Stored st p' =
      Opened p.pools (some st, p'.pools)
      × (p'.session ≡ p.session)
      × (p'.exporting ≡ (if is_empty cfg.otlp_endpoint then p.exporting else true))

  Opened-Led :
      (p' : Process D) (x : Option PostgresStore × Pools)
      → open_store host.pgx cfg.database_url p.pools ≡ x
      → Opened p.pools x
      → Traced tt p'
      → Led Stored (Fails host p cfg) (or_fatal connect_database x.0 (record p' { pools = x.1 }))
  Opened-Led p' (none, ps) e o t = (ap (λ y. y.0) e, t.1, o)
  Opened-Led p' (some st, ps) e o t = (o, t.1, t.2)

  store-Led :
      (u : Unit {0}) (p' : Process D)
      → Traced u p'
      → Led Stored
          (Fails host p cfg)
          (on_pools connect_database (open_store host.pgx cfg.database_url) p')
  store-Led u p' t =
      Opened-Led p' (open_store host.pgx cfg.database_url p'.pools)
        (ap (open_store host.pgx cfg.database_url) (sym t.0))
        (subst (λ ps. Opened p.pools (open_store host.pgx cfg.database_url ps)) (sym t.0)
          (open_store-Opened host.pgx cfg.database_url p.pools n))
        t

  abbrev pub Primary : PostgresStore → Process D → Type 0
  Primary st p' = Opened p.pools (some st, p'.pools) × AtWork host p cfg st p'

  migrated-Led :
      (st : PostgresStore) (p' : Process D) (x : Option (Unit {0}) × Session D)
      → run_migrations host.directory host.apply p.session ≡ x
      → Stored st p'
      → Led
          (λ _ q. Primary st q)
          (Fails host p cfg)
          (or_fatal migrate x.0 (record p' { session = x.1 }))
  migrated-Led st p' (none, session) e s = e
  migrated-Led st p' (some done, session) e s = (
    s.0,
    record {
      pools = s.0.0;
      migrated = done-Applied host.directory host.apply p.session session done e;
      traced = s.2;
    },
  )

  pub connected-Led : Led Primary (Fails host p cfg) (connected host cfg p)
  unfolding connected
  connected-Led = Led-then Traced Primary (Fails host p cfg) _ _ init-Led (λ u p1 t.
      Led-then Stored Primary (Fails host p cfg) _ _ (store-Led u p1 t) (λ st p2 s.
        Led-then (λ _ q. Primary st q) Primary (Fails host p cfg) (run_migrations_or host p2) _
          (migrated-Led st p2 (run_migrations host.directory host.apply p2.session)
            (ap (run_migrations host.directory host.apply) (sym s.1)) s)
          (λ v p3 m. m)))
