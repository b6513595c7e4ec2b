-- ===== src/Store/Connecting.antt =====
-- New, Close and EnableReadReplica of internal/store/postgres.go: the pools of connections that a
-- process has open.
--
-- pgxpool is a parameter: which URLs ParseConfig takes, for which NewWithConfig makes a pool, and
-- which servers answer a Ping. Pools are numbered in the order in which they are made.
pub mod Closing
use taskflow.Common.{
  ℕ, ◌+◌, ◌<◌, String, ◌≡◌, refl, sym, ◌∙◌, ap, subst, Bool, true, not, ◌==◌, Bool-cases, inl, inr,
  if◌then◌else◌, List, [], ◌∷◌, Option, none, some, rows_where, All, All-mono, arith, is_some,
}

pub record Pgx : Type 0 where
  pub parses : String → Bool
  pub makes : String → Bool
  pub answers : String → Bool

pub record Pools : Type 0 where
  pub live : List ℕ
  pub made : ℕ

pub record PostgresStore : Type 0 where
  pub pool : ℕ
  pub replica_pool : Option ℕ

-- pool.Close
abbrev pub close_pool : ℕ → Pools → Pools
close_pool id ps = record ps { live = rows_where (λ i. not (i == id)) ps.live }

abbrev pub made_pool : Pools → Pools
made_pool ps = record { live = ps.made ∷ ps.live; made = ps.made + 1 }

-- Which pool New and EnableReadReplica make for a URL; `none` is an error.
unfoldable pub connect : Pgx → String → Pools → Option ℕ × Pools
connect pgx url ps =
    if not (pgx.parses url)
    then (none, ps)
    else if not (pgx.makes url)
    then (none, ps)
    else if pgx.answers url
    then (some ps.made, made_pool ps)
    else (none, close_pool ps.made (made_pool ps))

abbrev pub new_store : Option ℕ × Pools → Option PostgresStore × Pools
new_store (none, ps) = (none, ps)
new_store (some id, ps) = (some (record { pool = id; replica_pool = none }), ps)

-- New
unfoldable pub open_store : Pgx → String → Pools → Option PostgresStore × Pools
unfolding connect
open_store pgx url ps = new_store (connect pgx url ps)

abbrev pub with_replica : PostgresStore → Option ℕ × Pools → Option PostgresStore × Pools
with_replica st (none, ps) = (none, ps)
with_replica st (some id, ps) = (some (record st { replica_pool = some id }), ps)

unfoldable pub enable_read_replica :
    Pgx → String → PostgresStore → Pools → Option PostgresStore × Pools
unfolding connect
enable_read_replica pgx url st ps = with_replica st (connect pgx url ps)

abbrev close_replica : Option ℕ → Pools → Pools
close_replica none ps = ps
close_replica (some id) ps = close_pool id ps

unfoldable pub close : PostgresStore → Pools → Pools
close st ps = close_replica st.replica_pool (close_pool st.pool ps)
