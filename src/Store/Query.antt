-- ===== src/Store/Query.antt =====
-- How internal/store/postgres.go talks to Postgres through pgx: statements, transactions, the
-- read pool, and what may go wrong with each.
--
-- What Postgres and the network do is the script of the world, one entry a round trip: whether
-- the reply arrives, how much time passes first, which UUID gen_random_uuid() gives, and which
-- rows of job_runs other transactions have locked.
use taskflow.Common.{ℕ, ℤ, pos, ◌+ℤ◌, List, [], ◌∷◌, Option, none, some}
use taskflow.Store.Tables.{Database}

-- The errors that the store's callers tell apart: `no_rows` is pgx.ErrNoRows, `unique_violation`
-- a PgError of code 23505, `unavailable` every failure of the connection or the server, then
-- come the sentinels of internal/store/store.go, the scheduler's error on a cron expression, and
-- what Postgres answers to a text that is no UUID and to a JSON value that JSONB cannot hold.
pub data Error : Type 0 where
  no_rows unique_violation foreign_key_violation out_of_range unavailable : Error
  not_found idempotency_conflict invalid_cron malformed_id invalid_json : Error

pub data Result {ℓ} (A : Type ℓ) : Type ℓ where
  ok : A → Result A
  err : Error → Result A

-- A request that is refused is not carried out; one whose reply is lost is carried out, and
-- its caller sees an error all the same.
pub data Reply : Type 0 where
  delivered refused lost : Reply

pub record RoundTrip : Type 0 where
  pub reply : Reply
  pub elapsed : ℕ
  pub fresh_id : ℕ
  pub locked : List ℕ

-- An empty script: every reply arrives at once.
abbrev pub quiet : RoundTrip
quiet = record { reply = delivered; elapsed = 0; fresh_id = 0; locked = [] }

-- `replica` is what the read replica has replayed so far, if one is configured.
pub record World : Type 0 where
  pub db : Database
  pub replica : Option Database
  pub now : ℤ
  pub script : List RoundTrip

abbrev pub Query : Type 0 → Type 0
Query A = World → Result A × World

unfoldable pub return : {A : Type 0} → A → Query A
return a w = (ok a, w)

unfoldable pub raise : {A : Type 0} → Error → Query A
raise e w = (err e, w)

abbrev pub and_then : {A B : Type 0} → Result A × World → (A → Query B) → Result B × World
and_then (ok a, w) f = f a w
and_then (err e, w) f = (err e, w)

-- To open this is to open `return` and `raise` too.
infixl 5 ◌>>=◌ ◌>>◌
unfoldable pub ◌>>=◌ : {A B : Type 0} → Query A → (A → Query B) → Query B
unfolding return raise
◌>>=◌ q f w = and_then (q w) f

abbrev pub ◌>>◌ : {B : Type 0} → Query (Unit {0}) → Query B → Query B
q >> r = q >>= λ _. r

abbrev pub handle : {A : Type 0} → Result A × World → (Error → Query A) → Result A × World
handle (ok a, w) f = (ok a, w)
handle (err e, w) f = f e w

-- `if err != nil { … }`: the handler of a failed call.
unfoldable pub on_error : {A : Type 0} → Query A → (Error → Query A) → Query A
on_error q f w = handle (q w) f

-- A call whose caller looks at the error and goes on.
unfoldable pub attempt : {A : Type 0} → Query A → Query (Result A)
attempt q w = let (r, w') = q w in (ok r, w')

-- The clock moves on, and the script with it.
abbrev pub advance : World → List RoundTrip → RoundTrip × World
advance w [] = (quiet, w)
advance w (t ∷ ts) = (t, record w { now = w.now +ℤ pos t.elapsed; script = ts })

unfoldable pub round_trip : World → RoundTrip × World
round_trip w = advance w w.script

-- Of a transaction that starts in `w`: the time of its BEGIN, and what the server draws for its first
-- statement, the id and the rows that others have locked.
abbrev pub began : World → ℤ
began w = (round_trip w).1.now

abbrev pub drawn : World → ℕ
drawn w = (round_trip (round_trip w).1).0.fresh_id

abbrev pub skipped : World → List ℕ
skipped w = (round_trip (round_trip w).1).0.locked

-- A statement at its time `now()`, beside what the server draws for it. One that fails changes
-- nothing.
abbrev pub Statement : Type 0 → Type 0
Statement A = ℤ → RoundTrip → Database → Result (A × Database)

abbrev pub applied : {A : Type 0} → Reply → Result (A × Database) → World → Result A × World
applied delivered (ok (a, d)) w = (ok a, record w { db = d })
applied delivered (err e) w = (err e, w)
applied lost (ok (a, d)) w = (err unavailable, record w { db = d })
applied lost (err e) w = (err unavailable, w)
applied refused r w = (err unavailable, w)

-- Inside a transaction `now()` is the time at which it began.
unfoldable pub exec_at : {A : Type 0} → ℤ → Statement A → Query A
unfolding round_trip
exec_at now stmt w = let (t, w') = round_trip w in applied t.reply (stmt now t w'.db) w'

-- pool.Exec and pool.QueryRow with RETURNING: one statement, committed at once.
unfoldable pub exec : {A : Type 0} → Statement A → Query A
unfolding round_trip
exec stmt w = let (t, w') = round_trip w in applied t.reply (stmt w'.now t w'.db) w'

-- The primary pool or an open transaction on it, or the pool that readPool() picks.
pub data Querier : Type 0 where
  primary reader : Querier

-- readPool
unfoldable pub read_pool : World → Database
read_pool w = elim w.replica [ some d ↦ d | none ↦ w.db ]

unfoldable pub source : Querier → World → Database
unfolding read_pool
source primary w = w.db
source reader w = read_pool w

abbrev pub answered : {A : Type 0} → Reply → Result A → World → Result A × World
answered delivered r w = (r, w)
answered _ r w = (err unavailable, w)

unfoldable pub select : {A : Type 0} → Querier → (Database → Result A) → Query A
unfolding round_trip source
select q read w = let (t, w') = round_trip w in answered t.reply (read (source q w')) w'

-- How the body of a transaction ends: by tx.Commit, or by the deferred tx.Rollback alone.
pub data Ending (A : Type 0) : Type 0 where
  commit : A → Ending A
  abandon : A → Ending A

abbrev pub committed : {A : Type 0} → Reply → Database → A → World → Result A × World
committed delivered old a w = (ok a, w)
committed lost old a w = (err unavailable, w)
committed refused old a w = (err unavailable, record w { db = old })

abbrev pub ended : {A : Type 0} → Database → Result (Ending A) × World → Result A × World
ended old (ok (commit a), w) = let (t, w') = round_trip w in committed t.reply old a w'
ended old (ok (abandon a), w) = (ok a, record w { db = old })
ended old (err e, w) = (err e, record w { db = old })

abbrev pub begun : {A : Type 0} → Reply → (ℤ → Query (Ending A)) → World → Result A × World
begun delivered body w = ended w.db (body w.now w)
begun _ body w = (err unavailable, w)

-- pool.Begin, the statements, and tx.Commit.
unfoldable pub transaction : {A : Type 0} → (ℤ → Query (Ending A)) → Query A
unfolding round_trip
transaction body w = let (t, w') = round_trip w in begun t.reply body w'

-- time.Now(): the processes and the server share a clock.
unfoldable pub time_now : Query ℤ
time_now w = (ok w.now, w)
