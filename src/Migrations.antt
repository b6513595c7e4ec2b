-- ===== src/Migrations.antt =====
-- internal/store/migrate.go: RunMigrations.
--
-- What a migration's SQL does is a parameter: `apply` takes its text and the database to the new
-- database, or fails. The files are those that os.ReadDir and os.ReadFile give.
pub mod Progress
pub mod Again
mod Tests
use text.Mathlib.Text.{is_lt}
use Prim.Native.String
use taskflow.Common.{
  ℕ, String, str_eq, Bool, true, false, not, ◌&&◌, if◌then◌else◌, List, [], ◌∷◌, ◌++◌, map, Option,
  none, some, rows_where, exists_where, order_by,
}
use taskflow.Store.Query.{Reply, delivered, refused, lost}

pub record Entry : Type 0 where
  pub name : String
  pub is_dir : Bool

-- `none`: the directory, or the file, cannot be read.
pub record Directory : Type 0 where
  pub entries : Option (List Entry)
  pub read : String → Option String

-- schema_migrations, and the rest of the database.
pub record Schema (D : Type 0) : Type 0 where
  pub versions : List String
  pub tables : D

-- The database, and what becomes of the round trips to come: every reply arrives once the script is
-- empty.
pub record Session (D : Type 0) : Type 0 where
  pub schema : Schema D
  pub script : List Reply

-- `none` is an error.
abbrev pub Step : Type 0 → Type 0 → Type 0
Step D A = Session D → Option A × Session D

abbrev pub next_reply : {D : Type 0} → Session D → List Reply → Reply × Session D
next_reply st [] = (delivered, st)
next_reply st (r ∷ rs) = (r, record st { script = rs })

unfoldable pub trip : {D : Type 0} → Session D → Reply × Session D
trip st = next_reply st st.script

abbrev pub answered : {D A : Type 0} → A → Reply × Session D → Option A × Session D
answered a (delivered, st) = (some a, st)
answered a (_, st) = (none, st)

abbrev pub and_then :
    {D A B : Type 0} → Option A × Session D → (A → Step D B) → Option B × Session D
and_then (none, st) f = (none, st)
and_then (some a, st) f = f a st

-- strings.HasSuffix(name, ".sql")
unfoldable pub has_suffix : String → String → Bool
has_suffix String.[] suffix = str_eq String.[] suffix
has_suffix (String.◌∷◌ c s) suffix =
    let rest = has_suffix s suffix in if str_eq (String.◌∷◌ c s) suffix then true else rest

-- The order of sort.Strings.
abbrev pub comes_before : String → String → Bool
comes_before a b = is_lt (String.compare a b)

abbrev pub is_migration : Entry → Bool
is_migration e = not e.is_dir && has_suffix e.name ".sql"

unfoldable pub versions_of : List Entry → List String
versions_of entries = order_by comes_before (map (λ e. e.name) (rows_where is_migration entries))

abbrev pub is_applied : String → List String → Bool
is_applied version versions = exists_where (λ v. str_eq v version) versions

module _ {D : Type 0} (dir : Directory) (apply : String → D → Option D) where
  -- tx.Commit; `new` is what it commits.
  abbrev pub committed : Reply → Schema D → Step D (Unit {0})
  committed delivered new st = (some tt, record st { schema = new })
  committed lost new st = (none, record st { schema = new })
  committed refused new st = (none, st)

  -- After the INSERT into schema_migrations.
  abbrev pub recorded : Reply → String → D → Step D (Unit {0})
  recorded delivered version d st =
      let (r, st') = trip st in
      committed r (record { versions = st.schema.versions ++ version ∷ []; tables = d }) st'
  recorded _ version d st = (none, st)

  -- After tx.Exec of the migration.
  abbrev pub executed : Reply → Option D → String → Step D (Unit {0})
  executed delivered (some d) version st = let (r, st') = trip st in recorded r version d st'
  executed _ _ version st = (none, st)

  abbrev pub begun : Reply → String → String → Step D (Unit {0})
  begun delivered body version st =
      let (r, st') = trip st in executed r (apply body st.schema.tables) version st'
  begun _ body version st = (none, st)

  abbrev pub with_body : Option String → String → Step D (Unit {0})
  with_body none version st = (none, st)
  with_body (some body) version st = let (r, st') = trip st in begun r body version st'

  -- `if applied { continue }`, and the rest of the loop's body.
  abbrev pub unless_applied : Bool → String → Step D (Unit {0})
  unless_applied true version st = (some tt, st)
  unless_applied false version st = with_body (dir.read version) version st

  unfoldable pub migrate : String → Step D (Unit {0})
  unfolding trip
  migrate version st =
      and_then (answered (is_applied version st.schema.versions) (trip st))
        (λ applied. unless_applied applied version)

  unfoldable pub migrate_all : List String → Step D (Unit {0})
  unfolding migrate
  migrate_all [] st = (some tt, st)
  migrate_all (v ∷ vs) st = and_then (migrate v st) (λ _. migrate_all vs)

  abbrev pub from_entries : Option (List Entry) → Step D (Unit {0})
  from_entries none st = (none, st)
  from_entries (some entries) st = migrate_all (versions_of entries) st

  -- The deferred unlock, whose error is dropped.
  abbrev pub unlocked : Option (Unit {0}) × Session D → Option (Unit {0}) × Session D
  unlocked (answer, st) = (answer, (trip st).1)

  abbrev pub after_table : Reply → Step D (Unit {0})
  after_table delivered st = from_entries dir.entries st
  after_table _ st = (none, st)

  -- CREATE TABLE IF NOT EXISTS schema_migrations.
  abbrev pub after_lock : Reply → Step D (Unit {0})
  after_lock delivered st = let (r, st') = trip st in unlocked (after_table r st')
  after_lock _ st = (none, st)

  abbrev pub after_acquire : Reply → Step D (Unit {0})
  after_acquire delivered st = let (r, st') = trip st in after_lock r st'
  after_acquire _ st = (none, st)

  -- Nobody else migrates while the advisory lock is held.
  unfoldable pub run_migrations : Step D (Unit {0})
  unfolding migrate_all versions_of
  run_migrations st = let (r, st') = trip st in after_acquire r st'
