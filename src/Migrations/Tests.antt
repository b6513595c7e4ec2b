-- ===== src/Migrations/Tests.antt =====
-- Two migrations in a directory, of which the SQL is a line each.
use taskflow.Common.{String, ◌≡◌, refl, false, List, [], ◌∷◌, Option, some}
use taskflow.Migrations.{
  Entry, Directory, Session, versions_of, trip, migrate, migrate_all, run_migrations, has_suffix,
}
use taskflow.Common.{rows_where, order_by, insert_by, exists_where}
use taskflow.Migrations.Progress.{Reached, run_migrations-Reached}
use taskflow.Migrations.Again.{undisturbed, run_migrations-again}

abbrev files : List Entry
files =
    record { name = "0002_b.sql"; is_dir = false }
    ∷ record { name = "0001_a.sql"; is_dir = false }
    ∷ record { name = "README.md"; is_dir = false }
    ∷ []

abbrev dir : Directory
dir = record { entries = some files; read = λ name. some name }

-- The database is what has been executed.
abbrev apply : String → List String → Option (List String)
apply body d = some (body ∷ d)

abbrev fresh : Session (List String)
fresh = record { schema = record { versions = []; tables = [] }; script = [] }

run_migrations-Reached_example :
    Reached dir apply (versions_of files) fresh.schema (run_migrations dir apply fresh)
run_migrations-Reached_example = run_migrations-Reached dir apply files fresh refl

succeeds : (run_migrations dir apply fresh).0 ≡ some tt
unfolding run_migrations migrate_all migrate trip versions_of has_suffix rows_where order_by
    insert_by exists_where
succeeds = refl

in_order : (run_migrations dir apply fresh).1.schema.tables ≡ "0002_b.sql" ∷ "0001_a.sql" ∷ []
unfolding run_migrations migrate_all migrate trip versions_of has_suffix rows_where order_by
    insert_by exists_where
in_order = refl

run_migrations-again_example :
    run_migrations dir apply (undisturbed (run_migrations dir apply fresh).1.schema)
    ≡ (some tt, undisturbed (run_migrations dir apply fresh).1.schema)
run_migrations-again_example = run_migrations-again dir apply files fresh refl succeeds
