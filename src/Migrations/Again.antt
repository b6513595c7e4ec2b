-- ===== src/Migrations/Again.antt =====
-- Running the migrations again.
use taskflow.Common.{
  String, str_eq, str_eq_iff, ◌≡◌, refl, ap, ◌∙◌, Bool, true, List, [], ◌∷◌, ◌++◌, Option, some,
  is_some, arith, All, exists_where, exists_where-append,
}
use taskflow.Migrations.{
  Entry, Directory, Schema, Session, trip, is_applied, versions_of, migrate, migrate_all,
  run_migrations, and_then, unless_applied, unlocked, from_entries,
}
use taskflow.Migrations.Progress.{
  Migrated, all_done, stops, passes_over, applies, run_migrations-Reached,
}

-- Every reply arrives.
abbrev pub undisturbed : {D : Type 0} → Schema D → Session D
undisturbed s = record { schema = s; script = [] }

abbrev IsApplied : {D : Type 0} → Schema D → String → Type 0
IsApplied s v = is_applied v s.versions ≡ true

appended :
    (v w : String) (vs : List String) → is_applied v vs ≡ true → is_applied v (vs ++ w ∷ []) ≡ true
appended v w vs h = ground (arith, exists_where-append (λ x. str_eq x v) vs (w ∷ []), h)

last_applied : (v : String) (vs : List String) → is_applied v (vs ++ v ∷ []) ≡ true
unfolding exists_where
last_applied v vs =
    ground (arith, exists_where-append (λ x. str_eq x v) vs (v ∷ []), str_eq_iff v v)

module _ {D : Type 0} (dir : Directory) (apply : String → D → Option D) where
  Migrated-IsApplied :
      {vs : List String} {s t : Schema D} {b : Bool} (v : String)
      → Migrated dir apply vs s t b
      → IsApplied s v
      → IsApplied t v
  Migrated-IsApplied v all_done h = h
  Migrated-IsApplied v stops h = h
  Migrated-IsApplied v (passes_over k m) h = Migrated-IsApplied v m h
  Migrated-IsApplied v (applies {v = w} {s = s} body d k f a m) h =
      Migrated-IsApplied v m (appended v w s.versions h)

  Migrated-All :
      {vs : List String} {s t : Schema D} {b : Bool}
      → Migrated dir apply vs s t b
      → b ≡ true
      → All (IsApplied t) vs
  Migrated-All all_done e = tt
  Migrated-All stops e = absurd (cc e)
  Migrated-All (passes_over {v = v} k m) e = (Migrated-IsApplied v m k, Migrated-All m e)
  Migrated-All (applies {v = v} {s = s} body d k f a m) e =
      (Migrated-IsApplied v m (last_applied v s.versions), Migrated-All m e)

  migrate_all-again :
      (vs : List String) (s : Schema D)
      → All (IsApplied s) vs
      → migrate_all dir apply vs (undisturbed s) ≡ (some tt, undisturbed s)
  unfolding migrate_all migrate trip
  migrate_all-again [] s h = refl
  migrate_all-again (v ∷ vs) s (e, h) =
      ap
        (λ b.
          and_then (unless_applied dir apply b v (undisturbed s)) (λ _. migrate_all dir apply vs))
        e
      ∙ migrate_all-again vs s h

  again_from :
      (entries : List Entry) (s : Schema D)
      → dir.entries ≡ some entries
      → All (IsApplied s) (versions_of entries)
      → run_migrations dir apply (undisturbed s) ≡ (some tt, undisturbed s)
  unfolding run_migrations trip
  again_from entries s listing h =
      ap (λ o. unlocked dir apply (from_entries dir apply o (undisturbed s))) listing
      ∙ ap (unlocked dir apply) (migrate_all-again (versions_of entries) s h)

  -- Once RunMigrations has returned no error, whatever the network did then, running it again on
  -- the same files and what it left, with no reply lost, changes nothing and returns no error.
  pub run_migrations-again :
      (entries : List Entry) (st : Session D)
      → dir.entries ≡ some entries
      → (run_migrations dir apply st).0 ≡ some tt
      → run_migrations dir apply (undisturbed (run_migrations dir apply st).1.schema)
        ≡ (some tt, undisturbed (run_migrations dir apply st).1.schema)
  run_migrations-again entries st listing e =
      again_from entries _ listing
        (Migrated-All (run_migrations-Reached dir apply entries st listing) (ap is_some e))
