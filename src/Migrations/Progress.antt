-- ===== src/Migrations/Progress.antt =====
-- What RunMigrations leaves, whether it succeeds or not.
use taskflow.Common.{
  String, ◌≡◌, refl, sym, ap, subst, ◌∙◌, Bool, true, false, List, [], ◌∷◌, ◌++◌, Option, none,
  some, is_some,
}
use taskflow.Store.Query.{Reply, delivered, refused, lost}
use taskflow.Migrations.{
  Entry, Directory, Schema, Session, next_reply, trip, answered, and_then, is_applied, versions_of,
  committed, recorded, executed, begun, with_body, unless_applied, migrate, migrate_all,
  from_entries, unlocked, after_table, after_lock, after_acquire, run_migrations,
}

module _ {D : Type 0} (dir : Directory) (apply : String → D → Option D) where
  -- The migrations of `vs`, up to some point, one after the other, each with its record; those that
  -- were recorded are passed over. `Complete` if none of `vs` is left.
  pub data Migrated : List String → Schema D → Schema D → Bool → Type 0 where
    all_done : {s : Schema D} → Migrated [] s s true
    stops : {vs : List String} {s : Schema D} → Migrated vs s s false
    passes_over :
        {v : String} {vs : List String} {s t : Schema D} {b : Bool}
        → is_applied v s.versions ≡ true
        → Migrated vs s t b
        → Migrated (v ∷ vs) s t b
    applies :
        {v : String} {vs : List String} {s t : Schema D} {b : Bool} (body : String) (d : D)
        → is_applied v s.versions ≡ false
        → dir.read v ≡ some body
        → apply body s.tables ≡ some d
        → Migrated vs (record { versions = s.versions ++ v ∷ []; tables = d }) t b
        → Migrated (v ∷ vs) s t b

  -- What one turn of the loop means for the turns that follow.
  abbrev Turn : String → Schema D → Option (Unit {0}) × Session D → Type 0
  Turn v s (none, st) = (vs : List String) → Migrated (v ∷ vs) s st.schema false
  Turn v s (some tt, st) =
      (vs : List String) (t : Schema D) (b : Bool)
      → Migrated vs st.schema t b
      → Migrated (v ∷ vs) s t b

  next_reply_schema : (st : Session D) (rs : List Reply) → (next_reply st rs).1.schema ≡ st.schema
  next_reply_schema st [] = refl
  next_reply_schema st (r ∷ rs) = refl

  trip_schema : (st : Session D) → (trip st).1.schema ≡ st.schema
  unfolding trip
  trip_schema st = next_reply_schema st st.script

  stop-Turn : (v : String) (s : Schema D) (st : Session D) → st.schema ≡ s → Turn v s (none, st)
  stop-Turn v s st e vs = subst (λ t. Migrated (v ∷ vs) s t false) (sym e) stops

  module _ (v : String) (s : Schema D) (fresh : is_applied v s.versions ≡ false) (body : String)
      (file : dir.read v ≡ some body) where
    module _ (d : D) (applied : apply body s.tables ≡ some d) where
      committed-Turn :
          (r : Reply) (new : Schema D) (st : Session D)
          → new ≡ record { versions = s.versions ++ v ∷ []; tables = d }
          → st.schema ≡ s
          → Turn v s (committed dir apply r new st)
      committed-Turn delivered new st n e =
          λ vs t b m. applies body d fresh file applied (subst (λ x. Migrated vs x t b) n m)
      committed-Turn lost new st n e =
          λ vs. applies body d fresh file applied (subst (λ x. Migrated vs x new false) n stops)
      committed-Turn refused new st n e = stop-Turn v s st e

      recorded-Turn :
          (r : Reply) (st : Session D) → st.schema ≡ s → Turn v s (recorded dir apply r v d st)
      recorded-Turn delivered st e =
          committed-Turn _ _ _ (ap (λ x. record { versions = x.versions ++ v ∷ []; tables = d }) e)
            (trip_schema st ∙ e)
      recorded-Turn lost st e = stop-Turn v s st e
      recorded-Turn refused st e = stop-Turn v s st e

    executed-Turn :
        (r : Reply) (o : Option D) (st : Session D)
        → apply body s.tables ≡ o
        → st.schema ≡ s
        → Turn v s (executed dir apply r o v st)
    executed-Turn delivered (some d) st a e = recorded-Turn d a _ _ (trip_schema st ∙ e)
    executed-Turn delivered none st a e = stop-Turn v s st e
    executed-Turn lost o st a e = stop-Turn v s st e
    executed-Turn refused o st a e = stop-Turn v s st e

    begun-Turn :
        (r : Reply) (st : Session D) → st.schema ≡ s → Turn v s (begun dir apply r body v st)
    begun-Turn delivered st e =
        executed-Turn _ _ _ (ap (λ x. apply body x.tables) (sym e)) (trip_schema st ∙ e)
    begun-Turn lost st e = stop-Turn v s st e
    begun-Turn refused st e = stop-Turn v s st e

  with_body-Turn :
      (v : String) (s : Schema D) (o : Option String) (st : Session D)
      → is_applied v s.versions ≡ false
      → dir.read v ≡ o
      → st.schema ≡ s
      → Turn v s (with_body dir apply o v st)
  with_body-Turn v s none st fresh file e = stop-Turn v s st e
  with_body-Turn v s (some body) st fresh file e =
      begun-Turn v s fresh body file _ _ (trip_schema st ∙ e)

  unless_applied-Turn :
      (v : String) (s : Schema D) (b : Bool) (st : Session D)
      → is_applied v s.versions ≡ b
      → st.schema ≡ s
      → Turn v s (unless_applied dir apply b v st)
  unless_applied-Turn v s true st h e =
      λ vs t b m. passes_over h (subst (λ x. Migrated vs x t b) e m)
  unless_applied-Turn v s false st h e = with_body-Turn v s (dir.read v) st h refl e

  checked-Turn :
      (v : String) (s : Schema D) (r : Reply) (st : Session D)
      → st.schema ≡ s
      → Turn v s (
          and_then (answered (is_applied v s.versions) (r, st)) (λ b. unless_applied dir apply b v))
  checked-Turn v s delivered st e = unless_applied-Turn v s _ st refl e
  checked-Turn v s lost st e = stop-Turn v s st e
  checked-Turn v s refused st e = stop-Turn v s st e

  migrate-Turn : (v : String) (st : Session D) → Turn v st.schema (migrate dir apply v st)
  unfolding migrate
  migrate-Turn v st = checked-Turn v st.schema (trip st).0 (trip st).1 (trip_schema st)

  -- An answer, and how far the migrations have come.
  abbrev pub Reached : List String → Schema D → Option (Unit {0}) × Session D → Type 0
  Reached vs s (answer, st) = Migrated vs s st.schema (is_some answer)

  turned :
      (v : String) (vs : List String) (s : Schema D) (x : Option (Unit {0}) × Session D)
      → Turn v s x
      → ((st : Session D) → Reached vs st.schema (migrate_all dir apply vs st))
      → Reached (v ∷ vs) s (and_then x (λ _. migrate_all dir apply vs))
  turned v vs s (none, st) t h = t vs
  turned v vs s (some tt, st) t h = t vs _ _ (h st)

  migrate_all-Reached :
      (vs : List String) (st : Session D) → Reached vs st.schema (migrate_all dir apply vs st)
  unfolding migrate_all
  migrate_all-Reached [] st = all_done
  migrate_all-Reached (v ∷ vs) st =
      turned v vs st.schema (migrate dir apply v st) (migrate-Turn v st) (migrate_all-Reached vs)

  module _ (entries : List Entry) (listing : dir.entries ≡ some entries) (s : Schema D) where
    abbrev Ends : Option (Unit {0}) × Session D → Type 0
    Ends x = Reached (versions_of entries) s x

    stopped-Ends : (st : Session D) → st.schema ≡ s → Ends (none, st)
    stopped-Ends st e = subst (λ t. Migrated (versions_of entries) s t false) (sym e) stops

    unlocked-Ends : (x : Option (Unit {0}) × Session D) → Ends x → Ends (unlocked dir apply x)
    unlocked-Ends (answer, st) h =
        subst (λ t. Migrated (versions_of entries) s t (is_some answer)) (sym (trip_schema st)) h

    after_table-Ends :
        (r : Reply) (st : Session D) → st.schema ≡ s → Ends (after_table dir apply r st)
    after_table-Ends delivered st e =
        subst (λ o. Ends (from_entries dir apply o st)) (sym listing)
          (subst
            (λ t. Reached (versions_of entries) t (migrate_all dir apply (versions_of entries) st))
            e (migrate_all-Reached (versions_of entries) st))
    after_table-Ends lost st e = stopped-Ends st e
    after_table-Ends refused st e = stopped-Ends st e

    after_lock-Ends :
        (r : Reply) (st : Session D) → st.schema ≡ s → Ends (after_lock dir apply r st)
    after_lock-Ends delivered st e = unlocked-Ends _ (after_table-Ends _ _ (trip_schema st ∙ e))
    after_lock-Ends lost st e = stopped-Ends st e
    after_lock-Ends refused st e = stopped-Ends st e

    after_acquire-Ends :
        (r : Reply) (st : Session D) → st.schema ≡ s → Ends (after_acquire dir apply r st)
    after_acquire-Ends delivered st e = after_lock-Ends _ _ (trip_schema st ∙ e)
    after_acquire-Ends lost st e = stopped-Ends st e
    after_acquire-Ends refused st e = stopped-Ends st e

  -- Where the directory can be read, RunMigrations has applied the .sql files in the order of their
  -- names up to some point, each in one step with its record and none that was recorded before; if
  -- it returns no error, up to the end.
  pub run_migrations-Reached :
      (entries : List Entry) (st : Session D)
      → dir.entries ≡ some entries
      → Reached (versions_of entries) st.schema (run_migrations dir apply st)
  unfolding run_migrations
  run_migrations-Reached entries st listing =
      after_acquire-Ends entries listing st.schema _ _ (trip_schema st)
