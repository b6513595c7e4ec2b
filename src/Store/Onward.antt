-- ===== src/Store/Onward.antt =====
-- What every query does to the world beside the tables: it takes entries of the script from the
-- front, and time passes.
pub mod Calls
use taskflow.Common.{
  ℕ, ℤ, leb_ℤ, String, ◌≡◌, Bool, true, false, refl, Option, none, some, if◌then◌else◌,
}
use taskflow.Model.{JobRun, Job, Fields}
use taskflow.Store.Tables.{Database}
use taskflow.Store.Query.{
  Error, Result, ok, err, Reply, delivered, refused, lost, RoundTrip, World, Query, return, raise,
  ◌>>=◌, on_error, attempt, and_then, handle, round_trip, applied, answered, Statement, exec_at,
  exec, Querier, primary, source, select, Ending, commit, abandon, committed, ended, begun,
  transaction, no_rows,
}
use taskflow.Store.Reliably.{Reliable, round_trip-Delivery}
use taskflow.Store.Jobs.{affected, or_not_found, fetch_job, scan_job_row, fetch_dependencies}
use taskflow.Store.Runs.{
  fetch_run, claim, lease_found, lease_body, lease_next_run, mark_running, complete_run, fail_run,
  mark_dead_body, mark_dead,
}
use taskflow.Store.Lease.Progress.{Unlocked, round_trip-Unlocked, round_trip_later}

-- `w` can become `w'`, whatever becomes of the tables.
pub record After (w w' : World) : Type 0 where
  pub reliable : Reliable w → Reliable w'
  pub unlocked : (id : ℕ) → Unlocked id w → Unlocked id w'
  pub later : (s : ℤ) → leb_ℤ s w.now ≡ true → leb_ℤ s w'.now ≡ true

After-refl : (w : World) → After w w
After-refl w = record { reliable = λ h. h; unlocked = λ id h. h; later = λ s h. h }

pub After-trans : {w w' w'' : World} → After w w' → After w' w'' → After w w''
After-trans a b = record {
  reliable = λ h. b.reliable (a.reliable h);
  unlocked = λ id h. b.unlocked id (a.unlocked id h);
  later = λ s h. b.later s (a.later s h);
}

After-round_trip : (w : World) → After w (round_trip w).1
After-round_trip w = record {
  reliable = λ h. (round_trip-Delivery w h).1;
  unlocked = λ id h. (round_trip-Unlocked id w h).1;
  later = λ s h. round_trip_later s w h;
}

-- The tables may change too.
After-stored : {w w' : World} (d : Database) → After w w' → After w (record w' { db = d })
After-stored d a = record {
  reliable = λ h. a.reliable h;
  unlocked = λ id h. a.unlocked id h;
  later = λ s h. a.later s h;
}

pub record MovesOn {A : Type 0} (q : Query A) : Type 0 where
  pub at : (w : World) → After w (q w).1

module _ {A : Type 0} where
  pub MovesOn-return : (a : A) → MovesOn (return a)
  unfolding return
  MovesOn-return a = record { at = λ w. After-refl w }

  pub MovesOn-raise : (e : Error) → MovesOn (raise {A = A} e)
  unfolding raise
  MovesOn-raise e = record { at = λ w. After-refl w }

  After-applied :
      (y : Reply) (r : Result (A × Database)) (w w' : World)
      → After w w'
      → After w (applied y r w').1
  After-applied delivered (ok (a, d)) w w' h = After-stored d h
  After-applied delivered (err e) w w' h = h
  After-applied lost (ok (a, d)) w w' h = After-stored d h
  After-applied lost (err e) w w' h = h
  After-applied refused r w w' h = h

  After-answered :
      (y : Reply) (r : Result A) (w w' : World) → After w w' → After w (answered y r w').1
  After-answered delivered r w w' h = h
  After-answered refused r w w' h = h
  After-answered lost r w w' h = h

  pub MovesOn-exec : (stmt : Statement A) → MovesOn (exec stmt)
  unfolding exec
  MovesOn-exec stmt = record {
    at = λ w.
        let (t, w') = round_trip w in
        After-applied t.reply (stmt w'.now t w'.db) w w' (After-round_trip w);
  }

  pub MovesOn-exec_at : (now : ℤ) (stmt : Statement A) → MovesOn (exec_at now stmt)
  unfolding exec_at
  MovesOn-exec_at now stmt = record {
    at = λ w.
        let (t, w') = round_trip w in
        After-applied t.reply (stmt now t w'.db) w w' (After-round_trip w);
  }

  pub MovesOn-select : (q : Querier) (read : Database → Result A) → MovesOn (select q read)
  unfolding select
  MovesOn-select q read = record {
    at = λ w.
        let (t, w') = round_trip w in
        After-answered t.reply (read (source q w')) w w' (After-round_trip w);
  }

  pub MovesOn-attempt : (q : Query A) → MovesOn q → MovesOn (attempt q)
  unfolding attempt
  MovesOn-attempt q h = record { at = λ w. h.at w }

  After-handle :
      (f : Error → Query A) (w : World) (r : Result A × World)
      → ((e : Error) → MovesOn (f e))
      → After w r.1
      → After w (handle r f).1
  After-handle f w (ok a, w') h a' = a'
  After-handle f w (err e, w') h a' = After-trans a' ((h e).at w')

  pub MovesOn-on_error :
      (q : Query A) (f : Error → Query A)
      → MovesOn q
      → ((e : Error) → MovesOn (f e))
      → MovesOn (on_error q f)
  unfolding on_error
  MovesOn-on_error q f h g = record { at = λ w. After-handle f w (q w) g (h.at w) }

  pub MovesOn-if : (b : Bool) (q r : Query A) → MovesOn q → MovesOn r → MovesOn (if b then q else r)
  MovesOn-if true q r h k = h
  MovesOn-if false q r h k = k

  After-committed :
      (y : Reply) (old : Database) (a : A) (w w' : World)
      → After w w'
      → After w (committed y old a w').1
  After-committed delivered old a w w' h = h
  After-committed lost old a w w' h = h
  After-committed refused old a w w' h = After-stored old h

  After-ended :
      (old : Database) (w : World) (r : Result (Ending A) × World)
      → After w r.1
      → After w (ended old r).1
  After-ended old w (ok (commit a), w') h =
      After-committed _ old a w _ (After-trans h (After-round_trip w'))
  After-ended old w (ok (abandon a), w') h = After-stored old h
  After-ended old w (err e, w') h = After-stored old h

  After-begun :
      (y : Reply) (body : ℤ → Query (Ending A)) (w w' : World)
      → ((now : ℤ) → MovesOn (body now))
      → After w w'
      → After w (begun y body w').1
  After-begun delivered body w w' h a =
      After-ended w'.db w (body w'.now w') (After-trans a ((h w'.now).at w'))
  After-begun refused body w w' h a = a
  After-begun lost body w w' h a = a

  pub MovesOn-transaction :
      (body : ℤ → Query (Ending A)) → ((now : ℤ) → MovesOn (body now)) → MovesOn (transaction body)
  unfolding transaction
  MovesOn-transaction body h = record {
    at = λ w. let (t, w') = round_trip w in After-begun t.reply body w w' h (After-round_trip w);
  }

module _ {A B : Type 0} where
  After-and_then :
      (f : A → Query B) (w : World) (r : Result A × World)
      → ((a : A) → MovesOn (f a))
      → After w r.1
      → After w (and_then r f).1
  After-and_then f w (ok a, w') h a' = After-trans a' ((h a).at w')
  After-and_then f w (err e, w') h a' = a'

  pub MovesOn-bind :
      (q : Query A) (f : A → Query B) → MovesOn q → ((a : A) → MovesOn (f a)) → MovesOn (q >>= f)
  unfolding ◌>>=◌
  MovesOn-bind q f h g = record { at = λ w. After-and_then f w (q w) g (h.at w) }

pub ruleset onward_rules = (
  MovesOn-return, MovesOn-raise, MovesOn-exec, MovesOn-exec_at, MovesOn-select, MovesOn-attempt,
  MovesOn-on_error, MovesOn-if, MovesOn-bind,
)
