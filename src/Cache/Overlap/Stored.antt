-- ===== src/Cache/Overlap/Stored.antt =====
-- PostgresStore's GetJob is a read as Cache.Overlap.Recent needs it.
use taskflow.Common.{ℕ, String, Bool, ◌≡◌, refl, sym, ap, ◌∙◌, List}
use taskflow.Model.{Job}
use taskflow.Store.Tables.{JobRow, Database}
use taskflow.Store.Query.{
  Error, Result, ok, err, Reply, delivered, refused, lost, World, Query, answered, round_trip,
  select, source, reader, read_pool, and_then, handle, return, raise, on_error, ◌>>=◌,
}
use taskflow.Store.Post.{round_trip_db, round_trip_replica}
use taskflow.Store.Jobs.{
  one_row, job_is, job_of, dependencies_of, not_found_of, get_job, fetch_job, scan_job_row,
  fetch_dependencies,
}
use taskflow.Store.Service.{postgres}
use taskflow.Common.{rows_where}
use taskflow.Cache.Overlap.Recent.{ReadsJobs}

-- The job, as the pool that readPool() picks has it.
abbrev of_row : Database → Result JobRow → Result Job
of_row d (ok r) = ok (job_of r (dependencies_of r.id d))
of_row d (err x) = err x

abbrev pub stored_job : World → ℕ → Result Job
unfolding read_pool
stored_job w id = of_row (read_pool w) (one_row (rows_where (job_is id) (read_pool w).jobs))

-- What two worlds show their readers.
abbrev Shown : World → World → Type 0
Shown w w' = (w'.db ≡ w.db) × (w'.replica ≡ w.replica)

Shown-read_pool : (w w' : World) → Shown w w' → read_pool w' ≡ read_pool w
unfolding read_pool
Shown-read_pool w w' h = rw (h.0, h.1) refl

-- What a read of the pool gives.
abbrev Read : {A : Type 0} → World → Result A → Result A × World → Type 0
Read {A} w x (a, w') = Shown w w' × ((y : A) → a ≡ ok y → x ≡ ok y)

answered-Read :
    {A : Type 0} (w : World) (y : Reply) (x : Result A) (w' : World)
    → Shown w w'
    → Read w x (answered y x w')
answered-Read w delivered x w' h = (h, λ y e. e)
answered-Read w refused x w' h = (h, λ y e. cc)
answered-Read w lost x w' h = (h, λ y e. cc)

select-Read :
    {A : Type 0} (read : Database → Result A) (w : World)
    → Read w (read (read_pool w)) (select reader read w)
unfolding select source
select-Read read w =
    let h : Shown w (round_trip w).1 = (round_trip_db w, round_trip_replica w) in
    let (t, w') = round_trip w in
    let (s, f) = answered-Read w t.reply (read (read_pool w')) w' h in
    (s, λ y e. ap read (sym (Shown-read_pool w w' h)) ∙ f y e)

-- The reads that come after see what this one saw.
Read-bind :
    {A B : Type 0} (w : World) (x : Result A) (out : Result A × World) (f : A → Query B)
    (z : Result B)
    → Read w x out
    → ((a : A) (w' : World) → Shown w w' → x ≡ ok a → Read w z (f a w'))
    → Read w z (and_then out f)
Read-bind w x (ok a, w') f z (h, e) g = g a w' h (e a refl)
Read-bind w x (err e, w') f z (h, k) g = (h, λ y q. cc)

Shown-trans : (w w' w'' : World) → Shown w w' → Shown w' w'' → Shown w w''
Shown-trans w w' w'' h k = (k.0 ∙ h.0, k.1 ∙ h.1)

Read-handle :
    {A : Type 0} (w : World) (x : Result A) (out : Result A × World) (g : Error → Error)
    → Read w x out
    → Read w x (handle out (λ e. raise (g e)))
unfolding raise
Read-handle w x (ok a, w') g h = h
Read-handle w x (err e, w') g (h, k) = (h, λ y q. cc)

dependencies-Read :
    (w : World) (id : ℕ) (r : JobRow) (w' : World)
    → Shown w w'
    → one_row (rows_where (job_is id) (read_pool w).jobs) ≡ ok r
    → Read w
        (stored_job w id)
        (and_then (fetch_dependencies reader r.id w') (λ deps. return (job_of r deps)))
unfolding fetch_dependencies return read_pool
dependencies-Read w id r w' h e =
    let (s, f) = select-Read (λ db. ok (dependencies_of r.id db)) w' in
    Read-bind w (ok (dependencies_of r.id (read_pool w))) (fetch_dependencies reader r.id w')
      (λ deps. return (job_of r deps)) (stored_job w id)
      (
        Shown-trans w w' (fetch_dependencies reader r.id w').1 h s,
        λ y q.
            ap {A = Database} (λ d. ok (dependencies_of r.id d)) (sym (Shown-read_pool w w' h))
            ∙ f y q,
      )
      (λ deps w'' k q. (k, λ y p. ap (of_row (read_pool w)) e ∙ ap (λ x. of_deps r x) q ∙ p))
  where
    of_deps : JobRow → Result (List ℕ) → Result Job
    of_deps r (ok deps) = ok (job_of r deps)
    of_deps r (err x) = err x

get_job-Read : (id : ℕ) (w : World) → Read w (stored_job w id) (get_job id w)
unfolding get_job fetch_job scan_job_row on_error ◌>>=◌
get_job-Read id w = Read-handle w (stored_job w id) (fetch_job reader id w) not_found_of (
    Read-bind w (one_row (rows_where (job_is id) (read_pool w).jobs))
      (select reader (λ db. one_row (rows_where (job_is id) db.jobs)) w) _ (stored_job w id)
      (select-Read (λ db. one_row (rows_where (job_is id) db.jobs)) w)
      (λ r w' h e. dependencies-Read w id r w' h e))

Shown-stored_job : (w w' : World) (id : ℕ) → Shown w w' → stored_job w' id ≡ stored_job w id
unfolding read_pool
Shown-stored_job w w' id h =
    ap {A = Database} (λ d. of_row d (one_row (rows_where (job_is id) d.jobs)))
      (Shown-read_pool w w' h)

-- Whatever the network does, and with a read replica too.
pub postgres-ReadsJobs :
    (collates_before : String → String → Bool) → ReadsJobs (postgres collates_before) stored_job
postgres-ReadsJobs collates_before = record {
  answers = λ id w j e. (get_job-Read id w).1 j e;
  keeps = λ id k w. Shown-stored_job w (get_job id w).1 k (get_job-Read id w).0;
}
