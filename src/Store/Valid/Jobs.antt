-- ===== src/Store/Valid/Jobs.antt =====
-- Inserting and updating jobs and dependencies keeps the tables valid.
use mathlib.Core.List.{append-nil}
use mathlib.Core.Path.{ap₂}
use taskflow.Common.{
  ℕ, ℤ, String, ◌≡◌, refl, sym, ap, inl, inr, ◌≢◌, map, Bool, true, false, ◌&&◌, List, [], ◌∷◌,
  ◌++◌, Option, none, some, arith, str_eq_iff, In, Distinct, exists_where, update_where, Bool-cases,
  In-cons, All-append, All-mono, map-update_where, map-append_one, mem-append_left, Distinct-append,
  mem_of_exists_where, not-mem_of_exists_where, not-In-nil,
}
use taskflow.Model.{NewJobInput, JobStatus}
use taskflow.Store.Tables.{JobRow, Dependency, Database}
use taskflow.Store.Query.{ok, RoundTrip}
use taskflow.Store.Jobs.{
  job_is, same_key, text_is, new_job_row, insert_job, insert_dependency, same_dependency,
  set_job_status, with_status,
}
use taskflow.Store.Valid.{
  IsRecorded, IsValid, Linked, job_ids, letter_runs, keys_of, add_key, ends_of,
}

keys_of-append :
    (js : List JobRow) (j : JobRow) → keys_of (js ++ j ∷ []) ≡ keys_of js ++ keys_of (j ∷ [])
keys_of-append [] j = refl
keys_of-append (x ∷ js) j = add_key-append x.idempotency_key (keys_of-append js j)
  where
    add_key-append :
        (k : Option String)
        → keys_of (js ++ j ∷ []) ≡ keys_of js ++ keys_of (j ∷ [])
        → add_key k (keys_of (js ++ j ∷ [])) ≡ add_key k (keys_of js) ++ keys_of (j ∷ [])
    add_key-append none e = e
    add_key-append (some k) e = ap (◌∷◌ k) e

not-mem-add_key :
    (k : String) (o : Option String) (ks : List String)
    → text_is o k ≡ false
    → ¬ In k ks
    → ¬ In k (add_key o ks)
not-mem-add_key k none ks e n m = n m
not-mem-add_key k (some t) ks e n m = elim (In-cons m) [
  | inl h ↦ cc (e, (str_eq_iff t k).1 (sym h))
  | inr h ↦ n h
]

not-mem-keys_of :
    (k : String) (js : List JobRow)
    → exists_where (same_key (some k)) js ≡ false
    → ¬ In k (keys_of js)
unfolding exists_where
not-mem-keys_of k [] e = not-In-nil
not-mem-keys_of k (j ∷ js) e =
    not-mem-add_key k j.idempotency_key (keys_of js) (ground arith)
      (not-mem-keys_of k js (ground arith))

Distinct-keys_of :
    (o : Option String) (js : List JobRow)
    → Distinct (keys_of js)
    → exists_where (same_key o) js ≡ false
    → Distinct (keys_of js ++ add_key o [])
Distinct-keys_of none js d e = rw append-nil d
Distinct-keys_of (some k) js d e = Distinct-append (keys_of js) k (not-mem-keys_of k js e) d

keys_of-update_where :
    (p : JobRow → Bool) (f : JobRow → JobRow) (js : List JobRow)
    → ((j : JobRow) → (f j).idempotency_key ≡ j.idempotency_key)
    → keys_of (update_where p f js) ≡ keys_of js
unfolding update_where
keys_of-update_where p f [] h = refl
keys_of-update_where p f (j ∷ js) h = elim (Bool-cases (p j)) [
  | inl e ↦ rw e (ap₂ add_key (h j) (keys_of-update_where p f js h))
  | inr e ↦ rw e (ap (add_key j.idempotency_key) (keys_of-update_where p f js h))
]

pub insert_job_ok :
    (input : NewJobInput) (now : ℤ) (t : RoundTrip) (db : Database) {row : JobRow} {db' : Database}
    → insert_job input now t db ≡ ok (row, db')
    → (exists_where (job_is t.fresh_id) db.jobs ≡ false)
      × (exists_where (same_key input.idempotency_key) db.jobs ≡ false)
      × (row ≡ new_job_row input t.fresh_id now)
      × (db' ≡ record db { jobs = db.jobs ++ new_job_row input t.fresh_id now ∷ [] })
unfolding insert_job
insert_job_ok input now t db e = ground arith

add_job-IsValid :
    (db : Database) (j : JobRow)
    → exists_where (job_is j.id) db.jobs ≡ false
    → exists_where (same_key j.idempotency_key) db.jobs ≡ false
    → IsValid db
    → IsValid (record db { jobs = db.jobs ++ j ∷ [] })
add_job-IsValid db j fresh unused v =
    let ids = map-append_one (λ (x : JobRow). x.id) db.jobs j in
    record {
      runs =
          All-mono (IsRecorded (job_ids db) (letter_runs db)) db.job_runs
            (λ r h. record {
              valid = h.valid;
              job = rw ids (mem-append_left (j.id ∷ []) h.job);
              letter = h.letter;
            })
            v.runs;
      distinct_workers = v.distinct_workers;
      distinct_runs = v.distinct_runs;
      distinct_jobs = rw ids (
          Distinct-append (job_ids db) j.id (not-mem_of_exists_where (λ x. x.id) j.id db.jobs fresh)
            v.distinct_jobs);
      distinct_keys =
          rw (keys_of-append db.jobs j)
            (Distinct-keys_of j.idempotency_key db.jobs v.distinct_keys unused);
      linked =
          All-mono (Linked (job_ids db)) db.job_dependencies
            (λ d h.
              (rw ids (mem-append_left (j.id ∷ []) h.0), rw ids (mem-append_left (j.id ∷ []) h.1)))
            v.linked;
      distinct_edges = v.distinct_edges;
      distinct_letters = v.distinct_letters;
      letters = v.letters;
    }

pub insert_job-IsValid :
    (input : NewJobInput) (now : ℤ) (t : RoundTrip) (db : Database) {row : JobRow} {db' : Database}
    → IsValid db
    → insert_job input now t db ≡ ok (row, db')
    → IsValid db'
insert_job-IsValid input now t db v e =
    let (fresh, unused, _, made) = insert_job_ok input now t db e in
    rw made (add_job-IsValid db (new_job_row input t.fresh_id now) fresh unused v)

other_end :
    (job dep : ℕ) (d : Dependency) → same_dependency job dep d ≡ false → (job, dep) ≢ ends_of d
other_end job dep d e q = ground (arith, e, ap (λ x. x.0) q, ap (λ x. x.1) q)

not-mem-edges :
    (job dep : ℕ) (ds : List Dependency)
    → exists_where (same_dependency job dep) ds ≡ false
    → ¬ In (job, dep) (map ends_of ds)
unfolding exists_where
not-mem-edges job dep [] e m = not-In-nil m
not-mem-edges job dep (d ∷ ds) e m = elim (In-cons m) [
  | inl h ↦ other_end job dep d (ground arith) h
  | inr h ↦ not-mem-edges job dep ds (ground arith) h
]

insert_dependency_ok :
    (job dep : ℕ) (now : ℤ) (t : RoundTrip) (db : Database) {a : Unit {0}} {db' : Database}
    → insert_dependency job dep now t db ≡ ok (a, db')
    → ((exists_where (job_is job) db.jobs && exists_where (job_is dep) db.jobs) ≡ true)
      × (exists_where (same_dependency job dep) db.job_dependencies ≡ false)
      × (db' ≡ record db {
        job_dependencies = db.job_dependencies ++ record { job_id = job; depends_on_id = dep } ∷ [];
      })
unfolding insert_dependency
insert_dependency_ok job dep now t db e = ground arith

pub insert_dependency-IsValid :
    (job dep : ℕ) (now : ℤ) (t : RoundTrip) (db : Database) {a : Unit {0}} {db' : Database}
    → IsValid db
    → insert_dependency job dep now t db ≡ ok (a, db')
    → IsValid db'
insert_dependency-IsValid job dep now t db v e =
    let (both, fresh, made) = insert_dependency_ok job dep now t db e in
    rw made record {
      runs = v.runs;
      distinct_workers = v.distinct_workers;
      distinct_runs = v.distinct_runs;
      distinct_jobs = v.distinct_jobs;
      distinct_keys = v.distinct_keys;
      linked =
          All-append (Linked (job_ids db)) db.job_dependencies
            (record { job_id = job; depends_on_id = dep } ∷ []) v.linked
            (
              (
                mem_of_exists_where (λ j. j.id) job db.jobs (ground (arith, both)),
                mem_of_exists_where (λ j. j.id) dep db.jobs (ground (arith, both)),
              ),
              tt,
            );
      distinct_edges = rw (map-append_one ends_of db.job_dependencies _) (
          Distinct-append (map ends_of db.job_dependencies) (job, dep)
            (not-mem-edges job dep db.job_dependencies fresh) v.distinct_edges);
      distinct_letters = v.distinct_letters;
      letters = v.letters;
    }

set_job_status_ok :
    (id : ℕ) (status : JobStatus) (now : ℤ) (t : RoundTrip) (db : Database) {n : ℕ} {db' : Database}
    → set_job_status id status now t db ≡ ok (n, db')
    → db' ≡ record db { jobs = update_where (job_is id) (with_status status now) db.jobs }
unfolding set_job_status
set_job_status_ok id status now t db e = ground arith

pub set_job_status-IsValid :
    (id : ℕ) (status : JobStatus) (now : ℤ) (t : RoundTrip) (db : Database) {n : ℕ} {db' : Database}
    → IsValid db
    → set_job_status id status now t db ≡ ok (n, db')
    → IsValid db'
set_job_status-IsValid id status now t db v e = rw (set_job_status_ok id status now t db e) record {
  runs =
      rw (map-update_where (λ j. j.id) (job_is id) (with_status status now) db.jobs (λ j. refl))
        v.runs;
  distinct_workers = v.distinct_workers;
  distinct_runs = v.distinct_runs;
  distinct_jobs =
      rw (map-update_where (λ j. j.id) (job_is id) (with_status status now) db.jobs (λ j. refl))
        v.distinct_jobs;
  distinct_keys =
      rw (keys_of-update_where (job_is id) (with_status status now) db.jobs (λ j. refl))
        v.distinct_keys;
  linked =
      rw (map-update_where (λ j. j.id) (job_is id) (with_status status now) db.jobs (λ j. refl))
        v.linked;
  distinct_edges = v.distinct_edges;
  distinct_letters = v.distinct_letters;
  letters = v.letters;
}
