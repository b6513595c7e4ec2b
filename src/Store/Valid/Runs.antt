-- ===== src/Store/Valid/Runs.antt =====
-- Inserting, leasing and updating runs, and dead letters, keep the tables valid.
use taskflow.Common.{
  ◌==◌, ℕ, ◌<◌, ℤ, String, ◌≡◌, refl, sym, Bool, true, false, not, ◌&&◌, ltb, List, [], ◌∷◌, ◌++◌,
  Option, some, arith, In, exists_where, update_where, All-append, All-update_where, All-mono,
  map-update_where, map-append_one, mem-append_left, Distinct-append, mem_of_exists_where,
  not-mem_of_exists_where, exists_where-mem, mem-append_right, here, subst, ltb→lt, ==_iff, ◌≢◌,
}
use taskflow.Model.{JobRun, running, Fields, DeadLetter}
use taskflow.Store.Tables.{Database}
use taskflow.Store.Query.{ok, RoundTrip}
use taskflow.Store.Jobs.{job_is, text_is}
use taskflow.Store.Runs.{
  run_is, new_run, insert_run, update_runs, insert_dead_letter, lease_run, leased_run, max_smallint,
  completed_run, requeued_run, failed_run, dead_run, reclaimed_run,
}
use taskflow.Store.Valid.{IsRecorded, IsValid, job_ids, run_ids, letter_runs, letter_ids}

pub update_runs_ok :
    (p : ℤ → JobRun → Bool) (f : ℤ → JobRun → JobRun) (now : ℤ) (t : RoundTrip) (db : Database)
    {n : ℕ} {db' : Database}
    → update_runs p f now t db ≡ ok (n, db')
    → db' ≡ record db { job_runs = update_where (p now) (f now) db.job_runs }
unfolding update_runs
update_runs_ok p f now t db e = ground arith

pub update_runs-IsValid :
    (db : Database) (p : JobRun → Bool) (f : JobRun → JobRun)
    → ((r : JobRun) → (f r).id ≡ r.id)
    → ((r : JobRun)
        → In r db.job_runs
        → p r ≡ true
        → IsRecorded (job_ids db) (letter_runs db) r
        → IsRecorded (job_ids db) (letter_runs db) (f r))
    → IsValid db
    → IsValid (record db { job_runs = update_where p f db.job_runs })
update_runs-IsValid db p f same keep v = record {
  runs = All-update_where (IsRecorded (job_ids db) (letter_runs db)) p f db.job_runs keep v.runs;
  distinct_workers = v.distinct_workers;
  distinct_runs = rw (map-update_where (λ r. r.id) p f db.job_runs same) v.distinct_runs;
  distinct_jobs = v.distinct_jobs;
  distinct_keys = v.distinct_keys;
  linked = v.linked;
  distinct_edges = v.distinct_edges;
  distinct_letters = v.distinct_letters;
  letters = rw (map-update_where (λ r. r.id) p f db.job_runs same) v.letters;
}

-- A new run is pending, and belongs to a job that exists.
pub new_run-IsRecorded :
    (jobs letters : List ℕ) (job id : ℕ) (priority at now : ℤ)
    → In job jobs
    → IsRecorded jobs letters (new_run job priority at id now)
new_run-IsRecorded jobs letters job id priority at now m = record {
  valid = ground arith;
  job = m;
  letter = λ e. cc;
}

pub insert_run_ok :
    (job : ℕ) (priority at now : ℤ) (t : RoundTrip) (db : Database) {r : JobRun} {db' : Database}
    → insert_run job priority at now t db ≡ ok (r, db')
    → (exists_where (run_is t.fresh_id) db.job_runs ≡ false)
      × (exists_where (job_is job) db.jobs ≡ true)
      × (r ≡ new_run job priority at t.fresh_id now)
      × (db' ≡ record db { job_runs = db.job_runs ++ new_run job priority at t.fresh_id now ∷ [] })
unfolding insert_run
insert_run_ok job priority at now t db e = ground arith

add_run-IsValid :
    (db : Database) (r : JobRun)
    → exists_where (run_is r.id) db.job_runs ≡ false
    → IsRecorded (job_ids db) (letter_runs db) r
    → IsValid db
    → IsValid (record db { job_runs = db.job_runs ++ r ∷ [] })
add_run-IsValid db r fresh h v = record {
  runs = All-append (IsRecorded (job_ids db) (letter_runs db)) db.job_runs (r ∷ []) v.runs (h, tt);
  distinct_workers = v.distinct_workers;
  distinct_runs = rw (map-append_one (λ (x : JobRun). x.id) db.job_runs r) (
      Distinct-append (run_ids db) r.id (not-mem_of_exists_where (λ x. x.id) r.id db.job_runs fresh)
        v.distinct_runs);
  distinct_jobs = v.distinct_jobs;
  distinct_keys = v.distinct_keys;
  linked = v.linked;
  distinct_edges = v.distinct_edges;
  distinct_letters = v.distinct_letters;
  letters =
      All-mono (λ id. In id (run_ids db)) (letter_runs db)
        (λ id m.
          rw (map-append_one (λ (x : JobRun). x.id) db.job_runs r) (mem-append_left (r.id ∷ []) m))
        v.letters;
}

pub insert_run-IsValid :
    (job : ℕ) (priority at now : ℤ) (t : RoundTrip) (db : Database) {r : JobRun} {db' : Database}
    → IsValid db
    → insert_run job priority at now t db ≡ ok (r, db')
    → IsValid db'
insert_run-IsValid job priority at now t db v e =
    let (fresh, found, _, made) = insert_run_ok job priority at now t db e in
    rw made (
      add_run-IsValid db (new_run job priority at t.fresh_id now) fresh
        (new_run-IsRecorded (job_ids db) (letter_runs db) job t.fresh_id priority at now
          (mem_of_exists_where (λ j. j.id) job db.jobs found))
        v)

module _ (jobs letters : List ℕ) where
  leased_run-IsRecorded :
      (worker : String) (duration now : ℤ) (r : JobRun)
      → r.attempt < max_smallint
      → IsRecorded jobs letters r
      → IsRecorded jobs letters (leased_run worker duration now r)
  leased_run-IsRecorded worker duration now r less h = record {
    valid = ground (arith, h.valid);
    job = h.job;
    letter = λ e. cc;
  }

  pub extended_run-IsRecorded :
      (id : ℕ) (worker : String) (at : ℤ) (r : JobRun)
      → (run_is id r && text_is r.leased_by worker) ≡ true
      → IsRecorded jobs letters r
      → IsRecorded jobs letters (record r { lease_expires_at = some at })
  extended_run-IsRecorded id worker at r p h = record {
    valid = ground (arith, h.valid);
    job = h.job;
    letter = h.letter;
  }

  pub running_run-IsRecorded :
      (now : ℤ) (r : JobRun)
      → IsRecorded jobs letters r
      → IsRecorded jobs letters (record r { status = running; started_at = some now })
  running_run-IsRecorded now r h = record {
    valid = ground (arith, h.valid);
    job = h.job;
    letter = λ e. cc;
  }

  pub completed_run-IsRecorded :
      (result : Option Fields) (now : ℤ) (r : JobRun)
      → IsRecorded jobs letters r
      → IsRecorded jobs letters (completed_run result now r)
  completed_run-IsRecorded result now r h = record {
    valid = ground (arith, h.valid);
    job = h.job;
    letter = λ e. cc;
  }

  pub requeued_run-IsRecorded :
      (message : String) (backoff now : ℤ) (r : JobRun)
      → IsRecorded jobs letters r
      → IsRecorded jobs letters (requeued_run message backoff now r)
  requeued_run-IsRecorded message backoff now r h = record {
    valid = ground (arith, h.valid);
    job = h.job;
    letter = λ e. cc;
  }

  pub failed_run-IsRecorded :
      (message : String) (now : ℤ) (r : JobRun)
      → IsRecorded jobs letters r
      → IsRecorded jobs letters (failed_run message now r)
  failed_run-IsRecorded message now r h = record {
    valid = ground (arith, h.valid);
    job = h.job;
    letter = λ e. cc;
  }

  pub reclaimed_run-IsRecorded :
      (now : ℤ) (r : JobRun)
      → IsRecorded jobs letters r
      → IsRecorded jobs letters (reclaimed_run now r)
  reclaimed_run-IsRecorded now r h = record {
    valid = ground (arith, h.valid);
    job = h.job;
    letter = λ e. cc;
  }

  dead_run-IsRecorded :
      (now : ℤ) (r : JobRun)
      → In r.id letters
      → IsRecorded jobs letters r
      → IsRecorded jobs letters (dead_run now r)
  dead_run-IsRecorded now r m h = record {
    valid = ground (arith, h.valid);
    job = h.job;
    letter = λ _. m;
  }

pub lease_run_ok :
    (worker : String) (duration : ℤ) (id : ℕ) (now : ℤ) (t : RoundTrip) (db : Database) {n : ℕ}
    {db' : Database}
    → lease_run worker duration id now t db ≡ ok (n, db')
    → (exists_where (λ r. run_is id r && not (ltb r.attempt max_smallint)) db.job_runs ≡ false)
      × (db' ≡ record db {
        job_runs = update_where (run_is id) (leased_run worker duration now) db.job_runs;
      })
unfolding lease_run
lease_run_ok worker duration id now t db e = ground arith

room_of : (b c : Bool) → (b && not c) ≢ true → b ≡ true → c ≡ true
room_of b c h e = ground arith

pub lease_run-IsValid :
    (worker : String) (duration : ℤ) (id : ℕ) (now : ℤ) (t : RoundTrip) (db : Database) {n : ℕ}
    {db' : Database}
    → IsValid db
    → lease_run worker duration id now t db ≡ ok (n, db')
    → IsValid db'
lease_run-IsValid worker duration id now t db v e =
    let (room, made) = lease_run_ok worker duration id now t db e in
    rw made (
      update_runs-IsValid db (run_is id) (leased_run worker duration now) (λ r. refl)
        (λ r m p h.
          leased_run-IsRecorded (job_ids db) (letter_runs db) worker duration now r
            (ltb→lt r.attempt max_smallint (
              room_of (run_is id r) (ltb r.attempt max_smallint)
                (λ x. cc (
                  room,
                  exists_where-mem (λ r. run_is id r && not (ltb r.attempt max_smallint)) m x,
                ))
                p))
            h)
        v)

insert_dead_letter_ok :
    (id : ℕ) (reason : String) (payload : Fields) (now : ℤ) (t : RoundTrip) (db : Database)
    {a : Unit {0}} {db' : Database}
    → insert_dead_letter id reason payload now t db ≡ ok (a, db')
    → (exists_where (λ (d : DeadLetter). d.id == t.fresh_id) db.dead_letters ≡ false)
      × (exists_where (run_is id) db.job_runs ≡ true)
      × (db' ≡ record db {
        dead_letters =
            db.dead_letters
            ++ record {
              id = t.fresh_id;
              job_run_id = id;
              reason = reason;
              payload = payload;
              created_at = now;
            }
              ∷ [];
      })
unfolding insert_dead_letter
insert_dead_letter_ok id reason payload now t db e = ground arith

-- A dead letter is written before its run is marked dead.
pub insert_dead_letter-IsValid :
    (id : ℕ) (reason : String) (payload : Fields) (now : ℤ) (t : RoundTrip) (db : Database)
    {a : Unit {0}} {db' : Database}
    → IsValid db
    → insert_dead_letter id reason payload now t db ≡ ok (a, db')
    → IsValid db' × In id (letter_runs db')
insert_dead_letter-IsValid id reason payload now t db v e =
    let letter : DeadLetter = record {
      id = t.fresh_id;
      job_run_id = id;
      reason = reason;
      payload = payload;
      created_at = now;
    } in
    let ids = map-append_one (λ (d : DeadLetter). d.job_run_id) db.dead_letters letter in
    let (fresh, found, made) = insert_dead_letter_ok id reason payload now t db e in
    rw made (
      record {
        runs =
            All-mono (IsRecorded (job_ids db) (letter_runs db)) db.job_runs
              (λ r h. record {
                valid = h.valid;
                job = h.job;
                letter = λ dies. rw ids (mem-append_left (id ∷ []) (h.letter dies));
              })
              v.runs;
        distinct_workers = v.distinct_workers;
        distinct_runs = v.distinct_runs;
        distinct_jobs = v.distinct_jobs;
        distinct_keys = v.distinct_keys;
        linked = v.linked;
        distinct_edges = v.distinct_edges;
        distinct_letters = rw (map-append_one (λ (d : DeadLetter). d.id) db.dead_letters letter) (
            Distinct-append (letter_ids db) letter.id
              (not-mem_of_exists_where (λ d. d.id) letter.id db.dead_letters fresh)
              v.distinct_letters);
        letters = rw ids (
            All-append (λ x. In x (run_ids db)) (letter_runs db) (id ∷ []) v.letters
              (mem_of_exists_where (λ r. r.id) id db.job_runs found, tt));
      },
      rw ids (mem-append_right (letter_runs db) (here refl)),
    )

pub mark_dead_run-IsValid :
    (id : ℕ) (now : ℤ) (db : Database)
    → IsValid db
    → In id (letter_runs db)
    → IsValid (record db { job_runs = update_where (run_is id) (dead_run now) db.job_runs })
mark_dead_run-IsValid id now db v m =
    update_runs-IsValid db (run_is id) (dead_run now) (λ r. refl)
      (λ r _ p h.
        dead_run-IsRecorded (job_ids db) (letter_runs db) now r
          (subst (λ k. In k (letter_runs db)) (sym ((==_iff r.id id).0 p)) m) h)
      v
