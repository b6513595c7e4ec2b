-- ===== src/Worker/Isolation.antt =====
-- executeOne and the rows that are not its own.
use taskflow.Common.{
  ℕ, ℤ, String, ◌≡◌, refl, ap, ◌∙◌, ==_iff, Bool, true, false, not, Bool-cases, inl, inr, List, [],
  ◌∷◌, Option, arith, rows_where, update_where,
}
use taskflow.Model.{Job, JobRun, Fields}
use taskflow.Store.Json.{fits_jsonb}
use taskflow.Store.Tables.{Database}
use taskflow.Store.Query.{ok, Error, RoundTrip, Query, exec}
use taskflow.Store.Ensures.{Ensures, Keeps, Ensures-mono}
use taskflow.Store.Keeps.{
  Keeps-refused, Keeps-bind, Keeps-exec, Keeps-exec_at, Keeps-return, Keeps-transaction,
  keeps_rules,
}
use taskflow.Store.Jobs.{affected}
use taskflow.Store.Runs.{
  run_is, update_runs, running_run, completed_run, requeued_run, failed_run, dead_run, mark_running,
  complete_run, fail_run, mark_dead, mark_dead_body, insert_dead_letter, fetch_run,
}
use taskflow.Store.Valid.Runs.{update_runs_ok}
use taskflow.Store.Reads.{or_not_found-Keeps}
use taskflow.Worker.Pool.{Pool, execute_one}
use taskflow.Worker.Keeping.{execute_one-CallsKeep}

abbrev pub others : ℕ → Database → List JobRun
others id d = rows_where (λ r. not (run_is id r)) d.job_runs

-- Jobs, dependencies, workers and the runs of other ids are as they were.
abbrev pub OthersKept : ℕ → Database → Database → Type 0
OthersKept id old d =
    (d.jobs ≡ old.jobs)
    × (d.job_dependencies ≡ old.job_dependencies)
    × (d.workers ≡ old.workers)
    × (others id d ≡ others id old)

others_updated :
    (id : ℕ) (f : JobRun → JobRun) (rs : List JobRun)
    → ((r : JobRun) → (f r).id ≡ r.id)
    → rows_where (λ r. not (run_is id r)) (update_where (run_is id) f rs)
      ≡ rows_where (λ r. not (run_is id r)) rs
unfolding rows_where update_where
others_updated id f [] same = refl
others_updated id f (r ∷ rs) same = elim (Bool-cases (run_is id r)) [
  | inl e ↦
      rw (e, (==_iff (f r).id id).1 (same r ∙ (==_iff r.id id).0 e)) (others_updated id f rs same)
  | inr e ↦ rw (e, e) (ap (λ l. r ∷ l) (others_updated id f rs same))
]

pub insert_dead_letter_rest :
    (id : ℕ) (reason : String) (payload : Fields) (now : ℤ) (t : RoundTrip) (d : Database)
    {u : Unit {0}} {d' : Database}
    → insert_dead_letter id reason payload now t d ≡ ok (u, d')
    → (d'.jobs ≡ d.jobs)
      × (d'.job_dependencies ≡ d.job_dependencies)
      × (d'.workers ≡ d.workers)
      × (d'.job_runs ≡ d.job_runs)
unfolding insert_dead_letter
insert_dead_letter_rest id reason payload now t d e = ground arith

module _ (R : Option Database) (id : ℕ) (old : Database) where
  update-kept :
      (f : ℤ → JobRun → JobRun)
      → ((now : ℤ) (r : JobRun) → (f now r).id ≡ r.id)
      → (now : ℤ) (t : RoundTrip) (d : Database) (n : ℕ) (d' : Database) → OthersKept id old d
      → update_runs (λ _. run_is id) f now t d ≡ ok (n, d')
      → OthersKept id old d'
  update-kept f same now t d n d' p e =
      rw (update_runs_ok (λ _. run_is id) f now t d e)
        (p.0, p.1, p.2, others_updated id (f now) d.job_runs (same now) ∙ p.3)

  insert_dead_letter-kept :
      (reason : String) (payload : Fields) (now : ℤ) (t : RoundTrip) (d : Database) (u : Unit {0})
      (d' : Database)
      → OthersKept id old d
      → insert_dead_letter id reason payload now t d ≡ ok (u, d')
      → OthersKept id old d'
  insert_dead_letter-kept reason payload now t d u d' p e =
      let (j, g, w, r) = insert_dead_letter_rest id reason payload now t d e in
      (j ∙ p.0, g ∙ p.1, w ∙ p.2, ap (rows_where (λ x. not (run_is id x))) r ∙ p.3)

  affected-kept :
      (q : Query ℕ) → Keeps R (OthersKept id old) q → Keeps R (OthersKept id old) (affected q)
  affected-kept q h = Keeps-bind q _ h (λ n. search keeps_rules)

  set-kept :
      (f : ℤ → JobRun → JobRun)
      → ((now : ℤ) (r : JobRun) → (f now r).id ≡ r.id)
      → Keeps R (OthersKept id old) (affected (exec (update_runs (λ _. run_is id) f)))
  set-kept f same = affected-kept _ (Keeps-exec _ (update-kept f same))

  mark_running-kept : Keeps R (OthersKept id old) (mark_running id)
  unfolding mark_running
  mark_running-kept = set-kept running_run (λ now r. refl)

  complete_run-kept :
      (result : Option Fields) → Keeps R (OthersKept id old) (complete_run id result)
  unfolding complete_run
  complete_run-kept result = elim (Bool-cases (fits_jsonb result)) [
    | inl e ↦ rw e (set-kept (completed_run result) (λ now r. refl))
    | inr e ↦ rw e (affected-kept _ (Keeps-refused _))
  ]

  fail_run-kept :
      (message : String) (requeue : Bool) (delay : ℤ)
      → Keeps R (OthersKept id old) (fail_run id message requeue delay)
  unfolding fail_run
  fail_run-kept message true delay = set-kept (requeued_run message delay) (λ now r. refl)
  fail_run-kept message false delay = set-kept (failed_run message) (λ now r. refl)

  mark_dead_body-kept :
      (reason : String) (now : ℤ) → Keeps R (OthersKept id old) (mark_dead_body id reason now)
  unfolding mark_dead_body fetch_run
  mark_dead_body-kept reason now =
      Keeps-bind _ _ (or_not_found-Keeps _ (search keeps_rules)) (λ run.
        Keeps-bind _ _ (Keeps-exec_at now _ (insert_dead_letter-kept reason _ now)) (λ u.
          Keeps-bind _ _ (Keeps-exec_at now _ (update-kept dead_run (λ _ r. refl) now))
            (λ n. Keeps-return _)))

  mark_dead-kept : (reason : String) → Keeps R (OthersKept id old) (mark_dead id reason)
  unfolding mark_dead
  mark_dead-kept reason =
      Keeps-transaction _
        (λ now. Ensures-mono (λ d v. v) (λ a d v. v) (λ x d v. tt) (mark_dead_body-kept reason now))

pub execute_one-Kept :
    (R : Option Database) (p : Pool) (run : JobRun) (job : Job) (old : Database)
    {E : Error → Database → Type 0}
    → Ensures R (OthersKept run.id old) (execute_one p run job) (λ _. OthersKept run.id old) E
execute_one-Kept R p run job old =
    execute_one-CallsKeep run job
      (record {
        marks_running = mark_running-kept R run.id old;
        completes = complete_run-kept R run.id old;
        requeues = λ message e. fail_run-kept R run.id old message true _;
        gives_up = λ message. fail_run-kept R run.id old message false _;
        marks_dead = mark_dead-kept R run.id old;
      })
      p

-- Whatever the network loses, executeOne leaves jobs, dependencies, workers and the rows of all
-- other runs as they were.
pub execute_one-Keeps_others :
    (R : Option Database) (p : Pool) (run : JobRun) (job : Job) (old : Database)
    → Keeps R (OthersKept run.id old) (execute_one p run job)
execute_one-Keeps_others R p run job old = execute_one-Kept R p run job old
