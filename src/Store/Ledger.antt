-- ===== src/Store/Ledger.antt =====
-- Runs and dead letters over the histories of internal/store/postgres.go.
pub mod Statements
use taskflow.Common.{ℕ, ◌≤◌, ℤ, String, ◌≡◌, refl, Bool, true, false, List, [], ◌∷◌, Option, arith}
use taskflow.Model.{JobRun, NewJobInput, JobStatus, Fields}
use taskflow.Store.Json.{fits_jsonb}
use taskflow.Store.Tables.{Database}
use taskflow.Store.Query.{
  Error, Result, ok, err, RoundTrip, World, Query, exec, Ending, transaction,
}
use taskflow.Store.Post.{Post}
use taskflow.Store.Ensures.{Ensures, Keeps, Ensures-mono}
use taskflow.Store.Keeps.{
  Keeps-refused, Keeps-exec, Keeps-exec_at, Keeps-bind, Keeps-if, Keeps-attempt, Keeps-on_error,
  Keeps-raise, Keeps-return, Keeps-transaction, keeps_rules,
}
use taskflow.Store.Reads.{fetch_job-Keeps, or_not_found-Keeps, read_rules}
use taskflow.Store.Jobs
use taskflow.Store.Runs
use taskflow.Store.Runs.{update_runs}
use taskflow.Store.Workers
use taskflow.Store.Valid.Runs.{update_runs_ok, lease_run_ok}
use taskflow.Store.Valid.Calls.{next_pending_unchanged}
use taskflow.Store.History.{Call, perform, forget, forget-Keeps, run, after}
use taskflow.Store.Ledger.Statements.{
  IsLater, later, Retains, Retains-refl, Retains-updated, Retains-same, insert_run-Retains,
  insert_dead_letter-Retains, insert_job-Retains, insert_dependency-Retains, set_job_status_rest,
  upsert_worker_rest,
}

module _ {R : Option Database} {old : Database} where
  affected-Retains :
      (q : Query ℕ) → Keeps R (Retains old) q → Keeps R (Retains old) (Jobs.affected q)
  affected-Retains q h = Keeps-bind q _ h (λ n. search keeps_rules)

  update-Retains :
      (p : ℤ → JobRun → Bool) (f : ℤ → JobRun → JobRun)
      → ((now : ℤ) (r : JobRun) → IsLater r (f now r))
      → Keeps R (Retains old) (exec (update_runs p f))
  update-Retains p f grow = Keeps-exec (update_runs p f) (λ now t d n d' h e.
      rw (update_runs_ok p f now t d e) (Retains-updated old d h (p now) (f now) (grow now)))

  extend_lease-Retains :
      (id : ℕ) (worker : String) (extend : ℤ)
      → Keeps R (Retains old) (Runs.extend_lease id worker extend)
  unfolding Runs.extend_lease
  extend_lease-Retains id worker extend =
      affected-Retains _ (update-Retains _ _ (λ now r. later refl refl refl (omega arith)))

  mark_running-Retains : (id : ℕ) → Keeps R (Retains old) (Runs.mark_running id)
  unfolding Runs.mark_running
  mark_running-Retains id =
      affected-Retains _ (update-Retains _ _ (λ now r. later refl refl refl (omega arith)))

  complete_run-Retains :
      (id : ℕ) (result : Option Fields) → Keeps R (Retains old) (Runs.complete_run id result)
  unfolding Runs.complete_run
  complete_run-Retains id result = affected-Retains _ (
      Keeps-if (fits_jsonb result) _ _
        (update-Retains _ _ (λ now r. later refl refl refl (omega arith))) (Keeps-refused _))

  fail_run-Retains :
      (id : ℕ) (message : String) (requeue : Bool) (backoff : ℤ)
      → Keeps R (Retains old) (Runs.fail_run id message requeue backoff)
  unfolding Runs.fail_run
  fail_run-Retains id message requeue backoff = affected-Retains _ (
      Keeps-if requeue _ _ (update-Retains _ _ (λ now r. later refl refl refl (omega arith)))
        (update-Retains _ _ (λ now r. later refl refl refl (omega arith))))

  reclaim_expired_leases-Retains : Keeps R (Retains old) Runs.reclaim_expired_leases
  unfolding Runs.reclaim_expired_leases
  reclaim_expired_leases-Retains = update-Retains _ _ (λ now r. later refl refl refl (omega arith))

  create_run-Retains :
      (job : ℕ) (priority at : ℤ) → Keeps R (Retains old) (Runs.create_run job priority at)
  unfolding Runs.create_run
  create_run-Retains job priority at =
      Keeps-exec (Runs.insert_run job priority at)
        (λ now t d r d' h e. insert_run-Retains old d h job priority at now t r d' e)

  claim-Retains :
      (worker : String) (duration now : ℤ) (r : JobRun)
      → Keeps R (Retains old) (Runs.claim worker duration now r)
  unfolding Runs.claim Runs.fetch_run
  claim-Retains worker duration now r =
      Keeps-bind _ _
        (Keeps-exec_at now (Runs.lease_run worker duration r.id) (λ t d n d' h e.
          rw ((lease_run_ok worker duration r.id now t d e).1) (
            Retains-updated old d h (Runs.run_is r.id) (Runs.leased_run worker duration now)
              (λ r. later refl refl refl (omega arith)))))
        (λ _. search (keeps_rules, fetch_job-Keeps))

  lease_found-Retains :
      (worker : String) (duration now : ℤ) (found : Result JobRun)
      → Keeps R (Retains old) (Runs.lease_found worker duration now found)
  unfolding Runs.lease_found
  lease_found-Retains worker duration now (ok r) = claim-Retains worker duration now r
  lease_found-Retains worker duration now (err Error.no_rows) = Keeps-return _
  lease_found-Retains worker duration now (err _) = Keeps-raise _

  -- A transaction whose body keeps the records, where it may also fail.
  transaction-Retains :
      {A : Type 0} (body : ℤ → Query (Ending A))
      → ((now : ℤ) → Keeps R (Retains old) (body now))
      → Keeps R (Retains old) (transaction body)
  transaction-Retains body h =
      Keeps-transaction body (λ now. Ensures-mono (λ d v. v) (λ a d v. v) (λ x d v. tt) (h now))

  lease_next_run-Retains :
      (worker : String) (duration : ℤ) → Keeps R (Retains old) (Runs.lease_next_run worker duration)
  unfolding Runs.lease_next_run Runs.lease_body
  lease_next_run-Retains worker duration = transaction-Retains _ (λ now.
      Keeps-bind _ _
        (Keeps-attempt _ (
          Keeps-exec_at now Runs.next_pending
            (λ t d a d' h e. rw (next_pending_unchanged now t d e) h)))
        (lease_found-Retains worker duration now))

  mark_dead-Retains : (id : ℕ) (reason : String) → Keeps R (Retains old) (Runs.mark_dead id reason)
  unfolding Runs.mark_dead Runs.mark_dead_body Runs.fetch_run
  mark_dead-Retains id reason = transaction-Retains _ (λ now.
      Keeps-bind _ _ (or_not_found-Keeps _ (search keeps_rules)) (λ run.
        Keeps-bind _ _
          (Keeps-exec_at now _
            (λ t d u d' h e. insert_dead_letter-Retains old d h id reason _ now t u d' e))
          (λ _.
            Keeps-bind _ _
              (Keeps-exec_at now _ (λ t d n d' h e.
                rw (update_runs_ok (λ _. Runs.run_is id) Runs.dead_run now t d e) (
                  Retains-updated old d h (Runs.run_is id) (Runs.dead_run now)
                    (λ r. later refl refl refl (omega arith)))))
              (λ n. Keeps-return _))))

  insert_dependencies-Retains :
      (now : ℤ) (job : ℕ) (deps : List ℕ)
      → Keeps R (Retains old) (Jobs.insert_dependencies now job deps)
  unfolding Jobs.insert_dependencies
  insert_dependencies-Retains now job [] = Keeps-return tt
  insert_dependencies-Retains now job (dep ∷ deps) =
      Keeps-bind _ _
        (Keeps-exec_at now (Jobs.insert_dependency job dep)
          (λ t d u d' h e. insert_dependency-Retains old d h job dep now t e))
        (λ _. insert_dependencies-Retains now job deps)

  create_job-Retains : (input : NewJobInput) → Keeps R (Retains old) (Jobs.create_job input)
  unfolding Jobs.create_job Jobs.create_job_body
  create_job-Retains input = transaction-Retains _ (λ now.
      Keeps-bind _ _
        (Keeps-on_error _ _
          (Keeps-exec_at now (Jobs.insert_job input)
            (λ t d r d' h e. insert_job-Retains old d h input now t e))
          (λ e. Keeps-raise _))
        (λ row.
          Keeps-bind _ _ (insert_dependencies-Retains now row.id input.depends_on)
            (λ _. Keeps-return _)))

  update_job_status-Retains :
      (id : ℕ) (status : JobStatus) → Keeps R (Retains old) (Jobs.update_job_status id status)
  unfolding Jobs.update_job_status
  update_job_status-Retains id status = affected-Retains _ (
      Keeps-exec (Jobs.set_job_status id status) (λ now t d n d' h e.
        let (k, l) = set_job_status_rest id status now t d e in Retains-same old d h d' k l))

  upsert_worker_heartbeat-Retains :
      (id hostname : String) → Keeps R (Retains old) (Workers.upsert_worker_heartbeat id hostname)
  unfolding Workers.upsert_worker_heartbeat
  upsert_worker_heartbeat-Retains id hostname =
      Keeps-exec (Workers.upsert_worker id hostname) (λ now t d u d' h e.
        let (k, l) = upsert_worker_rest id hostname now t d e in Retains-same old d h d' k l)

ruleset retain_rules = (
  read_rules, forget-Keeps, create_job-Retains, update_job_status-Retains, create_run-Retains,
  lease_next_run-Retains, extend_lease-Retains, mark_running-Retains, complete_run-Retains,
  fail_run-Retains, mark_dead-Retains, reclaim_expired_leases-Retains,
  upsert_worker_heartbeat-Retains,
)

perform-Retains :
    {R : Option Database} {old : Database} (c : Call) → Keeps R (Retains old) (perform c)
unfolding perform
perform-Retains (Call.create_job input) = search retain_rules
perform-Retains _ = search retain_rules

run_from :
    (old : Database) (w : World) (cs : List Call) → Retains old w.db → Retains old (run w cs).db
unfolding run
run_from old w [] h = h
run_from old w (c ∷ cs) h =
    run_from old (perform c w).1 cs
      (after w.replica (Retains old) (perform c w) ((perform-Retains c).at w refl h))

-- Whatever the services call, in whatever order, and whatever the network loses, no run and no dead
-- letter disappears: each run that is there at some time is there later, of the same job and
-- creation, with at least as many attempts, and each letter is there unchanged.
pub run-Retains : (w : World) (cs : List Call) → Retains w.db (run w cs).db
run-Retains w cs = run_from w.db w cs (Retains-refl w.db)
