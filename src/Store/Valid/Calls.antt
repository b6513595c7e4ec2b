-- ===== src/Store/Valid/Calls.antt =====
-- Every operation of the store keeps the tables valid, on every branch and with every fault.
use taskflow.Common.{ℕ, ℤ, String, ◌≡◌, refl, Bool, true, List, [], ◌∷◌, Option, arith, In}
use taskflow.Model.{JobRun, NewJobInput, JobStatus, Fields}
use taskflow.Store.Json.{fits_jsonb}
use taskflow.Store.Tables.{Database}
use taskflow.Store.Query.{Result, ok, err, Error, RoundTrip, Query, exec}
use taskflow.Store.Ensures.{
  Ensures, Keeps, Ensures-return, Ensures-exec_at, Ensures-bind, Ensures-mono,
}
use taskflow.Store.Keeps.{
  Keeps-refused, Keeps-exec, Keeps-exec_at, Keeps-bind, Keeps-if, Keeps-attempt, Keeps-on_error,
  Keeps-raise, Keeps-return, Keeps-transaction, keeps_rules,
}
use taskflow.Store.Jobs
use taskflow.Store.Runs
use taskflow.Store.Runs.{
  run_is, completed_run, requeued_run, failed_run, dead_run, is_reclaimable, reclaimed_run,
  update_runs, dead_payload,
}
use taskflow.Store.Workers
use taskflow.Store.Reads.{fetch_job-Keeps, or_not_found-Keeps}
use taskflow.Store.Jobs.{text_is}
use taskflow.Store.Valid.{IsValid, IsRecorded, job_ids, letter_runs}
use taskflow.Store.Valid.Jobs.{
  insert_job-IsValid, insert_dependency-IsValid, set_job_status-IsValid,
}
use taskflow.Store.Valid.Hosts.{upsert_worker-IsValid}
use taskflow.Store.Valid.Runs.{
  update_runs_ok, update_runs-IsValid, insert_run-IsValid, lease_run-IsValid,
  insert_dead_letter-IsValid, mark_dead_run-IsValid, extended_run-IsRecorded,
  running_run-IsRecorded, completed_run-IsRecorded, requeued_run-IsRecorded, failed_run-IsRecorded,
  reclaimed_run-IsRecorded,
}

pub next_pending_unchanged :
    (now : ℤ) (t : RoundTrip) (d : Database) {r : JobRun} {d' : Database}
    → Runs.next_pending now t d ≡ ok (r, d')
    → d' ≡ d
unfolding Runs.next_pending
next_pending_unchanged now t d e = ground arith

module _ {R : Option Database} where
  affected-Keeps : (q : Query ℕ) → Keeps R IsValid q → Keeps R IsValid (Jobs.affected q)
  affected-Keeps q h = Keeps-bind q _ h (λ n. search keeps_rules)

  insert_dependencies-Keeps :
      (now : ℤ) (job : ℕ) (deps : List ℕ) → Keeps R IsValid (Jobs.insert_dependencies now job deps)
  unfolding Jobs.insert_dependencies
  insert_dependencies-Keeps now job [] = search keeps_rules
  insert_dependencies-Keeps now job (dep ∷ deps) =
      Keeps-bind _ _
        (Keeps-exec_at now (Jobs.insert_dependency job dep)
          (λ t d a d' v e. insert_dependency-IsValid job dep now t d v e))
        (λ _. insert_dependencies-Keeps now job deps)

  create_job_body-Keeps :
      (input : NewJobInput) (now : ℤ) → Keeps R IsValid (Jobs.create_job_body input now)
  unfolding Jobs.create_job_body
  create_job_body-Keeps input now =
      Keeps-bind _ _
        (Keeps-on_error _ _
          (Keeps-exec_at now (Jobs.insert_job input)
            (λ t d a d' v e. insert_job-IsValid input now t d v e))
          (λ e. Keeps-raise _))
        (λ row.
          Keeps-bind _ _ (insert_dependencies-Keeps now row.id input.depends_on)
            (λ _. Keeps-return _))

  pub create_job-Keeps : (input : NewJobInput) → Keeps R IsValid (Jobs.create_job input)
  unfolding Jobs.create_job
  create_job-Keeps input =
      Keeps-transaction (Jobs.create_job_body input) (λ now.
        Ensures-mono (λ d v. v) (λ a d v. v) (λ x d v. tt) (create_job_body-Keeps input now))

  pub update_job_status-Keeps :
      (id : ℕ) (status : JobStatus) → Keeps R IsValid (Jobs.update_job_status id status)
  unfolding Jobs.update_job_status
  update_job_status-Keeps id status = affected-Keeps _ (
      Keeps-exec (Jobs.set_job_status id status)
        (λ now t d a d' v e. set_job_status-IsValid id status now t d v e))

  -- UPDATE job_runs, where the new columns of a row are sound if the old ones were.
  update-Keeps :
      (p : ℤ → JobRun → Bool) (f : ℤ → JobRun → JobRun)
      → ((now : ℤ) (r : JobRun) → (f now r).id ≡ r.id)
      → ((now : ℤ) (jobs letters : List ℕ) (r : JobRun)
          → p now r ≡ true
          → IsRecorded jobs letters r
          → IsRecorded jobs letters (f now r))
      → Keeps R IsValid (exec (update_runs p f))
  update-Keeps p f same keep = Keeps-exec (update_runs p f) (λ now t d n d' v e.
      rw (update_runs_ok p f now t d e) (
        update_runs-IsValid d (p now) (f now) (same now)
          (λ r _. keep now (job_ids d) (letter_runs d) r) v))

  pub create_run-Keeps :
      (job : ℕ) (priority at : ℤ) → Keeps R IsValid (Runs.create_run job priority at)
  unfolding Runs.create_run
  create_run-Keeps job priority at =
      Keeps-exec (Runs.insert_run job priority at)
        (λ now t d a d' v e. insert_run-IsValid job priority at now t d v e)

  claim-Keeps :
      (worker : String) (duration now : ℤ) (r : JobRun)
      → Keeps R IsValid (Runs.claim worker duration now r)
  unfolding Runs.claim Runs.fetch_run
  claim-Keeps worker duration now r =
      Keeps-bind _ _
        (Keeps-exec_at now (Runs.lease_run worker duration r.id)
          (λ t d a d' v e. lease_run-IsValid worker duration r.id now t d v e))
        (λ _. search (keeps_rules, fetch_job-Keeps))

  lease_found-Keeps :
      (worker : String) (duration now : ℤ) (found : Result JobRun)
      → Keeps R IsValid (Runs.lease_found worker duration now found)
  unfolding Runs.lease_found
  lease_found-Keeps worker duration now (ok r) = claim-Keeps worker duration now r
  lease_found-Keeps worker duration now (err Error.no_rows) = Keeps-return _
  lease_found-Keeps worker duration now (err _) = Keeps-raise _

  lease_body-Keeps :
      (worker : String) (duration now : ℤ) → Keeps R IsValid (Runs.lease_body worker duration now)
  unfolding Runs.lease_body
  lease_body-Keeps worker duration now =
      Keeps-bind _ _
        (Keeps-attempt _ (
          Keeps-exec_at now Runs.next_pending
            (λ t d a d' v e. rw (next_pending_unchanged now t d e) v)))
        (lease_found-Keeps worker duration now)

  pub lease_next_run-Keeps :
      (worker : String) (duration : ℤ) → Keeps R IsValid (Runs.lease_next_run worker duration)
  unfolding Runs.lease_next_run
  lease_next_run-Keeps worker duration = Keeps-transaction (Runs.lease_body worker duration) (λ now.
      Ensures-mono (λ d v. v) (λ a d v. v) (λ x d v. tt) (lease_body-Keeps worker duration now))

  pub extend_lease-Keeps :
      (id : ℕ) (worker : String) (extend : ℤ) → Keeps R IsValid (Runs.extend_lease id worker extend)
  unfolding Runs.extend_lease
  extend_lease-Keeps id worker extend = affected-Keeps _ (
      update-Keeps _ _ (λ now r. refl)
        (λ now js ls r p h. extended_run-IsRecorded js ls id worker _ r p h))

  pub mark_running-Keeps : (id : ℕ) → Keeps R IsValid (Runs.mark_running id)
  unfolding Runs.mark_running
  mark_running-Keeps id =
      affected-Keeps _
        (update-Keeps _ _ (λ now r. refl) (λ now js ls r p h. running_run-IsRecorded js ls now r h))

  pub complete_run-Keeps :
      (id : ℕ) (result : Option Fields) → Keeps R IsValid (Runs.complete_run id result)
  unfolding Runs.complete_run
  complete_run-Keeps id result = affected-Keeps _ (
      Keeps-if (fits_jsonb result) _ _
        (update-Keeps _ _ (λ now r. refl)
          (λ now js ls r p h. completed_run-IsRecorded js ls result now r h))
        (Keeps-refused _))

  pub fail_run-Keeps :
      (id : ℕ) (message : String) (requeue : Bool) (backoff : ℤ)
      → Keeps R IsValid (Runs.fail_run id message requeue backoff)
  unfolding Runs.fail_run
  fail_run-Keeps id message requeue backoff = affected-Keeps _ (
      Keeps-if requeue _ _
        (update-Keeps _ _ (λ now r. refl)
          (λ now js ls r p h. requeued_run-IsRecorded js ls message backoff now r h))
        (update-Keeps _ _ (λ now r. refl)
          (λ now js ls r p h. failed_run-IsRecorded js ls message now r h)))

  pub reclaim_expired_leases-Keeps : Keeps R IsValid Runs.reclaim_expired_leases
  unfolding Runs.reclaim_expired_leases
  reclaim_expired_leases-Keeps =
      update-Keeps _ _ (λ now r. refl) (λ now js ls r p h. reclaimed_run-IsRecorded js ls now r h)

  -- A run is marked dead in the transaction that has written its dead letter.
  mark_dead_body-Ensures :
      (id : ℕ) (reason : String) (now : ℤ)
      → Ensures R IsValid (Runs.mark_dead_body id reason now) (λ _. IsValid) (λ _ _. Unit {0})
  unfolding Runs.mark_dead_body Runs.fetch_run
  mark_dead_body-Ensures id reason now =
      Ensures-bind _ _
        (Ensures-mono (λ d v. v) (λ a d v. v) (λ x d v. tt)
          (or_not_found-Keeps _ (search keeps_rules)))
        (λ run.
          Ensures-bind {Q = λ _ d. IsValid d × In id (letter_runs d)} _ _
            (Ensures-exec_at now (Runs.insert_dead_letter id reason (dead_payload run))
              (λ t d a d' v e. insert_dead_letter-IsValid id reason (dead_payload run) now t d v e)
              (λ a d v. tt) (λ t d x v e. tt) (λ d v. tt))
            (λ _.
              Ensures-bind {Q = λ _. IsValid} _ _
                (Ensures-exec_at now (update_runs (λ _. run_is id) dead_run)
                  (λ t d n d' v e.
                    rw (update_runs_ok (λ _. run_is id) dead_run now t d e)
                      (mark_dead_run-IsValid id now d v.0 v.1))
                  (λ n d v. tt) (λ t d x v e. tt) (λ d v. tt))
                (λ _. Ensures-return _ (λ d v. v))))

  pub mark_dead-Keeps : (id : ℕ) (reason : String) → Keeps R IsValid (Runs.mark_dead id reason)
  unfolding Runs.mark_dead
  mark_dead-Keeps id reason =
      Keeps-transaction (Runs.mark_dead_body id reason) (mark_dead_body-Ensures id reason)

  pub upsert_worker_heartbeat-Keeps :
      (id hostname : String) → Keeps R IsValid (Workers.upsert_worker_heartbeat id hostname)
  unfolding Workers.upsert_worker_heartbeat
  upsert_worker_heartbeat-Keeps id hostname =
      Keeps-exec (Workers.upsert_worker id hostname)
        (λ now t d a d' v e. upsert_worker-IsValid id hostname now t d v e)
