-- ===== src/Worker/Exclusion/Outside.antt =====
-- The calls of the store that the API server, the promoter and the heartbeats make.
use taskflow.Common.{
  ℕ, ℤ, String, ◌≡◌, subst, sym, true, false, List, [], ◌∷◌, Option, map, In, All,
}
use taskflow.Model.{JobRun, NewJobInput, JobStatus, pending, status_eq}
use taskflow.Store.Tables.{Database}
use taskflow.Store.Ensures.{Keeps, Ensures-mono}
use taskflow.Store.Keeps.{
  Keeps-bind, Keeps-exec, Keeps-exec_at, Keeps-on_error, Keeps-raise, Keeps-return,
  Keeps-transaction, keeps_rules,
}
use taskflow.Store.Reads.{read_rules}
use taskflow.Store.Jobs
use taskflow.Store.Runs.{run_is}
use taskflow.Store.Workers
use taskflow.Store.History.{Call, perform, forget-Keeps}
use taskflow.Store.Ledger.Statements.{
  insert_job_rest, insert_dependency_rest, set_job_status_rest, upsert_worker_rest,
}
use taskflow.Worker.Exclusion.{is_outside}
use taskflow.Worker.Exclusion.Taken.{IsTaken, create_run-IsTaken}

same-IsTaken : (id : ℕ) (d d' : Database) → d'.job_runs ≡ d.job_runs → IsTaken id d → IsTaken id d'
same-IsTaken id d d' e t =
    subst
      (λ rs.
        In id (map (λ (r : JobRun). r.id) rs)
        × All (λ (r : JobRun). run_is id r ≡ true → status_eq r.status pending ≡ false) rs)
      (sym e) t

module _ (R : Option Database) (id : ℕ) where
  insert_dependencies-IsTaken :
      (now : ℤ) (job : ℕ) (deps : List ℕ)
      → Keeps R (IsTaken id) (Jobs.insert_dependencies now job deps)
  unfolding Jobs.insert_dependencies
  insert_dependencies-IsTaken now job [] = Keeps-return tt
  insert_dependencies-IsTaken now job (dep ∷ deps) =
      Keeps-bind _ _
        (Keeps-exec_at now (Jobs.insert_dependency job dep)
          (λ t d u d' h e. same-IsTaken id d d' (insert_dependency_rest job dep now t d e).0 h))
        (λ _. insert_dependencies-IsTaken now job deps)

  create_job-IsTaken : (input : NewJobInput) → Keeps R (IsTaken id) (Jobs.create_job input)
  unfolding Jobs.create_job Jobs.create_job_body
  create_job-IsTaken input = Keeps-transaction _ (λ now.
      Ensures-mono (λ d v. v) (λ a d v. v) (λ x d v. tt)
        (Keeps-bind _ _
          (Keeps-on_error _ _
            (Keeps-exec_at now (Jobs.insert_job input)
              (λ t d r d' h e. same-IsTaken id d d' (insert_job_rest input now t d e).0 h))
            (λ e. Keeps-raise _))
          (λ row.
            Keeps-bind _ _ (insert_dependencies-IsTaken now row.id input.depends_on)
              (λ _. Keeps-return _))))

  update_job_status-IsTaken :
      (job : ℕ) (status : JobStatus) → Keeps R (IsTaken id) (Jobs.update_job_status job status)
  unfolding Jobs.update_job_status
  update_job_status-IsTaken job status =
      Keeps-bind _ _
        (Keeps-exec (Jobs.set_job_status job status)
          (λ now t d n d' h e. same-IsTaken id d d' (set_job_status_rest job status now t d e).0 h))
        (λ n. search keeps_rules)

  upsert_worker_heartbeat-IsTaken :
      (host hostname : String)
      → Keeps R (IsTaken id) (Workers.upsert_worker_heartbeat host hostname)
  unfolding Workers.upsert_worker_heartbeat
  upsert_worker_heartbeat-IsTaken host hostname =
      Keeps-exec (Workers.upsert_worker host hostname)
        (λ now t d u d' h e. same-IsTaken id d d' (upsert_worker_rest host hostname now t d e).0 h)

  pub perform-IsTaken : (c : Call) → is_outside c ≡ true → Keeps R (IsTaken id) (perform c)
  unfolding perform
  perform-IsTaken (Call.create_job input) o = forget-Keeps _ (create_job-IsTaken input)
  perform-IsTaken (Call.update_job_status job status) o = update_job_status-IsTaken job status
  perform-IsTaken (Call.create_run job priority at) o =
      forget-Keeps _ (create_run-IsTaken R id job priority at)
  perform-IsTaken (Call.upsert_worker_heartbeat host hostname) o =
      upsert_worker_heartbeat-IsTaken host hostname
  perform-IsTaken (Call.lease_next_run worker duration) o = cc
  perform-IsTaken (Call.extend_lease run worker extend) o = cc
  perform-IsTaken (Call.mark_running run) o = cc
  perform-IsTaken (Call.complete_run run result) o = cc
  perform-IsTaken (Call.fail_run run message requeue delay) o = cc
  perform-IsTaken (Call.mark_dead run reason) o = cc
  perform-IsTaken Call.reclaim_expired_leases o = cc
  perform-IsTaken _ o = search (read_rules, forget-Keeps)
