-- ===== src/Store/Service.antt =====
-- The Store interface of internal/store/store.go, as far as the API server calls it, and its
-- implementation by PostgresStore. `W` is the state that a call reads and changes.
use taskflow.Common.{ℕ, String, Bool, List, Option}
use taskflow.Model.{Job, JobRun, JobStatus, NewJobInput, Worker}
use taskflow.Store.Query.{Result, World}
use taskflow.Store.Jobs
use taskflow.Store.Runs
use taskflow.Store.Workers

abbrev pub Action : Type 0 → Type 0 → Type 0
Action W A = W → Result A × W

pub record Service (W : Type 0) : Type 0 where
  pub create_job : NewJobInput → Action W Job
  pub get_job : ℕ → Action W Job
  pub get_job_by_idempotency_key : String → Action W Job
  pub list_jobs : Option JobStatus → (limit offset : ℕ) → Action W (List Job)
  pub update_job_status : ℕ → JobStatus → Action W (Unit {0})
  pub get_run : ℕ → Action W JobRun
  pub list_job_runs : ℕ → (limit : ℕ) → Action W (List JobRun)
  pub list_workers : Action W (List Worker)

-- `collates_before` is the collation of the database, by which ListWorkers orders.
abbrev pub postgres : (String → String → Bool) → Service World
postgres collates_before = record {
  create_job = Jobs.create_job;
  get_job = Jobs.get_job;
  get_job_by_idempotency_key = Jobs.get_job_by_idempotency_key;
  list_jobs = Jobs.list_jobs;
  update_job_status = Jobs.update_job_status;
  get_run = Runs.get_run;
  list_job_runs = Runs.list_job_runs;
  list_workers = Workers.list_workers collates_before;
}
