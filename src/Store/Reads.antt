-- ===== src/Store/Reads.antt =====
-- The reads of the store, for invariants of the primary database.
use taskflow.Common.{ℕ, String, Bool, List, [], ◌∷◌, Option}
use taskflow.Model.{JobStatus}
use taskflow.Store.Tables.{JobRow, Database}
use taskflow.Store.Query.{Query, Querier}
use taskflow.Store.Ensures.{Keeps}
use taskflow.Store.Keeps.{Keeps-bind, Keeps-return, Keeps-raise, Keeps-on_error, keeps_rules}
use taskflow.Store.Jobs
use taskflow.Store.Runs
use taskflow.Store.Workers

module _ {R : Option Database} {P : Database → Type 0} where
  pub or_not_found-Keeps :
      {A : Type 0} (q : Query A) → Keeps R P q → Keeps R P (Jobs.or_not_found q)
  or_not_found-Keeps q h = Keeps-on_error q _ h (λ e. Keeps-raise _)

  pub fetch_job-Keeps : (q : Querier) (id : ℕ) → Keeps R P (Jobs.fetch_job q id)
  unfolding Jobs.fetch_job Jobs.scan_job_row Jobs.fetch_dependencies
  fetch_job-Keeps q id = search keeps_rules

  pub get_job-Keeps : (id : ℕ) → Keeps R P (Jobs.get_job id)
  unfolding Jobs.get_job
  get_job-Keeps id = or_not_found-Keeps _ (fetch_job-Keeps Querier.reader id)

  pub get_job_by_idempotency_key-Keeps :
      (key : String) → Keeps R P (Jobs.get_job_by_idempotency_key key)
  unfolding Jobs.get_job_by_idempotency_key Jobs.scan_job_row Jobs.fetch_dependencies
  get_job_by_idempotency_key-Keeps key = or_not_found-Keeps _ (search keeps_rules)

  with_dependencies-Keeps : (rows : List JobRow) → Keeps R P (Jobs.with_dependencies rows)
  unfolding Jobs.with_dependencies Jobs.fetch_dependencies
  with_dependencies-Keeps [] = Keeps-return []
  with_dependencies-Keeps (r ∷ rows) =
      Keeps-bind _ _ (search keeps_rules)
        (λ deps. Keeps-bind _ _ (with_dependencies-Keeps rows) (λ jobs. Keeps-return _))

  pub list_jobs-Keeps :
      (status : Option JobStatus) (limit offset : ℕ)
      → Keeps R P (Jobs.list_jobs status limit offset)
  unfolding Jobs.list_jobs
  list_jobs-Keeps status limit offset = Keeps-bind _ _ (search keeps_rules) with_dependencies-Keeps

  pub list_dependencies-Keeps : (id : ℕ) → Keeps R P (Jobs.list_dependencies id)
  unfolding Jobs.list_dependencies Jobs.fetch_dependencies
  list_dependencies-Keeps id = search keeps_rules

  pub latest_run_for_job-Keeps : (id : ℕ) → Keeps R P (Runs.latest_run_for_job id)
  unfolding Runs.latest_run_for_job
  latest_run_for_job-Keeps id = or_not_found-Keeps _ (search keeps_rules)

  pub has_active_run-Keeps : (id : ℕ) → Keeps R P (Runs.has_active_run id)
  unfolding Runs.has_active_run
  has_active_run-Keeps id = search keeps_rules

  pub get_run-Keeps : (id : ℕ) → Keeps R P (Runs.get_run id)
  unfolding Runs.get_run Runs.fetch_run
  get_run-Keeps id = or_not_found-Keeps _ (search keeps_rules)

  pub list_job_runs-Keeps : (id limit : ℕ) → Keeps R P (Runs.list_job_runs id limit)
  unfolding Runs.list_job_runs
  list_job_runs-Keeps id limit = search keeps_rules

  pub count_pending_runs-Keeps : Keeps R P Runs.count_pending_runs
  unfolding Runs.count_pending_runs
  count_pending_runs-Keeps = search keeps_rules

  pub list_workers-Keeps :
      (collates_before : String → String → Bool) → Keeps R P (Workers.list_workers collates_before)
  unfolding Workers.list_workers
  list_workers-Keeps collates_before = search keeps_rules

pub ruleset read_rules = (
  get_job-Keeps, get_job_by_idempotency_key-Keeps, list_jobs-Keeps, list_dependencies-Keeps,
  latest_run_for_job-Keeps, has_active_run-Keeps, get_run-Keeps, list_job_runs-Keeps,
  count_pending_runs-Keeps, list_workers-Keeps,
)
