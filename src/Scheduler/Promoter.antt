-- ===== src/Scheduler/Promoter.antt =====
-- internal/scheduler/promoter.go: one pass over the active jobs.
use taskflow.Common.{
  ℕ, ◌+◌, ℤ, Bool, true, false, not, if◌then◌else◌, List, [], ◌∷◌, Option, none, some,
}
use taskflow.Model.{Job, JobRun, active}
use taskflow.Store.Query.{not_found, Result, ok, err, Query, return, ◌>>=◌, attempt, time_now}
use taskflow.Store.Jobs.{list_jobs}
use taskflow.Store.Runs.{has_active_run, latest_run_for_job, create_run, count_pending_runs}
use taskflow.Scheduler.Schedule.{Cron, next_run_due, dependencies_satisfied}

abbrev pub list_active_jobs_limit : ℕ
list_active_jobs_limit = 10000

-- `if err != nil { log; continue }; if !b { continue }`
abbrev pub proceed_if : Result Bool → Query Bool → Query Bool
proceed_if (ok true) next = next
proceed_if (ok false) next = return false
proceed_if (err e) next = return false

abbrev pub negated : Result Bool → Result Bool
negated (ok b) = ok (not b)
negated (err e) = err e

-- The switch on the error of LatestRunForJob; `none` is its `continue`.
abbrev pub last_scheduled : Result JobRun → Option (Option ℤ)
last_scheduled (ok run) = some (some run.scheduled_at)
last_scheduled (err not_found) = some none
last_scheduled (err e) = none

abbrev pub created : Result JobRun → Query Bool
created (ok run) = return true
created (err e) = return false

module _ (c : Cron) (now : ℤ) where
  -- From the dependency check to CreateRun.
  unfoldable pub promote_due : Job → Query Bool
  promote_due job = do
    satisfied ← attempt (dependencies_satisfied job.id)
    proceed_if satisfied (do run ← attempt (create_run job.id job.priority now); created run)

  abbrev pub promote_since : Job → Option (Option ℤ) → Query Bool
  promote_since job none = return false
  promote_since job (some last) =
      proceed_if (next_run_due c job.cron_expr last job.created_at now) (promote_due job)

  unfoldable pub promote_idle : Job → Query Bool
  unfolding promote_due
  promote_idle job = do
    last_run ← attempt (latest_run_for_job job.id)
    promote_since job (last_scheduled last_run)

  -- The body of the loop: whether the job was promoted.
  unfoldable pub promote_job : Job → Query Bool
  unfolding promote_idle
  promote_job job = do
    has_active ← attempt (has_active_run job.id)
    proceed_if (negated has_active) (promote_idle job)

  unfoldable pub promote_jobs : List Job → ℕ → Query ℕ
  unfolding promote_job
  promote_jobs [] promoted = return promoted
  promote_jobs (job ∷ jobs) promoted = do
    done ← promote_job job
    promote_jobs jobs (if done then promoted + 1 else promoted)

-- The queue depth is only published as a metric, its error only logged.
unfoldable pub promote_once : Cron → Query ℕ
unfolding promote_jobs
promote_once c = do
  jobs ← list_jobs (some active) list_active_jobs_limit 0
  now ← time_now
  promoted ← promote_jobs c now jobs 0
  _ ← attempt count_pending_runs
  return promoted
