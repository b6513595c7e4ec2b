-- ===== src/Store/Onward/Calls.antt =====
-- The calls that the lease loop of a worker makes, and the script.
use taskflow.Common.{ℕ, ℤ, String, Bool, Option}
use taskflow.Model.{JobRun, Fields}
use taskflow.Store.Query.{Result, ok, err, Querier, no_rows}
use taskflow.Store.Jobs.{fetch_job, scan_job_row, fetch_dependencies}
use taskflow.Store.Runs.{
  fetch_run, claim, lease_found, lease_body, lease_next_run, mark_running, complete_run, fail_run,
  mark_dead_body, mark_dead,
}
use taskflow.Store.Onward.{
  MovesOn, MovesOn-return, MovesOn-raise, MovesOn-exec_at, MovesOn-select, MovesOn-bind,
  MovesOn-transaction, onward_rules,
}

pub mark_running-MovesOn : (id : ℕ) → MovesOn (mark_running id)
unfolding mark_running
mark_running-MovesOn id = search onward_rules

pub complete_run-MovesOn : (id : ℕ) (result : Option Fields) → MovesOn (complete_run id result)
unfolding complete_run
complete_run-MovesOn id result = search onward_rules

pub fail_run-MovesOn :
    (id : ℕ) (message : String) (requeue : Bool) (delay : ℤ)
    → MovesOn (fail_run id message requeue delay)
unfolding fail_run
fail_run-MovesOn id message requeue delay = search onward_rules

pub mark_dead-MovesOn : (id : ℕ) (reason : String) → MovesOn (mark_dead id reason)
unfolding mark_dead mark_dead_body fetch_run
mark_dead-MovesOn id reason = MovesOn-transaction _ (λ now. search onward_rules)

fetch_job-MovesOn : (q : Querier) (id : ℕ) → MovesOn (fetch_job q id)
unfolding fetch_job scan_job_row fetch_dependencies
fetch_job-MovesOn q id = search onward_rules

claim-MovesOn :
    (worker : String) (duration now : ℤ) (r : JobRun) → MovesOn (claim worker duration now r)
unfolding claim fetch_run
claim-MovesOn worker duration now r = MovesOn-bind _ _ (MovesOn-exec_at _ _) (λ n.
    MovesOn-bind _ _ (MovesOn-select _ _)
      (λ run. MovesOn-bind _ _ (fetch_job-MovesOn _ _) (λ job. MovesOn-return _)))

lease_found-MovesOn :
    (worker : String) (duration now : ℤ) (found : Result JobRun)
    → MovesOn (lease_found worker duration now found)
unfolding lease_found
lease_found-MovesOn worker duration now (ok r) = claim-MovesOn worker duration now r
lease_found-MovesOn worker duration now (err no_rows) = MovesOn-return _
lease_found-MovesOn worker duration now (err _) = MovesOn-raise _

pub lease_next_run-MovesOn :
    (worker : String) (duration : ℤ) → MovesOn (lease_next_run worker duration)
unfolding lease_next_run lease_body
lease_next_run-MovesOn worker duration =
    MovesOn-transaction _
      (λ now. MovesOn-bind _ _ (search onward_rules) (lease_found-MovesOn worker duration now))
