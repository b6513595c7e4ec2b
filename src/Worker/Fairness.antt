-- ===== src/Worker/Fairness.antt =====
-- How long a run waits for the lease loop of a worker.
pub mod Rounds
mod Tests
use taskflow.Common.{
  ℕ, zero, suc, ◌+◌, ◌-◌, ◌≤◌, ◌<◌, ℤ, String, leb_ℤ, ◌≡◌, refl, sym, ap, ◌∙◌, subst, ◌≢◌, ◌⊎◌,
  ==_iff, Bool, true, false, not, ◌||◌, ◌==◌, if◌then◌else◌, Bool-cases, inl, inr, List, [], ◌∷◌,
  Option, none, some, is_some, arith, rows_where, update_where, All, All-mono, In, mem-rows_where,
  rows_where-mem, mem-update_where,
}
use taskflow.Model.{Job, JobRun, RunStatus, pending, status_eq}
use taskflow.Store.Tables.{JobRow, Database}
use taskflow.Store.Query.{Error, Result, ok, err, World, Query, ◌>>=◌, return, attempt, and_then}
use taskflow.Store.Post.{Post}
use taskflow.Store.Ensures.{Ensures, Ensures-bind, Ensures-return, Ensures-mono}
use taskflow.Store.Reliably.{Reliable}
use taskflow.Store.Runs.{run_is, max_smallint, leased_run, lease_next_run}
use taskflow.Store.Valid.{IsValid, run_ids}
use taskflow.Store.Lease.{Claimed, Leased, LeaseFails, lease_next_run-Ensures}
use taskflow.Store.Lease.Progress.{due_later, Unlocked, HasRoom, lease_next_run-Leases}
use taskflow.Store.Onward.{After, MovesOn}
use taskflow.Worker.Onward.{lease_round-MovesOn}
use taskflow.Worker.Pool.{
  Pool, Handler, Outcome, returns, fails, Answer, bury, finish, execute_with, execute_one, wait,
  handler_of,
}
use taskflow.Store.Query.{time_now}
use taskflow.Worker.Loops.{after_lease, lease_round}
use taskflow.Worker.Isolation.{others, OthersKept, execute_one-Kept}
use taskflow.Worker.Attempts.{to_come, Within, AreWithin}
use taskflow.Worker.Attempts.Rounds.{Before, Counts, executions, counted, lease_round-Counts}
use taskflow.Worker.Attempts.Budget.{budget, executions-le-budget}

-- Whether LeaseNextRun has leased the run with the id.
abbrev takes : ℕ → Result (Option (JobRun × Job)) → Bool
takes id (ok none) = false
takes id (ok (some (run, job))) = run.id == id
takes id (err e) = false

-- Whether one of so many rounds of leaseLoop leases it.
unfoldable pub leased_within : ℕ → ℕ → Pool → World → Bool
leased_within zero id p w = false
leased_within (suc rounds) id p w =
    takes id (lease_next_run p.worker_id p.lease_duration w).0
    || leased_within rounds id p (lease_round p w).1
