-- ===== src/Worker/Onward.antt =====
-- A round of leaseLoop, and the script.
use taskflow.Common.{Bool, false, ℕ, String, Option, none, some}
use taskflow.Model.{Job, JobRun}
use taskflow.Store.Query.{Result, ok, err}
use taskflow.Store.Lease.Progress.{due_later}
use taskflow.Store.Onward.{MovesOn, MovesOn-bind, MovesOn-return, MovesOn-attempt, onward_rules}
use taskflow.Store.Onward.Calls.{
  mark_running-MovesOn, complete_run-MovesOn, fail_run-MovesOn, mark_dead-MovesOn,
  lease_next_run-MovesOn,
}
use taskflow.Worker.Pool.{
  Pool, Handler, Outcome, returns, fails, bury, finish, execute_with, execute_one, wait, handler_of,
  settled,
}
use taskflow.Store.Query.{time_now}
use taskflow.Worker.Loops.{after_lease, lease_round}

bury-MovesOn :
    (cancelled : Bool) (id : ℕ) (message reason : String)
    → MovesOn (bury cancelled id message reason)
unfolding bury
bury-MovesOn cancelled id message reason =
    search (onward_rules, fail_run-MovesOn, mark_dead-MovesOn)

finish-MovesOn :
    (job : Job) (run : JobRun) (cancelled : Bool) (o : Outcome)
    → MovesOn (finish job run cancelled o)
unfolding finish
finish-MovesOn job run cancelled (returns result) = search (onward_rules, complete_run-MovesOn)
finish-MovesOn job run cancelled (fails message) =
    search (onward_rules, fail_run-MovesOn, bury-MovesOn)

wait-MovesOn : (n : ℕ) → MovesOn (wait n)
unfolding wait
wait-MovesOn n = record {
  at =
      λ w. record { reliable = λ h. h; unlocked = λ id h. h; later = λ s h. due_later s w.now n h };
}

time_now-MovesOn : MovesOn time_now
unfolding time_now
time_now-MovesOn = record {
  at = λ w. record { reliable = λ h. h; unlocked = λ id h. h; later = λ s h. h };
}

execute_with-MovesOn :
    (h : Option Handler) (run : JobRun) (job : Job) → MovesOn (execute_with h run job)
unfolding execute_with
execute_with-MovesOn none run job = bury-MovesOn false _ _ _
execute_with-MovesOn (some h) run job =
    MovesOn-bind _ _ (MovesOn-attempt _ (mark_running-MovesOn run.id)) (λ _.
      MovesOn-bind _ _ time_now-MovesOn (λ start.
        MovesOn-bind _ _ (wait-MovesOn _) (λ _.
          finish-MovesOn job run (h job run start).cancelled (settled job (h job run start)))))

after_lease-MovesOn :
    (p : Pool) (leased : Result (Option (JobRun × Job))) → MovesOn (after_lease p leased)
unfolding after_lease execute_one
after_lease-MovesOn p (err e) = MovesOn-bind _ _ (wait-MovesOn _) (λ u. MovesOn-return _)
after_lease-MovesOn p (ok none) = MovesOn-bind _ _ (wait-MovesOn _) (λ u. MovesOn-return _)
after_lease-MovesOn p (ok (some (run, job))) =
    MovesOn-bind _ _ (execute_with-MovesOn (handler_of job.name p.handlers) run job)
      (λ status. MovesOn-return _)

pub lease_round-MovesOn : (p : Pool) → MovesOn (lease_round p)
unfolding lease_round
lease_round-MovesOn p =
    MovesOn-bind _ _ (MovesOn-attempt _ (lease_next_run-MovesOn _ _)) (after_lease-MovesOn p)
