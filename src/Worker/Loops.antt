-- ===== src/Worker/Loops.antt =====
-- internal/worker: the bodies of leaseLoop, heartbeatLoop and janitorLoop. Each loop runs until the
-- context is cancelled; the first argument is the number of its rounds until then.
use taskflow.Common.{ℕ, zero, suc, ◌*◌, String, Option, none, some}
use taskflow.Model.{Job, JobRun, RunStatus}
use taskflow.Store.Query.{Result, ok, err, Query, return, ◌>>=◌, ◌>>◌, attempt}
use taskflow.Store.Runs.{lease_next_run, reclaim_expired_leases}
use taskflow.Store.Workers.{upsert_worker_heartbeat}
use taskflow.Worker.Pool.{Pool, execute_one, wait}

-- After LeaseNextRun: sleep on an error and where no run was due, or execute the run.
unfoldable pub after_lease : Pool → Result (Option (JobRun × Job)) → Query (Option RunStatus)
unfolding wait
after_lease p (err e) = do wait p.poll_interval; return none
after_lease p (ok none) = do wait p.poll_interval; return none
after_lease p (ok (some (run, job))) = do status ← execute_one p run job; return (some status)

-- One round of leaseLoop: what became of the run it leased, if any.
unfoldable pub lease_round : Pool → Query (Option RunStatus)
unfolding after_lease
lease_round p = do
  leased ← attempt (lease_next_run p.worker_id p.lease_duration)
  after_lease p leased

unfoldable pub lease_loop : ℕ → Pool → Query (Unit {0})
unfolding lease_round
lease_loop zero p = return tt
lease_loop (suc rounds) p = do _ ← lease_round p; lease_loop rounds p

unfoldable pub heartbeat_loop : ℕ → String → Pool → Query (Unit {0})
unfolding wait
heartbeat_loop zero hostname p = return tt
heartbeat_loop (suc rounds) hostname p = do
  wait p.poll_interval
  _ ← attempt (upsert_worker_heartbeat p.worker_id hostname)
  heartbeat_loop rounds hostname p

unfoldable pub janitor_loop : ℕ → Pool → Query (Unit {0})
unfolding wait
janitor_loop zero p = return tt
janitor_loop (suc rounds) p = do
  wait (p.poll_interval * 5)
  _ ← attempt reclaim_expired_leases
  janitor_loop rounds p
