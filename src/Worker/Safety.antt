-- ===== src/Worker/Safety.antt =====
-- The loops of a worker and the invariant of the tables.
use taskflow.Common.{ℕ, zero, suc, String, true, false, Option, none, some}
use taskflow.Model.{Job, JobRun}
use taskflow.Store.Tables.{Database}
use taskflow.Store.Query.{Result, ok, err}
use taskflow.Store.Ensures.{Keeps}
use taskflow.Store.Keeps.{Keeps-bind, Keeps-return, keeps_rules}
use taskflow.Store.Valid.{IsValid}
use taskflow.Store.Valid.Calls.{
  lease_next_run-Keeps, mark_running-Keeps, complete_run-Keeps, fail_run-Keeps, mark_dead-Keeps,
  reclaim_expired_leases-Keeps, upsert_worker_heartbeat-Keeps,
}
use taskflow.Worker.Pool.{Pool, execute_one}
use taskflow.Worker.Keeping.{wait-Ensures, time_now-Ensures, execute_one-CallsKeep}
use taskflow.Worker.Loops.{after_lease, lease_round, lease_loop, heartbeat_loop, janitor_loop}

ruleset worker_rules = (
  keeps_rules, wait-Ensures, time_now-Ensures, lease_next_run-Keeps, mark_running-Keeps,
  complete_run-Keeps, fail_run-Keeps, mark_dead-Keeps, reclaim_expired_leases-Keeps,
  upsert_worker_heartbeat-Keeps,
)

module _ {R : Option Database} where
  -- executeOne keeps the tables valid, for every handler and every fault of the network.
  pub execute_one-Keeps :
      (p : Pool) (run : JobRun) (job : Job) → Keeps R IsValid (execute_one p run job)
  execute_one-Keeps p run job =
      execute_one-CallsKeep run job
        (record {
          marks_running = mark_running-Keeps run.id;
          completes = complete_run-Keeps run.id;
          requeues = λ message e. fail_run-Keeps run.id message true _;
          gives_up = λ message. fail_run-Keeps run.id message false _;
          marks_dead = mark_dead-Keeps run.id;
        })
        p

  after_lease-Keeps :
      (p : Pool) (leased : Result (Option (JobRun × Job))) → Keeps R IsValid (after_lease p leased)
  unfolding after_lease
  after_lease-Keeps p (err e) = search worker_rules
  after_lease-Keeps p (ok none) = search worker_rules
  after_lease-Keeps p (ok (some (run, job))) = search (worker_rules, execute_one-Keeps)

  lease_round-Keeps : (p : Pool) → Keeps R IsValid (lease_round p)
  unfolding lease_round
  lease_round-Keeps p = search (worker_rules, after_lease-Keeps)

  -- Each loop of a worker keeps the tables valid, however many rounds it runs.
  lease_loop-Keeps : (rounds : ℕ) (p : Pool) → Keeps R IsValid (lease_loop rounds p)
  unfolding lease_loop
  lease_loop-Keeps zero p = Keeps-return tt
  lease_loop-Keeps (suc rounds) p =
      Keeps-bind _ _ (lease_round-Keeps p) (λ _. lease_loop-Keeps rounds p)

  heartbeat_loop-Keeps :
      (rounds : ℕ) (hostname : String) (p : Pool)
      → Keeps R IsValid (heartbeat_loop rounds hostname p)
  unfolding heartbeat_loop
  heartbeat_loop-Keeps zero hostname p = Keeps-return tt
  heartbeat_loop-Keeps (suc rounds) hostname p =
      Keeps-bind _ _ (wait-Ensures _)
        (λ _. Keeps-bind _ _ (search worker_rules) (λ _. heartbeat_loop-Keeps rounds hostname p))

  janitor_loop-Keeps : (rounds : ℕ) (p : Pool) → Keeps R IsValid (janitor_loop rounds p)
  unfolding janitor_loop
  janitor_loop-Keeps zero p = Keeps-return tt
  janitor_loop-Keeps (suc rounds) p =
      Keeps-bind _ _ (wait-Ensures _)
        (λ _. Keeps-bind _ _ (search worker_rules) (λ _. janitor_loop-Keeps rounds p))

-- The three loops of a worker keep the tables valid, however many rounds they run, for every
-- handler and every fault of the network.
loops-Keeps :
    {R : Option Database} (rounds : ℕ) (hostname : String) (p : Pool)
    → Keeps R IsValid (lease_loop rounds p)
      × Keeps R IsValid (heartbeat_loop rounds hostname p)
      × Keeps R IsValid (janitor_loop rounds p)
loops-Keeps rounds hostname p =
    (lease_loop-Keeps rounds p, heartbeat_loop-Keeps rounds hostname p, janitor_loop-Keeps rounds p)
