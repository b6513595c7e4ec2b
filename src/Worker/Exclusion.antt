-- ===== src/Worker/Exclusion.antt =====
-- The lease loops of all workers, each made of the calls of leaseLoop and executeOne of
-- internal/worker/pool.go, in any interleaving, beside the calls of all other processes and the
-- janitors.
pub mod Taken
pub mod Outside
pub mod Alone
pub mod Reached
pub mod Rounds
mod Tests
use taskflow.Common.{
  ℕ, ℤ, pos, ltb_ℤ, String, ◌≡◌, Bool, true, false, ◌==◌, if◌then◌else◌, Option, none, some, All,
}
use taskflow.Model.{Job, JobRun, Fields}
use taskflow.Store.Tables.{Database}
use taskflow.Store.Query.{Result, ok, err, World, round_trip}
use taskflow.Store.Runs.{
  run_is, lease_next_run, mark_running, complete_run, fail_run, mark_dead, is_reclaimable,
  reclaim_expired_leases,
}
use taskflow.Store.History.{Call, perform}
use taskflow.Worker.Backoff.{backoff}
use taskflow.Worker.Pool.{Pool}

-- Where a loop stands: before LeaseNextRun, before and after MarkRunning, or between the FailRun
-- and the MarkDead of a run that it gives up.
pub data Phase : Type 0 where
  idle : Phase
  fetched started : JobRun → Job → Phase
  given_up : JobRun → Phase

-- The tables and the loops, by number.
pub record System : Type 0 where
  pub db : Database
  pub loops : ℕ → Phase

-- The run that a loop has in hand.
abbrev pub held : Phase → Option ℕ
held idle = none
held (fetched run job) = some run.id
held (started run job) = some run.id
held (given_up run) = some run.id

abbrev pub with_loop : ℕ → Phase → (ℕ → Phase) → ℕ → Phase
with_loop i ph loops j = if i == j then ph else loops j

-- Any network and clock, and the tables as they are.
abbrev pub seen : System → World → World
seen s w = record w { db = s.db }

abbrev pub fetched_of : Result (Option (JobRun × Job)) → Phase
fetched_of (ok none) = idle
fetched_of (ok (some (run, job))) = fetched run job
fetched_of (err e) = idle

-- Loop `i` after a call.
abbrev pub moved : System → ℕ → Phase → World → System
moved s i ph w = record { db = w.db; loops = with_loop i ph s.loops }

abbrev pub leased_by : System → ℕ → Result (Option (JobRun × Job)) × World → System
leased_by s i (a, w) = moved s i (fetched_of a) w

-- The lease of a run in hand has not expired at the time.
abbrev pub InTime : System → ℤ → Type 0
InTime s now =
    (i id : ℕ)
    → held (s.loops i) ≡ some id
    → All (λ r. run_is id r ≡ true → is_reclaimable now r ≡ false) s.db.job_runs

-- The calls that are not those of a worker's lease loops and janitor. Nobody calls ExtendLease.
abbrev pub is_outside : Call → Bool
is_outside (Call.lease_next_run worker duration) = false
is_outside (Call.extend_lease id worker extend) = false
is_outside (Call.mark_running id) = false
is_outside (Call.complete_run id result) = false
is_outside (Call.fail_run id message requeue delay) = false
is_outside (Call.mark_dead id reason) = false
is_outside Call.reclaim_expired_leases = false
is_outside _ = true

-- One call of one process. Whatever the network makes of a call, its loop goes on to the next.
pub data Step (p : ℕ → Pool) : System → System → Type 0 where
  leases :
      {s : System} (i : ℕ) (w : World)
      → s.loops i ≡ idle
      → Step p s (leased_by s i (lease_next_run (p i).worker_id (p i).lease_duration (seen s w)))
  starts :
      {s : System} (i : ℕ) (w : World) (run : JobRun) (job : Job)
      → s.loops i ≡ fetched run job
      → Step p s (moved s i (started run job) (mark_running run.id (seen s w)).1)
  finds_no_handler :
      {s : System} (i : ℕ) (w : World) (run : JobRun) (job : Job) (message : String)
      → s.loops i ≡ fetched run job
      → Step p s (moved s i (given_up run) (fail_run run.id message false (pos 0) (seen s w)).1)
  completes :
      {s : System} (i : ℕ) (w : World) (run : JobRun) (job : Job) (result : Option Fields)
      → s.loops i ≡ started run job
      → Step p s (moved s i idle (complete_run run.id result (seen s w)).1)
  requeues :
      {s : System} (i : ℕ) (w : World) (run : JobRun) (job : Job) (message : String)
      → s.loops i ≡ started run job
      → ltb_ℤ (pos run.attempt) job.max_attempts ≡ true
      → Step p s (moved s i idle (fail_run run.id message true (backoff run.attempt) (seen s w)).1)
  gives_up :
      {s : System} (i : ℕ) (w : World) (run : JobRun) (job : Job) (message : String)
      → s.loops i ≡ started run job
      → ltb_ℤ (pos run.attempt) job.max_attempts ≡ false
      → Step p s (moved s i (given_up run) (fail_run run.id message false (pos 0) (seen s w)).1)
  buries :
      {s : System} (i : ℕ) (w : World) (run : JobRun) (reason : String)
      → s.loops i ≡ given_up run
      → Step p s (moved s i idle (mark_dead run.id reason (seen s w)).1)
  elsewhere :
      {s : System} (w : World) (c : Call)
      → is_outside c ≡ true
      → Step p s (record s { db = (perform c (seen s w)).1.db })
  reclaims :
      {s : System} (w : World)
      → InTime s (round_trip (seen s w)).1.now
      → Step p s (record s { db = (reclaim_expired_leases (seen s w)).1.db })

pub data Steps (p : ℕ → Pool) : System → System → Type 0 where
  stop : {s : System} → Steps p s s
  step : {s t u : System} → Step p s t → Steps p t u → Steps p s u

abbrev pub start : Database → System
start d = record { db = d; loops = λ i. idle }
