-- ===== src/Store/History.antt =====
-- Histories: the calls that api, scheduler and workers make of one store, in any order. Each call
-- is a statement or a transaction of its own, so that the calls of concurrent processes interleave
-- as some such sequence.
use taskflow.Common.{ℕ, ℤ, String, Bool, List, [], ◌∷◌, Option, arith, refl}
use taskflow.Model.{NewJobInput, JobStatus, Fields}
use taskflow.Store.Tables.{Database}
use taskflow.Store.Query.{Result, ok, err, World, Query, return, ◌>>=◌}
use taskflow.Store.Ensures.{Keeps}
use taskflow.Store.Keeps.{Keeps-bind, Keeps-return}
use taskflow.Store.Jobs
use taskflow.Store.Runs
use taskflow.Store.Workers
use taskflow.Store.Valid.{IsValid}
use taskflow.Store.Post.{Post}
use taskflow.Store.Reads.{read_rules}
use taskflow.Store.Valid.Calls.{
  create_job-Keeps, update_job_status-Keeps, create_run-Keeps, lease_next_run-Keeps,
  extend_lease-Keeps, mark_running-Keeps, complete_run-Keeps, fail_run-Keeps, mark_dead-Keeps,
  reclaim_expired_leases-Keeps, upsert_worker_heartbeat-Keeps,
}

-- The methods of the Store interface that reach the primary.
pub data Call : Type 0 where
  create_job : NewJobInput → Call
  get_job : ℕ → Call
  get_job_by_idempotency_key : String → Call
  list_jobs : Option JobStatus → (limit offset : ℕ) → Call
  update_job_status : ℕ → JobStatus → Call
  list_dependencies latest_run_for_job has_active_run : ℕ → Call
  create_run : ℕ → (priority scheduled_at : ℤ) → Call
  lease_next_run : String → ℤ → Call
  extend_lease : ℕ → String → ℤ → Call
  mark_running : ℕ → Call
  complete_run : ℕ → Option Fields → Call
  fail_run : ℕ → String → Bool → ℤ → Call
  mark_dead : ℕ → String → Call
  reclaim_expired_leases count_pending_runs : Call
  get_run : ℕ → Call
  list_job_runs : ℕ → (limit : ℕ) → Call
  upsert_worker_heartbeat : (id hostname : String) → Call
  list_workers : (String → String → Bool) → Call

unfoldable pub forget : {A : Type 0} → Query A → Query (Unit {0})
forget q = do _ ← q; return tt

unfoldable pub perform : Call → Query (Unit {0})
unfolding forget
perform (create_job input) = forget (Jobs.create_job input)
perform (get_job id) = forget (Jobs.get_job id)
perform (get_job_by_idempotency_key key) = forget (Jobs.get_job_by_idempotency_key key)
perform (list_jobs status limit offset) = forget (Jobs.list_jobs status limit offset)
perform (update_job_status id status) = Jobs.update_job_status id status
perform (list_dependencies id) = forget (Jobs.list_dependencies id)
perform (latest_run_for_job id) = forget (Runs.latest_run_for_job id)
perform (has_active_run id) = forget (Runs.has_active_run id)
perform (create_run id priority at) = forget (Runs.create_run id priority at)
perform (lease_next_run worker duration) = forget (Runs.lease_next_run worker duration)
perform (extend_lease id worker extend) = Runs.extend_lease id worker extend
perform (mark_running id) = Runs.mark_running id
perform (complete_run id result) = Runs.complete_run id result
perform (fail_run id message requeue backoff) = Runs.fail_run id message requeue backoff
perform (mark_dead id reason) = Runs.mark_dead id reason
perform reclaim_expired_leases = forget Runs.reclaim_expired_leases
perform count_pending_runs = forget Runs.count_pending_runs
perform (get_run id) = forget (Runs.get_run id)
perform (list_job_runs id limit) = forget (Runs.list_job_runs id limit)
perform (upsert_worker_heartbeat id hostname) = Workers.upsert_worker_heartbeat id hostname
perform (list_workers collates_before) = forget (Workers.list_workers collates_before)

-- A caller that gets an error goes on with its next call.
unfoldable pub run : World → List Call → World
run w [] = w
run w (c ∷ cs) = run (perform c w).1 cs

abbrev pub empty_database : Database
empty_database = record {
  jobs = [];
  job_dependencies = [];
  job_runs = [];
  workers = [];
  dead_letters = [];
}

pub forget-Keeps :
    {A : Type 0} {R : Option Database} {P : Database → Type 0} (q : Query A)
    → Keeps R P q
    → Keeps R P (forget q)
unfolding forget
forget-Keeps q h = Keeps-bind q _ h (λ a. Keeps-return tt)

ruleset call_rules = (
  read_rules, forget-Keeps, create_job-Keeps, update_job_status-Keeps, create_run-Keeps,
  lease_next_run-Keeps, extend_lease-Keeps, mark_running-Keeps, complete_run-Keeps, fail_run-Keeps,
  mark_dead-Keeps, reclaim_expired_leases-Keeps, upsert_worker_heartbeat-Keeps,
)

pub perform-Keeps : {R : Option Database} (c : Call) → Keeps R IsValid (perform c)
unfolding perform
perform-Keeps (create_job input) = search call_rules
perform-Keeps _ = search call_rules

pub after :
    (R : Option Database) (P : Database → Type 0) (r : Result (Unit {0}) × World)
    → Post R (λ _. P) (λ _. P) r
    → P r.1.db
after R P (ok a, w) p = p.1
after R P (err e, w) p = p.1

-- Whatever the services call, in whatever order, and whatever the network loses, valid tables stay
-- valid: primary keys and idempotency keys stay unique, runs and dependencies refer to jobs that
-- exist, the columns of each run agree, and every dead run has its dead letter.
pub run-IsValid : (w : World) (cs : List Call) → IsValid w.db → IsValid (run w cs).db
unfolding run
run-IsValid w [] v = v
run-IsValid w (c ∷ cs) v =
    run-IsValid (perform c w).1 cs
      (after w.replica IsValid (perform c w) ((perform-Keeps c).at w refl v))

pub empty_database-IsValid : IsValid empty_database
empty_database-IsValid = ground arith
