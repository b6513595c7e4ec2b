-- ===== src/Worker/Tests.antt =====
-- A run executed by handlers that succeed and that fail.
use taskflow.Common.{pos, ◌≡◌, ◌∷◌, [], none, some, arith, false, refl, rows_where}
use taskflow.Model.{Job, JobRun, active, leased, empty}
use taskflow.Store.Tables.{Database}
use taskflow.Store.Ensures.{Keeps}
use taskflow.Store.Query.{World, delivered}
use taskflow.Worker.Backoff.{backoff, intended, backoff_exact, backoff_wraps}
use taskflow.Worker.Pool.{Handler, fails, Pool, new_pool, register_handler, handler_of, execute_one}
use taskflow.Worker.Execution.{Executed, execute_one-Executed}
use taskflow.Worker.Isolation.{OthersKept, execute_one-Keeps_others}

abbrev sample_job : Job
sample_job = record {
  id = 7;
  name = "echo";
  payload = empty;
  cron_expr = none;
  priority = pos 0;
  max_attempts = pos 3;
  timeout_seconds = pos 30;
  status = active;
  idempotency_key = none;
  depends_on = [];
  created_at = pos 0;
  updated_at = pos 0;
}

abbrev sample_run : JobRun
sample_run = record {
  id = 9;
  job_id = 7;
  status = leased;
  attempt = 2;
  priority = pos 0;
  scheduled_at = pos 0;
  leased_by = some "w";
  leased_at = some (pos 1);
  lease_expires_at = some (pos 30);
  started_at = none;
  finished_at = none;
  result = none;
  error = none;
  created_at = pos 0;
}

abbrev broken : Handler
broken job run start = record { outcome = fails "boom"; elapsed = 4; cancelled = false }

abbrev pool : Pool
unfolding new_pool register_handler
pool = register_handler "echo" broken (new_pool "w" (pos 1) (pos 30) 5)

backoff_exact_example : backoff 5 ≡ intended 5
backoff_exact_example = backoff_exact 5 (omega arith)

backoff_wraps_example : backoff 60 ≡ pos 0
backoff_wraps_example = backoff_wraps 60 (omega arith)

-- The run is in the tables; the third entry of the script is for its next attempt.
abbrev at_work : World
at_work = record {
  db = record {
    jobs = [];
    job_dependencies = [];
    job_runs = sample_run ∷ [];
    workers = [];
    dead_letters = [];
  };
  replica = none;
  now = pos 2;
  script =
      record { reply = delivered; elapsed = 1; fresh_id = 0; locked = [] }
      ∷ record { reply = delivered; elapsed = 3; fresh_id = 5; locked = [] }
      ∷ [];
}

execute_one-Executed_example :
    Executed at_work
      (handler_of "echo" pool.handlers)
      sample_job
      sample_run
      (execute_one pool sample_run sample_job at_work)
unfolding rows_where
execute_one-Executed_example =
    execute_one-Executed pool sample_job sample_run at_work
      (record { alone = refl; replies = ((refl, tt), ((refl, tt), tt)); rest = tt }) refl

abbrev other_run : JobRun
other_run = record sample_run { id = 10 }

abbrev two_runs : Database
two_runs = record {
  jobs = [];
  job_dependencies = [];
  job_runs = sample_run ∷ other_run ∷ [];
  workers = [];
  dead_letters = [];
}

execute_one-Keeps_others_example :
    Keeps none (OthersKept 9 two_runs) (execute_one pool sample_run sample_job)
execute_one-Keeps_others_example = execute_one-Keeps_others none pool sample_run sample_job two_runs
