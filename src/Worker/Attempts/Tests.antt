-- ===== src/Worker/Attempts/Tests.antt =====
-- A worker with a handler that always fails, on the tables that hold one pending run.
use taskflow.Common.{ℕ, pos, ◌≤◌, [], ◌∷◌, none, false}
use taskflow.Model.{NewJobInput, empty}
use taskflow.Store.Query.{World, RoundTrip, delivered}
use taskflow.Store.History.{Call, run, run-IsValid, empty_database, empty_database-IsValid}
use taskflow.Worker.Pool.{Handler, fails, Pool}
use taskflow.Worker.Attempts.Rounds.{executions}
use taskflow.Worker.Attempts.Budget.{budget, executions-le-budget}

abbrev failing_job : NewJobInput
failing_job = record {
  name = "echo";
  payload = empty;
  cron_expr = none;
  priority = pos 0;
  max_attempts = pos 3;
  timeout_seconds = pos 30;
  idempotency_key = none;
  depends_on = [];
}

abbrev trip : ℕ → RoundTrip
trip id = record { reply = delivered; elapsed = 1; fresh_id = id; locked = [] }

abbrev start : World
start = record {
  db = empty_database;
  replica = none;
  now = pos 0;
  script = trip 0 ∷ trip 7 ∷ trip 0 ∷ trip 9 ∷ [];
}

abbrev queued : World
queued = run start (Call.create_job failing_job ∷ Call.create_run 7 (pos 0) (pos 0) ∷ [])

abbrev broken : Handler
broken job run begun = record { outcome = fails "boom"; elapsed = 4; cancelled = false }

-- It polls less often than a run is backed off.
abbrev pool : Pool
pool = record {
  worker_id = "w";
  concurrency = pos 1;
  lease_duration = pos 30;
  poll_interval = 8000000000;
  handlers = ("echo", broken) ∷ [];
}

executions-le-budget_example : executions 9 pool queued ≤ budget queued.db
executions-le-budget_example = executions-le-budget 9 pool queued (
    run-IsValid start (Call.create_job failing_job ∷ Call.create_run 7 (pos 0) (pos 0) ∷ [])
      empty_database-IsValid)
