-- ===== src/Worker/Samples.antt =====
-- Tables with two pending runs of a job, and a worker whose handler fails.
use taskflow.Common.{pos, refl, [], ◌∷◌, none, here, In-cons, not-In-nil, inl, inr, arith, false}
use taskflow.Model.{JobRun, active, empty}
use taskflow.Store.Tables.{JobRow, Database}
use taskflow.Store.Runs.{new_run}
use taskflow.Store.Valid.{IsValid}
use taskflow.Store.Valid.Runs.{new_run-IsRecorded}
use taskflow.Worker.Pool.{Handler, fails, Pool}

abbrev pub failing_job : JobRow
failing_job = record {
  id = 7;
  name = "echo";
  payload = empty;
  cron_expr = none;
  priority = pos 0;
  max_attempts = pos 3;
  timeout_seconds = pos 30;
  status = active;
  idempotency_key = none;
  created_at = pos 0;
  updated_at = pos 0;
}

abbrev pub higher : JobRun
higher = new_run 7 (pos 5) (pos 0) 9 (pos 1)

abbrev pub lower : JobRun
lower = new_run 7 (pos 0) (pos 0) 11 (pos 2)

abbrev pub tables : Database
tables = record {
  jobs = failing_job ∷ [];
  job_dependencies = [];
  job_runs = higher ∷ lower ∷ [];
  workers = [];
  dead_letters = [];
}

pub tables-IsValid : IsValid tables
tables-IsValid = record {
  runs = (
    new_run-IsRecorded (7 ∷ []) [] 7 9 (pos 5) (pos 0) (pos 1) (here refl),
    (new_run-IsRecorded (7 ∷ []) [] 7 11 (pos 0) (pos 0) (pos 2) (here refl), tt),
  );
  distinct_workers = tt;
  distinct_runs =
      (λ m. elim (In-cons m) [ inl e ↦ omega (arith, e) | inr t ↦ not-In-nil t ], (not-In-nil, tt));
  distinct_jobs = (not-In-nil, tt);
  distinct_keys = tt;
  linked = tt;
  distinct_edges = tt;
  distinct_letters = tt;
  letters = tt;
}

abbrev pub broken : Handler
broken job run begun = record { outcome = fails "boom"; elapsed = 8000000000; cancelled = false }

abbrev pub pool : Pool
pool = record {
  worker_id = "w";
  concurrency = pos 1;
  lease_duration = pos 30;
  poll_interval = 500000000;
  handlers = ("echo", broken) ∷ [];
}
