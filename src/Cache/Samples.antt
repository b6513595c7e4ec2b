-- ===== src/Cache/Samples.antt =====
-- Tables with one job, and a coding of jobs as themselves.
use taskflow.Common.{sym, [], ◌∷◌, none, some, pos}
use taskflow.Model.{Job, JobStatus, empty}
use taskflow.Store.Tables.{JobRow, Database}
use taskflow.Store.Query.{World}
use taskflow.Store.Jobs.{job_of}
use taskflow.Cache.{Json}
use taskflow.Cache.Coherence.{Inverts}

abbrev pub sample_row : JobStatus → JobRow
sample_row status = record {
  id = 7;
  name = "echo";
  payload = empty;
  cron_expr = none;
  priority = pos 0;
  max_attempts = pos 3;
  timeout_seconds = pos 30;
  status = status;
  idempotency_key = none;
  created_at = pos 0;
  updated_at = pos 0;
}

abbrev pub sample : JobStatus → Job
sample status = job_of (sample_row status) []

abbrev pub sample_tables : JobStatus → Database
sample_tables status = record {
  jobs = sample_row status ∷ [];
  job_dependencies = [];
  job_runs = [];
  workers = [];
  dead_letters = [];
}

abbrev pub sample_world : JobStatus → World
sample_world status = record { db = sample_tables status; replica = none; now = pos 0; script = [] }

abbrev pub plain : Json Job
plain = record {
  marshal_job = λ j. some j;
  unmarshal_job = λ j. some j;
  marshal_run = λ j. none;
  unmarshal_run = λ j. none;
}

pub plain-Inverts : Inverts plain
plain-Inverts = record { job = λ j raw e. sym e; run = λ j raw e. cc }
