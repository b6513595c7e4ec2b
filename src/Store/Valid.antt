-- ===== src/Store/Valid.antt =====
-- The invariant of the tables, whatever the services do and the network loses.
pub mod Jobs
pub mod Runs
pub mod Hosts
pub mod Calls
use taskflow.Common.{
  ℕ, ◌≤◌, String, ◌≡◌, Bool, true, false, List, [], ◌∷◌, map, Option, none, some, is_some, All, In,
  Distinct,
}
use taskflow.Model.{JobRun, RunStatus, pending, leased, running, succeeded, failed}
use taskflow.Store.Tables.{JobRow, Dependency, Database}
use taskflow.Store.Runs.{max_smallint}

-- What the columns of a run say of one another. A lease is held by its three columns together.
pub record IsValidRun (r : JobRun) : Type 0 where
  pub pending_free : r.status ≡ pending → is_some r.leased_by ≡ false
  pub leased_held : r.status ≡ leased → is_some r.leased_by ≡ true
  pub leased_counted : r.status ≡ leased → 1 ≤ r.attempt
  pub leased_at_held : is_some r.leased_at ≡ is_some r.leased_by
  pub expiry_held : is_some r.lease_expires_at ≡ is_some r.leased_by
  pub attempt_fits : r.attempt ≤ max_smallint
  pub running_started : r.status ≡ running → is_some r.started_at ≡ true
  pub succeeded_finished : r.status ≡ succeeded → is_some r.finished_at ≡ true
  pub failed_finished : r.status ≡ failed → is_some r.finished_at ≡ true
  pub failed_explained : r.status ≡ failed → is_some r.error ≡ true

-- A run belongs to a job of the table, and a dead one to a dead letter.
pub record IsRecorded (jobs letters : List ℕ) (r : JobRun) : Type 0 where
  pub valid : IsValidRun r
  pub job : In r.job_id jobs
  pub letter : r.status ≡ RunStatus.dead → In r.id letters

abbrev pub job_ids : Database → List ℕ
job_ids db = map (λ j. j.id) db.jobs

abbrev pub run_ids : Database → List ℕ
run_ids db = map (λ r. r.id) db.job_runs

abbrev pub letter_runs : Database → List ℕ
letter_runs db = map (λ d. d.job_run_id) db.dead_letters

abbrev pub add_key : Option String → List String → List String
add_key none ks = ks
add_key (some k) ks = k ∷ ks

abbrev pub keys_of : List JobRow → List String
keys_of [] = []
keys_of (j ∷ js) = add_key j.idempotency_key (keys_of js)

abbrev pub Linked : List ℕ → Dependency → Type 0
Linked jobs d = In d.job_id jobs × In d.depends_on_id jobs

abbrev pub letter_ids : Database → List ℕ
letter_ids db = map (λ d. d.id) db.dead_letters

abbrev pub ends_of : Dependency → ℕ × ℕ
ends_of d = (d.job_id, d.depends_on_id)

pub record IsValid (db : Database) : Type 0 where
  pub runs : All (IsRecorded (job_ids db) (letter_runs db)) db.job_runs
  pub distinct_workers : Distinct (map (λ h. h.id) db.workers)
  pub distinct_runs : Distinct (run_ids db)
  pub distinct_jobs : Distinct (job_ids db)
  pub distinct_keys : Distinct (keys_of db.jobs)
  pub linked : All (Linked (job_ids db)) db.job_dependencies
  pub distinct_edges : Distinct (map ends_of db.job_dependencies)
  pub distinct_letters : Distinct (letter_ids db)
  pub letters : All (λ id. In id (run_ids db)) (letter_runs db)
