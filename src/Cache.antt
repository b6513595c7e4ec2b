-- ===== src/Cache.antt =====
-- internal/cache/cache.go: the Store interface with a cache of jobs and finished runs before it.
--
-- Redis and encoding/json are parameters. A lookup that fails is one that finds nothing, and the
-- errors of Set and Del are dropped. Calls are one after the other
-- here, so that singleflight has nothing to join; in Overlap they overlap.
pub mod Coherence
pub mod Overlap
mod Samples
use taskflow.Common.{ℕ, ◌||◌, Option, none, some, if◌then◌else◌}
use taskflow.Model.{Job, JobRun, JobStatus, succeeded, dead, status_eq}
use taskflow.Store.Query.{Result, ok, err}
use taskflow.Store.Service.{Action, Service}

-- jobKeyPrefix and runKeyPrefix, with the id.
pub data Key : Type 0 where
  job_key run_key : ℕ → Key

-- `R` is the state of the server. The time to live is in seconds.
pub record Redis (R Raw : Type 0) : Type 0 where
  pub get : Key → R → Option Raw × R
  pub set : Key → Raw → (ttl : ℕ) → R → R
  pub del : Key → R → R

pub record Json (Raw : Type 0) : Type 0 where
  pub marshal_job : Job → Option Raw
  pub unmarshal_job : Raw → Option Job
  pub marshal_run : JobRun → Option Raw
  pub unmarshal_run : Raw → Option JobRun

abbrev pub job_ttl : ℕ
job_ttl = 30

abbrev pub run_ttl : ℕ
run_ttl = 3600

abbrev pub and_decode : {A Raw : Type 0} → (Raw → Option A) → Option Raw → Option A
and_decode decode none = none
and_decode decode (some raw) = decode raw

abbrev pub set_if : {R Raw : Type 0} → Redis R Raw → Key → (ttl : ℕ) → Option Raw → R → R
set_if redis key ttl none r = r
set_if redis key ttl (some raw) r = redis.set key raw ttl r

-- A method that the cache passes on.
abbrev pub through : {W R A : Type 0} → Action W A → Action (W × R) A
through q (w, r) = let (answer, w') = q w in (answer, (w', r))

module _ {W R Raw : Type 0} (redis : Redis R Raw) (json : Json Raw) (s : Service W) where
  -- What GetJob does with what the store has answered.
  abbrev pub filled_job : ℕ → Result Job × W → R → Result Job × (W × R)
  filled_job id (ok job, w) r =
      (ok job, (w, set_if redis (job_key id) job_ttl (json.marshal_job job) r))
  filled_job id (err e, w) r = (err e, (w, r))

  abbrev pub job_or : ℕ → Option Job → W → R → Result Job × (W × R)
  job_or id (some job) w r = (ok job, (w, r))
  job_or id none w r = filled_job id (s.get_job id w) r

  unfoldable pub get_job : ℕ → Action (W × R) Job
  get_job id (w, r) =
      let (raw, r') = redis.get (job_key id) r in job_or id (and_decode json.unmarshal_job raw) w r'

  -- Only a run that has ended is cached.
  abbrev pub finished : ℕ → JobRun → R → R
  finished id run r =
      if status_eq run.status succeeded || status_eq run.status dead
      then set_if redis (run_key id) run_ttl (json.marshal_run run) r
      else r

  abbrev pub filled_run : ℕ → Result JobRun × W → R → Result JobRun × (W × R)
  filled_run id (ok run, w) r = (ok run, (w, finished id run r))
  filled_run id (err e, w) r = (err e, (w, r))

  abbrev pub run_or : ℕ → Option JobRun → W → R → Result JobRun × (W × R)
  run_or id (some run) w r = (ok run, (w, r))
  run_or id none w r = filled_run id (s.get_run id w) r

  unfoldable pub get_run : ℕ → Action (W × R) JobRun
  get_run id (w, r) =
      let (raw, r') = redis.get (run_key id) r in run_or id (and_decode json.unmarshal_run raw) w r'

  -- A failed update leaves the cache as it is.
  abbrev pub invalidated : ℕ → Result (Unit {0}) × W → R → Result (Unit {0}) × (W × R)
  invalidated id (ok u, w) r = (ok u, (w, redis.del (job_key id) r))
  invalidated id (err e, w) r = (err e, (w, r))

  unfoldable pub update_job_status : ℕ → JobStatus → Action (W × R) (Unit {0})
  update_job_status id status (w, r) = invalidated id (s.update_job_status id status w) r

  -- Wrap: every other method is the store's own.
  unfoldable pub wrap : Service (W × R)
  unfolding get_job get_run update_job_status
  wrap = record {
    create_job = λ input. through (s.create_job input);
    get_job = get_job;
    get_job_by_idempotency_key = λ key. through (s.get_job_by_idempotency_key key);
    list_jobs = λ status limit offset. through (s.list_jobs status limit offset);
    update_job_status = update_job_status;
    get_run = get_run;
    list_job_runs = λ id limit. through (s.list_job_runs id limit);
    list_workers = through s.list_workers;
  }
