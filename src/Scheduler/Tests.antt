-- ===== src/Scheduler/Tests.antt =====
-- A job that is due, and a cron schedule that fires once a minute.
use taskflow.Store.Runs.{new_run, latest_run, latest_run_for_job}
use taskflow.Common.{
  length, count_where, insert_by, ℕ, zero, inr, ◌+◌, ℤ, pos, ◌+ℤ◌, +ℤ_parts, ◌<ℤ◌, ◌≡◌, ◌≢◌, refl,
  ◌↔◌, inl, [], ◌∷◌, none, some, arith, true, false, All, exists_where, order_by, rows_where,
}
use taskflow.Model.{succeeded, Job, active, empty}
use taskflow.Store.Tables.{JobRow, Database}
use taskflow.Store.Query.{ok, World}
use taskflow.Store.Ensures.{Ensures}
use taskflow.Store.Reliably.{IsDrawn}
use taskflow.Store.Jobs.{job_of, dependencies_of}
use taskflow.Scheduler.Schedule.{
  Cron, next_run_due, dependencies_satisfied, all_succeeded, check_dependency, zero_time,
}
use taskflow.Scheduler.Due.{next_run_due-after_run, next_run_due-never_fires}
use taskflow.Scheduler.Dependencies.{Ready, dependencies_satisfied-Ensures}
use taskflow.Scheduler.Promoter.{promote_due, promote_idle, promote_job, promote_jobs, promote_once}
use taskflow.Store.Jobs
use taskflow.Store.Runs
use taskflow.Scheduler.Promotion.{Turn, promote_job-Ensures}
use taskflow.Scheduler.Pass.{Grown, promote_once-Ensures}
use taskflow.Store.Query.{
  delivered, ◌>>=◌, return, raise, attempt, time_now, select, round_trip, source, read_pool, exec,
  on_error,
}
use taskflow.Lock.{Sessions, Attempt, new_elector, try_acquire, pinged, try_lock}
use taskflow.Lock.Acquiring.{Holds}
use taskflow.Scheduler.Run.{Replica, tick, tick-Holds}
use taskflow.Scheduler.Progress.{Fires, promote_job-Promotes}

next_minute : (s : ℕ) (t : ℤ) → t <ℤ t +ℤ pos (60 + s)
next_minute s t = omega (arith, +ℤ_parts t (pos (60 + s)))

abbrev minutely : Cron
minutely = record {
  Schedule = ℕ;
  parse_standard = λ _. some 0;
  next = λ s t. t +ℤ pos (60 + s);
  next_later = λ s t. inl (next_minute s t);
}

abbrev job_row : JobRow
job_row = record {
  id = 7;
  name = "echo";
  payload = empty;
  cron_expr = some "* * * * *";
  priority = pos 0;
  max_attempts = pos 3;
  timeout_seconds = pos 30;
  status = active;
  idempotency_key = none;
  created_at = pos 0;
  updated_at = pos 0;
}

abbrev tables : Database
tables = record {
  jobs = job_row ∷ [];
  job_dependencies = [];
  job_runs = [];
  workers = [];
  dead_letters = [];
}

abbrev due_job : Job
due_job = job_of job_row []

fires_at_sixty : pos 0 +ℤ pos 60 ≢ zero_time
unfolding ◌+ℤ◌
fires_at_sixty e = cc

next_run_due-after_run_example :
    next_run_due minutely (some "* * * * *") (some (pos 0)) (pos 0) (pos 0) ≡ ok false
next_run_due-after_run_example =
    next_run_due-after_run minutely "* * * * *" (pos 0) (pos 0) (pos 0) zero refl fires_at_sixty
      (omega arith)

dependencies_satisfied-Ensures_example :
    Ensures none
      (λ d. d ≡ tables)
      (dependencies_satisfied 7)
      (λ b d. (d ≡ tables) × ((b ≡ true) ↔ All (Ready tables) (dependencies_of 7 tables)))
      (λ _ d. d ≡ tables)
dependencies_satisfied-Ensures_example = dependencies_satisfied-Ensures 7 tables

promote_job-Ensures_example :
    Ensures none
      (λ d. d ≡ tables)
      (promote_job minutely (pos 60) due_job)
      (Turn minutely (pos 60) due_job tables)
      (λ _ _. ⊥)
promote_job-Ensures_example = promote_job-Ensures tables minutely (pos 60) due_job

promote_once-Ensures_example :
    Ensures none
      (λ d. d ≡ tables)
      (promote_once minutely)
      (λ n d. (now : ℤ) × Grown now n tables d)
      (λ _ d. d ≡ tables)
promote_once-Ensures_example = promote_once-Ensures minutely tables

due_at_sixty : next_run_due minutely (some "* * * * *") none (pos 0) (pos 60) ≡ ok true
unfolding next_run_due ◌+ℤ◌
due_at_sixty = refl

-- A run of another job, and an id for the new one.
abbrev busy : World
busy = record {
  db = record tables {
    job_runs = record (new_run 8 (pos 0) (pos 0) 3 (pos 0)) { status = succeeded } ∷ [];
  };
  replica = none;
  now = pos 60;
  script = record { reply = delivered; elapsed = 1; fresh_id = 9; locked = [] } ∷ [];
}

promote_job-Promotes_example :
    let (a, w) = promote_job minutely (pos 60) due_job busy in
    Fires (IsDrawn busy) (pos 60) due_job busy.db a w.db
unfolding exists_where order_by rows_where
promote_job-Promotes_example =
    promote_job-Promotes minutely (pos 60) due_job busy
      (record { alone = refl; replies = ((refl, tt), tt); rest = tt }) refl refl due_at_sixty tt

-- "0 0 30 2 *": robfig/cron searches five years ahead, then gives up.
abbrev thirtieth_of_february : Cron
thirtieth_of_february = record {
  Schedule = ℕ;
  parse_standard = λ _. some 0;
  next = λ s t. zero_time;
  next_later = λ s t. inr refl;
}

next_run_due-never_fires_example :
    next_run_due thirtieth_of_february (some "0 0 30 2 *") none (pos 0) (pos 60) ≡ ok true
next_run_due-never_fires_example =
    next_run_due-never_fires thirtieth_of_february "0 0 30 2 *" none (pos 0) (pos 60) zero refl refl
      (omega arith)

abbrev one_open : Sessions
one_open = record { holder = none; live = λ s. true; opened = 1 }

abbrev replica : Replica
replica = record {
  world = record { db = tables; replica = none; now = pos 60; script = [] };
  sessions = one_open;
  elector = new_elector;
}

abbrev attempted : Attempt
attempted = record { dial = some 0; reachable = true; redial = none; reply = delivered }

one_run : length (tick minutely attempted replica).world.db.job_runs ≡ 1
unfolding tick try_acquire pinged try_lock ◌>>=◌ Jobs.list_jobs select order_by rows_where time_now
    attempt Runs.has_active_run exists_where latest_run_for_job on_error next_run_due ◌+ℤ◌
    dependencies_satisfied Jobs.list_dependencies Runs.create_run exec count_where insert_by
    promote_due promote_idle promote_job promote_jobs promote_once all_succeeded check_dependency
    Jobs.fetch_dependencies Jobs.with_dependencies raise read_pool return round_trip source
    Runs.count_pending_runs Runs.insert_run
one_run = refl

passed : (tick minutely attempted replica).world ≢ replica.world
passed e = cc (one_run, e)

tick-Holds_example :
    let st' = tick minutely attempted replica in
    (s : ℕ) × (st'.elector.conn ≡ some s) × (st'.sessions.live s ≡ true) × Holds st'.sessions s
tick-Holds_example =
    tick-Holds minutely attempted replica (λ s l c u. cc) (λ l. cc) (λ s e. (tt, refl)) (λ s e. cc)
      passed
