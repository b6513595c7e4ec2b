-- ===== src/Store/Runs.antt =====
-- The operations of internal/store/postgres.go on job runs: promotion, leasing, completion,
-- failure, dead letters and the recovery of expired leases.
use taskflow.Common.{
  ℕ, ◌+◌, ℤ, ◌+ℤ◌, leb_ℤ, ltb_ℤ, ltb, String, Bool, false, not, ◌||◌, ◌&&◌, ◌==◌, if◌then◌else◌,
  List, [], ◌∷◌, ◌++◌, Option, none, some, first, take, rows_where, count_where, exists_where,
  update_where, order_by,
}
use taskflow.Model.{
  Job, JobRun, DeadLetter, RunStatus, pending, leased, running, succeeded, failed, status_eq,
  is_active, Fields, Value, object, text, null, empty, field,
}
use taskflow.Store.Tables.{Database}
use taskflow.Store.Json.{fits_jsonb}
use taskflow.Store.Query.{
  no_rows, unique_violation, foreign_key_violation, out_of_range, invalid_json, Result, ok, err,
  Query, return, raise, ◌>>=◌, ◌>>◌, attempt, Statement, exec_at, exec, Querier, primary, reader,
  select, Ending, commit, abandon, transaction,
}
use taskflow.Store.Jobs.{one_row, or_not_found, affected, text_is, job_is, fetch_job}

abbrev pub run_is : ℕ → JobRun → Bool
run_is id r = r.id == id

abbrev pub run_of : ℕ → JobRun → Bool
run_of job r = r.job_id == job

abbrev pub newer_run : JobRun → JobRun → Bool
newer_run a b = ltb_ℤ b.created_at a.created_at

-- scanRun is the identity on rows: a row of job_runs is a JobRun.
unfoldable pub fetch_run : Querier → ℕ → Query JobRun
fetch_run q id = select q (λ db. one_row (rows_where (run_is id) db.job_runs))

abbrev pub latest_run : ℕ → Database → Option JobRun
latest_run job db = first (order_by newer_run (rows_where (run_of job) db.job_runs))

unfoldable pub latest_run_for_job : ℕ → Query JobRun
latest_run_for_job job = or_not_found (
    select reader
      (λ db. one_row (take 1 (order_by newer_run (rows_where (run_of job) db.job_runs)))))

abbrev pub active_run_of : ℕ → JobRun → Bool
active_run_of job r = run_of job r && is_active r.status

unfoldable pub has_active_run : ℕ → Query Bool
has_active_run job = select reader (λ db. ok (exists_where (active_run_of job) db.job_runs))

abbrev pub new_run : ℕ → ℤ → ℤ → ℕ → ℤ → JobRun
new_run job priority scheduled_at id now = record {
  id = id;
  job_id = job;
  status = pending;
  attempt = 0;
  priority = priority;
  scheduled_at = scheduled_at;
  leased_by = none;
  leased_at = none;
  lease_expires_at = none;
  started_at = none;
  finished_at = none;
  result = none;
  error = none;
  created_at = now;
}

-- INSERT INTO job_runs: the primary key and the reference to jobs.
unfoldable pub insert_run : ℕ → ℤ → ℤ → Statement JobRun
insert_run job priority scheduled_at now t db =
    if exists_where (run_is t.fresh_id) db.job_runs
    then err unique_violation
    else if exists_where (job_is job) db.jobs
    then (let row = new_run job priority scheduled_at t.fresh_id now in
        ok (row, record db { job_runs = db.job_runs ++ row ∷ [] }))
    else err foreign_key_violation

unfoldable pub create_run : ℕ → ℤ → ℤ → Query JobRun
unfolding insert_run
create_run job priority scheduled_at = exec (insert_run job priority scheduled_at)

-- UPDATE job_runs SET … WHERE …, with the number of rows affected.
unfoldable pub update_runs : (ℤ → JobRun → Bool) → (ℤ → JobRun → JobRun) → Statement ℕ
update_runs p f now t db = ok (
  count_where (p now) db.job_runs,
  record db { job_runs = update_where (p now) (f now) db.job_runs },
)

abbrev pub is_locked : ℕ → List ℕ → Bool
is_locked id ids = exists_where (λ x. x == id) ids

-- status = 'pending' AND scheduled_at <= now(), less what SKIP LOCKED passes over.
abbrev pub is_eligible : ℤ → List ℕ → JobRun → Bool
is_eligible now locked r =
    status_eq r.status pending && leb_ℤ r.scheduled_at now && not (is_locked r.id locked)

-- ORDER BY priority DESC, scheduled_at ASC
abbrev pub leased_before : JobRun → JobRun → Bool
leased_before a b =
    ltb_ℤ b.priority a.priority
    || (not (ltb_ℤ a.priority b.priority) && ltb_ℤ a.scheduled_at b.scheduled_at)

unfoldable pub next_pending : Statement JobRun
next_pending now t db =
    elim (first (order_by leased_before (rows_where (is_eligible now t.locked) db.job_runs))) [
      | none ↦ err no_rows
      | some r ↦ ok (r, db)
    ]

abbrev pub max_smallint : ℕ
max_smallint = 32767

abbrev pub leased_run : String → ℤ → ℤ → JobRun → JobRun
leased_run worker duration now r = record r {
  status = leased;
  leased_by = some worker;
  leased_at = some now;
  lease_expires_at = some (now +ℤ duration);
  attempt = r.attempt + 1;
}

-- `attempt = attempt + 1` fails where the SMALLINT column has no room for it.
unfoldable pub lease_run : String → ℤ → ℕ → Statement ℕ
unfolding update_runs
lease_run worker duration id now t db =
    if exists_where (λ r. run_is id r && not (ltb r.attempt max_smallint)) db.job_runs
    then err out_of_range
    else update_runs (λ _. run_is id) (leased_run worker duration) now t db

unfoldable pub claim : String → ℤ → ℤ → JobRun → Query (Ending (Option (JobRun × Job)))
claim worker duration now r = do
  _ ← exec_at now (lease_run worker duration r.id)
  run ← fetch_run primary r.id
  job ← fetch_job primary r.job_id
  return (commit (some (run, job)))

-- No row is no error: LeaseNextRun returns (nil, nil, nil), and the transaction rolls back.
unfoldable pub lease_found : String → ℤ → ℤ → Result JobRun → Query (Ending (Option (JobRun × Job)))
unfolding claim
lease_found worker duration now (ok r) = claim worker duration now r
lease_found worker duration now (err no_rows) = return (abandon none)
lease_found worker duration now (err e) = raise e

unfoldable pub lease_body : String → ℤ → ℤ → Query (Ending (Option (JobRun × Job)))
unfolding lease_found
lease_body worker duration now = do
  found ← attempt (exec_at now next_pending)
  lease_found worker duration now found

unfoldable pub lease_next_run : String → ℤ → Query (Option (JobRun × Job))
unfolding lease_body
lease_next_run worker duration = transaction (lease_body worker duration)

unfoldable pub extend_lease : ℕ → String → ℤ → Query (Unit {0})
unfolding update_runs
extend_lease id worker extend = affected (
    exec (
      update_runs (λ _ r. run_is id r && text_is r.leased_by worker)
        (λ now r. record r { lease_expires_at = some (now +ℤ extend) })))

abbrev pub running_run : ℤ → JobRun → JobRun
running_run now r = record r { status = running; started_at = some now }

unfoldable pub mark_running : ℕ → Query (Unit {0})
unfolding update_runs
mark_running id = affected (exec (update_runs (λ _. run_is id) running_run))

abbrev pub completed_run : Option Fields → ℤ → JobRun → JobRun
completed_run result now r = record r {
  status = succeeded;
  finished_at = some now;
  result = result;
}

-- An UPDATE that Postgres refuses.
abbrev pub refused_json : Statement ℕ
refused_json now t db = err invalid_json

unfoldable pub complete_run : ℕ → Option Fields → Query (Unit {0})
unfolding update_runs fits_jsonb
complete_run id result = affected (
    if fits_jsonb result
    then exec (update_runs (λ _. run_is id) (completed_run result))
    else exec refused_json)

abbrev pub requeued_run : String → ℤ → ℤ → JobRun → JobRun
requeued_run message backoff now r = record r {
  status = pending;
  scheduled_at = now +ℤ backoff;
  error = some message;
  leased_by = none;
  leased_at = none;
  lease_expires_at = none;
}

abbrev pub failed_run : String → ℤ → JobRun → JobRun
failed_run message now r = record r {
  status = failed;
  finished_at = some now;
  error = some message;
}

unfoldable pub fail_run : ℕ → String → Bool → ℤ → Query (Unit {0})
unfolding update_runs
fail_run id message requeue backoff = affected (
    if requeue
    then exec (update_runs (λ _. run_is id) (requeued_run message backoff))
    else exec (update_runs (λ _. run_is id) (failed_run message)))

abbrev or_null : Option Fields → Value
or_null none = null
or_null (some fs) = object fs

abbrev text_or_null : Option String → Value
text_or_null none = null
text_or_null (some s) = text s

-- map[string]any{"result": run.Result, "error": run.Error}
abbrev pub dead_payload : JobRun → Fields
dead_payload r = field "error" (text_or_null r.error) (field "result" (or_null r.result) empty)

-- INSERT INTO dead_letters: the reference to job_runs and the primary key.
unfoldable pub insert_dead_letter : ℕ → String → Fields → Statement (Unit {0})
insert_dead_letter run reason payload now t db =
    if exists_where (λ (d : DeadLetter). d.id == t.fresh_id) db.dead_letters
    then err unique_violation
    else if exists_where (run_is run) db.job_runs
    then ok (
      tt,
      record db {
        dead_letters =
            db.dead_letters
            ++ record {
              id = t.fresh_id;
              job_run_id = run;
              reason = reason;
              payload = payload;
              created_at = now;
            }
              ∷ [];
      },
    )
    else err foreign_key_violation

abbrev pub dead_run : ℤ → JobRun → JobRun
dead_run now r = record r { status = RunStatus.dead }

unfoldable pub mark_dead_body : ℕ → String → ℤ → Query (Ending (Unit {0}))
unfolding update_runs
mark_dead_body id reason now = do
  run ← or_not_found (fetch_run primary id)
  exec_at now (insert_dead_letter id reason (dead_payload run))
  _ ← exec_at now (update_runs (λ _. run_is id) dead_run)
  return (commit tt)

unfoldable pub mark_dead : ℕ → String → Query (Unit {0})
unfolding mark_dead_body
mark_dead id reason = transaction (mark_dead_body id reason)

-- lease_expires_at < now(): NULL is before nothing.
abbrev pub expired : ℤ → Option ℤ → Bool
expired now none = false
expired now (some t) = ltb_ℤ t now

abbrev pub is_reclaimable : ℤ → JobRun → Bool
is_reclaimable now r =
    (status_eq r.status leased || status_eq r.status running) && expired now r.lease_expires_at

abbrev pub reclaimed_run : ℤ → JobRun → JobRun
reclaimed_run now r = record r {
  status = pending;
  leased_by = none;
  leased_at = none;
  lease_expires_at = none;
}

-- The number of rows that RETURNING gives back.
unfoldable pub reclaim_expired_leases : Query ℕ
unfolding update_runs
reclaim_expired_leases = exec (update_runs is_reclaimable reclaimed_run)

unfoldable pub get_run : ℕ → Query JobRun
unfolding fetch_run
get_run id = or_not_found (fetch_run reader id)

unfoldable pub list_job_runs : ℕ → ℕ → Query (List JobRun)
list_job_runs job limit =
    select reader (λ db. ok (take limit (order_by newer_run (rows_where (run_of job) db.job_runs))))

unfoldable pub count_pending_runs : Query ℕ
count_pending_runs =
    select reader (λ db. ok (count_where (λ r. status_eq r.status pending) db.job_runs))
