-- ===== src/Store/Jobs.antt =====
-- The operations of internal/store/postgres.go on jobs and their dependencies.
--
-- A payload is kept as the value that its JSONB text denotes: every `Fields` has such a text,
-- so that Marshal and Unmarshal do not fail. LIMIT and OFFSET are given numbers from 0 up.
use taskflow.Common.{
  ℕ, ℤ, String, Bool, true, false, ◌||◌, ◌&&◌, ◌==◌, if◌then◌else◌, List, [], ◌∷◌, ◌++◌, map,
  Option, none, some, str_eq, ltb_ℤ, take, drop, rows_where, count_where, exists_where,
  update_where, order_by,
}
use taskflow.Model.{Job, JobStatus, active, job_status_eq, NewJobInput}
use taskflow.Store.Tables.{JobRow, Dependency, Database}
use taskflow.Store.Query.{
  Error, no_rows, unique_violation, foreign_key_violation, not_found, idempotency_conflict, Result,
  ok, err, Query, return, raise, ◌>>=◌, ◌>>◌, on_error, Statement, exec_at, exec, Querier, reader,
  select, Ending, commit, transaction,
}

-- What QueryRow(…).Scan gives of the rows selected.
abbrev pub one_row : {A : Type 0} → List A → Result A
one_row [] = err no_rows
one_row (x ∷ xs) = ok x

-- `if errors.Is(err, pgx.ErrNoRows) { return nil, ErrNotFound }`
abbrev pub not_found_of : Error → Error
not_found_of no_rows = not_found
not_found_of e = e

abbrev pub or_not_found : {A : Type 0} → Query A → Query A
or_not_found q = on_error q (λ e. raise (not_found_of e))

-- `if tag.RowsAffected() == 0 { return ErrNotFound }`
abbrev pub affected : Query ℕ → Query (Unit {0})
affected q = do n ← q; if n == 0 then raise not_found else return tt

-- `column = $1`: NULL equals nothing.
abbrev pub text_is : Option String → String → Bool
text_is none s = false
text_is (some t) s = str_eq t s

abbrev pub same_key : Option String → JobRow → Bool
same_key none r = false
same_key (some k) r = text_is r.idempotency_key k

abbrev pub job_is : ℕ → JobRow → Bool
job_is id r = r.id == id

abbrev pub newer_job : JobRow → JobRow → Bool
newer_job a b = ltb_ℤ b.created_at a.created_at

abbrev pub job_of : JobRow → List ℕ → Job
job_of r deps = record {
  id = r.id;
  name = r.name;
  payload = r.payload;
  cron_expr = r.cron_expr;
  priority = r.priority;
  max_attempts = r.max_attempts;
  timeout_seconds = r.timeout_seconds;
  status = r.status;
  idempotency_key = r.idempotency_key;
  depends_on = deps;
  created_at = r.created_at;
  updated_at = r.updated_at;
}

abbrev pub dependencies_of : ℕ → Database → List ℕ
dependencies_of id db =
    map (λ r. r.depends_on_id) (rows_where (λ r. r.job_id == id) db.job_dependencies)

unfoldable pub fetch_dependencies : Querier → ℕ → Query (List ℕ)
fetch_dependencies q id = select q (λ db. ok (dependencies_of id db))

-- The row first, then a query for its dependencies.
unfoldable pub scan_job_row : Querier → Query JobRow → Query Job
unfolding fetch_dependencies
scan_job_row q row = do r ← row; deps ← fetch_dependencies q r.id; return (job_of r deps)

unfoldable pub fetch_job : Querier → ℕ → Query Job
unfolding scan_job_row
fetch_job q id = scan_job_row q (select q (λ db. one_row (rows_where (job_is id) db.jobs)))

unfoldable pub fetch_job_by_idempotency_key : Querier → String → Query Job
unfolding scan_job_row
fetch_job_by_idempotency_key q key =
    scan_job_row q (select q (λ db. one_row (rows_where (same_key (some key)) db.jobs)))

abbrev pub new_job_row : NewJobInput → ℕ → ℤ → JobRow
new_job_row input id now = record {
  id = id;
  name = input.name;
  payload = input.payload;
  cron_expr = input.cron_expr;
  priority = input.priority;
  max_attempts = input.max_attempts;
  timeout_seconds = input.timeout_seconds;
  status = active;
  idempotency_key = input.idempotency_key;
  created_at = now;
  updated_at = now;
}

-- INSERT INTO jobs: the primary key and the UNIQUE idempotency_key.
unfoldable pub insert_job : NewJobInput → Statement JobRow
insert_job input now t db =
    if exists_where (job_is t.fresh_id) db.jobs
      || exists_where (same_key input.idempotency_key) db.jobs
    then err unique_violation
    else let row = new_job_row input t.fresh_id now in
      ok (row, record db { jobs = db.jobs ++ row ∷ [] })

abbrev pub same_dependency : ℕ → ℕ → Dependency → Bool
same_dependency job dep r = (r.job_id == job) && (r.depends_on_id == dep)

-- INSERT INTO job_dependencies: both ends exist, and the pair is new.
unfoldable pub insert_dependency : ℕ → ℕ → Statement (Unit {0})
insert_dependency job dep now t db =
    if exists_where (same_dependency job dep) db.job_dependencies
    then err unique_violation
    else if exists_where (job_is job) db.jobs && exists_where (job_is dep) db.jobs
    then ok (
      tt,
      record db {
        job_dependencies = db.job_dependencies ++ record { job_id = job; depends_on_id = dep } ∷ [];
      },
    )
    else err foreign_key_violation

-- The loop over in.DependsOn.
unfoldable pub insert_dependencies : ℤ → ℕ → List ℕ → Query (Unit {0})
insert_dependencies now job [] = return tt
insert_dependencies now job (dep ∷ deps) =
    exec_at now (insert_dependency job dep) >> insert_dependencies now job deps

abbrev pub conflict_of : Error → Error
conflict_of unique_violation = idempotency_conflict
conflict_of e = e

unfoldable pub create_job_body : NewJobInput → ℤ → Query (Ending Job)
create_job_body input now = do
  row ← on_error (exec_at now (insert_job input)) (λ e. raise (conflict_of e))
  insert_dependencies now row.id input.depends_on
  return (commit (job_of row input.depends_on))

unfoldable pub create_job : NewJobInput → Query Job
unfolding create_job_body
create_job input = transaction (create_job_body input)

unfoldable pub get_job : ℕ → Query Job
unfolding fetch_job
get_job id = or_not_found (fetch_job reader id)

unfoldable pub get_job_by_idempotency_key : String → Query Job
unfolding fetch_job_by_idempotency_key
get_job_by_idempotency_key key = or_not_found (fetch_job_by_idempotency_key reader key)

abbrev pub has_job_status : Option JobStatus → JobRow → Bool
has_job_status none r = true
has_job_status (some s) r = job_status_eq r.status s

abbrev pub list_job_rows : Option JobStatus → ℕ → ℕ → Database → List JobRow
list_job_rows status limit offset db =
    take limit (drop offset (order_by newer_job (rows_where (has_job_status status) db.jobs)))

-- The second loop of ListJobs: a query a job.
unfoldable pub with_dependencies : List JobRow → Query (List Job)
unfolding fetch_dependencies
with_dependencies [] = return []
with_dependencies (r ∷ rs) = do
  deps ← fetch_dependencies reader r.id
  jobs ← with_dependencies rs
  return (job_of r deps ∷ jobs)

unfoldable pub list_jobs : Option JobStatus → ℕ → ℕ → Query (List Job)
unfolding with_dependencies
list_jobs status limit offset = do
  rows ← select reader (λ db. ok (list_job_rows status limit offset db))
  with_dependencies rows

abbrev pub with_status : JobStatus → ℤ → JobRow → JobRow
with_status status now r = record r { status = status; updated_at = now }

unfoldable pub set_job_status : ℕ → JobStatus → Statement ℕ
set_job_status id status now t db = ok (
  count_where (job_is id) db.jobs,
  record db { jobs = update_where (job_is id) (with_status status now) db.jobs },
)

unfoldable pub update_job_status : ℕ → JobStatus → Query (Unit {0})
unfolding set_job_status
update_job_status id status = affected (exec (set_job_status id status))

unfoldable pub list_dependencies : ℕ → Query (List ℕ)
unfolding fetch_dependencies
list_dependencies id = fetch_dependencies reader id
