-- ===== src/Api/Handlers.antt =====
-- internal/api/handlers.go: the handlers of the job, run and worker routes.
--
-- `decode` is encoding/json's Decoder on the body behind MaxBytesReader, `parse_id` Postgres' input
-- function of UUID, which a store method applies to an id before it does anything else.
use taskflow.Common.{
  ℕ, zero, ◌*◌, ℤ, pos, ltb_ℤ, ltb, String, str_eq, Bool, true, not, if◌then◌else◌, Option, none,
  some, is_some,
}
use taskflow.Model.{Job, JobStatus, active, paused, archived, NewJobInput}
use taskflow.Store.Query.{Error, not_found, idempotency_conflict, malformed_id, Result, ok, err}
use taskflow.Store.Service.{Action, Service}
use taskflow.Scheduler.Schedule.{Cron}
use taskflow.Api.Text.{trim_space, is_empty, atoi}
use taskflow.Api.Http.{Request, Response, Body, write_json, write_error, server_error}

abbrev pub Respond : Type 0 → Type 0
Respond W = W → Response × W

-- `v, err := q(…)`, and what comes after it.
abbrev pub call : {W A : Type 0} → Action W A → (Result A → Respond W) → Respond W
call q f w = let (r, w') = q w in f r w'

abbrev pub reply : {W : Type 0} → Response → Respond W
reply r w = (r, w)

abbrev pub max_create_job_body_bytes : ℕ
max_create_job_body_bytes = 64 * 1024

abbrev pub default_list_limit : ℕ
default_list_limit = 50

abbrev pub max_list_limit : ℕ
max_list_limit = 200

-- `none`: "invalid limit" has been written.
abbrev pub capped : Option ℤ → Option ℕ
capped (some (pos n)) = some (if ltb max_list_limit n then max_list_limit else n)
capped _ = none

unfoldable pub parse_limit : String → Option ℕ
parse_limit raw = if is_empty raw then some default_list_limit else capped (atoi raw)

abbrev natural : Option ℤ → Option ℕ
natural (some (pos n)) = some n
natural _ = none

unfoldable pub parse_offset : String → Option ℕ
parse_offset raw = if is_empty raw then some 0 else natural (atoi raw)

-- The default for 0, nothing below 1.
abbrev pub at_least_one : (default : ℕ) → ℤ → Option ℤ
at_least_one default (pos zero) = some (pos default)
at_least_one default v = if ltb_ℤ v (pos 1) then none else some v

pub data Checked : Type 0 where
  accepted : NewJobInput → Checked
  rejected : String → Checked

abbrev pub with_timeout : NewJobInput → Option ℤ → Checked
with_timeout input none = rejected "timeout_seconds must be >= 1"
with_timeout input (some n) = accepted (record input { timeout_seconds = n })

abbrev pub with_attempts : NewJobInput → Option ℤ → Checked
with_attempts input none = rejected "max_attempts must be >= 1"
with_attempts input (some n) =
    with_timeout (record input { max_attempts = n }) (at_least_one 300 input.timeout_seconds)

abbrev pub parses : Cron → Option String → Bool
parses c none = true
parses c (some expr) = is_some (c.parse_standard expr)

-- createJob, from the check of the name to that of the timeout.
unfoldable pub validate : Cron → NewJobInput → Checked
validate c input =
    if is_empty (trim_space input.name)
    then rejected "name is required"
    else if not (parses c input.cron_expr)
    then rejected "invalid cron_expr"
    else with_attempts input (at_least_one 5 input.max_attempts)

abbrev pub creation_error : Error → Response
creation_error idempotency_conflict = write_error 409 "idempotency key already used"
creation_error e = server_error

abbrev pub created : {W : Type 0} → Result Job → Respond W
created (ok job) = reply (write_json 201 (Body.job job))
created (err e) = reply (creation_error e)

abbrev pub not_found_or : {W A : Type 0} → String → (A → Body) → Result A → Respond W
not_found_or missing body (ok a) = reply (write_json 200 (body a))
not_found_or missing body (err not_found) = reply (write_error 404 missing)
not_found_or missing body (err e) = reply server_error

abbrev pub listed : {W A : Type 0} → (A → Body) → Result A → Respond W
listed body (ok a) = reply (write_json 200 (body a))
listed body (err e) = reply server_error

-- `none`: "invalid status" is written. No parameter is no filter.
abbrev pub parse_status : String → Option (Option JobStatus)
parse_status s =
    if is_empty s
    then some none
    else if str_eq s "active"
    then some (some active)
    else if str_eq s "paused"
    then some (some paused)
    else if str_eq s "archived"
    then some (some archived)
    else none

-- A method that is given a text which is no UUID fails.
abbrev pub by_id : {W A : Type 0} → Option ℕ → (ℕ → Action W A) → Action W A
by_id none q = λ w. (err malformed_id, w)
by_id (some id) q = q id

module _ {W : Type 0} (s : Service W) where
  unfoldable pub submit : NewJobInput → Respond W
  submit input = call (s.create_job input) created

  -- After GetJobByIdempotencyKey.
  abbrev pub existing_or : NewJobInput → Result Job → Respond W
  existing_or input (ok existing) = reply (write_json 200 (Body.job existing))
  existing_or input (err not_found) = submit input
  existing_or input (err e) = reply server_error

  unfoldable pub create_checked : NewJobInput → Option String → Respond W
  unfolding submit
  create_checked input none = submit input
  create_checked input (some key) =
      if is_empty key
      then submit input
      else call (s.get_job_by_idempotency_key key) (existing_or input)

  abbrev pub create_if : Checked → Respond W
  create_if (accepted input) = create_checked input input.idempotency_key
  create_if (rejected text) = reply (write_error 400 text)

  unfoldable pub create_decoded : Cron → Option NewJobInput → Respond W
  unfolding validate create_checked
  create_decoded c none = reply (write_error 400 "invalid request body")
  create_decoded c (some input) = create_if (validate c input)

  unfoldable pub create_job :
      Cron → (decode : ℕ → String → Option NewJobInput) → Request → Respond W
  unfolding create_decoded
  create_job c decode r = create_decoded c (decode max_create_job_body_bytes r.body)

  abbrev pub list_from : Option JobStatus → Option ℕ → Option ℕ → Respond W
  list_from status none offset = reply (write_error 400 "invalid limit")
  list_from status (some limit) none = reply (write_error 400 "invalid offset")
  list_from status (some limit) (some offset) =
      call (s.list_jobs status limit offset) (listed Body.jobs)

  abbrev pub list_with : Option (Option JobStatus) → Request → Respond W
  list_with none r = reply (write_error 400 "invalid status")
  list_with (some status) r = list_from status (parse_limit r.limit) (parse_offset r.offset)

  unfoldable pub list_jobs : Request → Respond W
  unfolding parse_limit parse_offset
  list_jobs r = list_with (parse_status r.status) r

  unfoldable pub get_job : Option ℕ → Respond W
  get_job id = call (by_id id s.get_job) (not_found_or "job not found" Body.job)

  -- After UpdateJobStatus: here ErrNotFound of GetJob is a server error.
  abbrev pub updated : Option ℕ → Result (Unit {0}) → Respond W
  updated id (ok _) = call (by_id id s.get_job) (listed Body.job)
  updated id (err not_found) = reply (write_error 404 "job not found")
  updated id (err e) = reply server_error

  unfoldable pub update_job_status : Option ℕ → JobStatus → Respond W
  update_job_status id status = call (by_id id (λ i. s.update_job_status i status)) (updated id)

  unfoldable pub pause_job : Option ℕ → Respond W
  unfolding update_job_status
  pause_job id = update_job_status id paused

  unfoldable pub resume_job : Option ℕ → Respond W
  unfolding update_job_status
  resume_job id = update_job_status id active

  abbrev pub list_runs_to : Option ℕ → Option ℕ → Respond W
  list_runs_to id none = reply (write_error 400 "invalid limit")
  list_runs_to id (some limit) = call (by_id id (λ i. s.list_job_runs i limit)) (listed Body.runs)

  unfoldable pub list_job_runs : Option ℕ → Request → Respond W
  unfolding parse_limit
  list_job_runs id r = list_runs_to id (parse_limit r.limit)

  unfoldable pub get_run : Option ℕ → Respond W
  get_run id = call (by_id id s.get_run) (not_found_or "run not found" Body.run)

  unfoldable pub list_workers : Respond W
  list_workers = call s.list_workers (listed Body.workers)
