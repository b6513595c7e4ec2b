-- ===== src/Api/Validity.antt =====
-- The handlers and the invariant of the database.
use taskflow.Common.{ℕ, String, ◌≡◌, Bool, true, false, Option, none, some, if◌then◌else◌}
use taskflow.Model.{Job, JobStatus, NewJobInput}
use taskflow.Store.Tables.{Database}
use taskflow.Store.Query.{not_found, Result, ok, err, World, Query}
use taskflow.Store.Ensures.{Keeps}
use taskflow.Store.Reads.{read_rules}
use taskflow.Store.Service.{postgres}
use taskflow.Store.Valid.{IsValid}
use taskflow.Store.Valid.Calls.{create_job-Keeps, update_job_status-Keeps}
use taskflow.Scheduler.Schedule.{Cron}
use taskflow.Api.Http.{Request, Response, Body}
use taskflow.Api.Handlers
use taskflow.Api.Contract.{Responds, Responds-reply, Responds-call, HasReplica}
use taskflow.Api.Router.{
  Server, Endpoint, Root, Instant, Running, Found, matched, no_route, no_method, create_job,
  list_jobs, get_job, pause_job, resume_job, list_job_runs, get_run, list_workers, healthz, metrics,
  v1, client_ip, run_found, routes, behind_auth, behind_limiter, v1_handler, dispatch,
}
use taskflow.Api.Limiter.{allow}
use taskflow.Api.Auth.{jwt_auth}

-- The response may be any.
abbrev Preserves : Option Database → (Database → Type 0) → Handlers.Respond World → Type 0
Preserves R P h = Responds (HasReplica R) P h (λ _. P)

module _ {R : Option Database} {P : Database → Type 0} where
  reply-Preserves : (r : Response) → Preserves R P (Handlers.reply r)
  reply-Preserves r = Responds-reply r (λ d p. p)

  call-Preserves :
      {A : Type 0} (q : Query A) (f : Result A → Handlers.Respond World)
      → Keeps R P q
      → ((r : Result A) → Preserves R P (f r))
      → Preserves R P (Handlers.call q f)
  call-Preserves q f h k = Responds-call q f h (λ a. k (ok a)) (λ x. k (err x))

  created-Preserves : (r : Result Job) → Preserves R P (Handlers.created r)
  created-Preserves (ok job) = reply-Preserves _
  created-Preserves (err x) = reply-Preserves _

  listed-Preserves :
      {A : Type 0} (body : A → Body) (r : Result A) → Preserves R P (Handlers.listed body r)
  listed-Preserves body (ok a) = reply-Preserves _
  listed-Preserves body (err x) = reply-Preserves _

  not_found_or-Preserves :
      {A : Type 0} (missing : String) (body : A → Body) (r : Result A)
      → Preserves R P (Handlers.not_found_or missing body r)
  not_found_or-Preserves missing body (ok a) = reply-Preserves _
  not_found_or-Preserves missing body (err not_found) = reply-Preserves _
  not_found_or-Preserves missing body (err x) = reply-Preserves _

  if-Preserves :
      (b : Bool) (g h : Handlers.Respond World)
      → Preserves R P g
      → Preserves R P h
      → Preserves R P (if b then g else h)
  if-Preserves true g h p q = p
  if-Preserves false g h p q = q

  by_id-Keeps :
      {A : Type 0} (id : Option ℕ) (q : ℕ → Query A)
      → ((i : ℕ) → Keeps R P (q i))
      → Keeps R P (Handlers.by_id id q)
  by_id-Keeps none q h = record { at = λ w k p. (k, p) }
  by_id-Keeps (some i) q h = h i

ruleset response_rules = (
  read_rules, create_job-Keeps, update_job_status-Keeps, by_id-Keeps, reply-Preserves,
  call-Preserves, created-Preserves, if-Preserves, listed-Preserves, not_found_or-Preserves,
)

module _ {R : Option Database} (collates_before : String → String → Bool) where
  submit-Preserves :
      (input : NewJobInput) → Preserves R IsValid (Handlers.submit (postgres collates_before) input)
  unfolding Handlers.submit
  submit-Preserves input = search response_rules

  existing_or-Preserves :
      (input : NewJobInput) (r : Result Job)
      → Preserves R IsValid (Handlers.existing_or (postgres collates_before) input r)
  existing_or-Preserves input (ok job) = reply-Preserves _
  existing_or-Preserves input (err not_found) = submit-Preserves input
  existing_or-Preserves input (err x) = reply-Preserves _

  create_checked-Preserves :
      (input : NewJobInput) (key : Option String)
      → Preserves R IsValid (Handlers.create_checked (postgres collates_before) input key)
  unfolding Handlers.create_checked
  create_checked-Preserves input none = submit-Preserves input
  create_checked-Preserves input (some key) =
      search (response_rules, submit-Preserves, existing_or-Preserves)

  create_if-Preserves :
      (checked : Handlers.Checked)
      → Preserves R IsValid (Handlers.create_if (postgres collates_before) checked)
  create_if-Preserves (Handlers.accepted input) =
      create_checked-Preserves input input.idempotency_key
  create_if-Preserves (Handlers.rejected text) = reply-Preserves _

  create_decoded-Preserves :
      (c : Cron) (input : Option NewJobInput)
      → Preserves R IsValid (Handlers.create_decoded (postgres collates_before) c input)
  unfolding Handlers.create_decoded
  create_decoded-Preserves c none = reply-Preserves _
  create_decoded-Preserves c (some input) = create_if-Preserves (Handlers.validate c input)

  list_from-Preserves :
      (status : Option JobStatus) (limit offset : Option ℕ)
      → Preserves R IsValid (Handlers.list_from (postgres collates_before) status limit offset)
  list_from-Preserves status none offset = reply-Preserves _
  list_from-Preserves status (some limit) none = reply-Preserves _
  list_from-Preserves status (some limit) (some offset) = search response_rules

  list_with-Preserves :
      (status : Option (Option JobStatus)) (r : Request)
      → Preserves R IsValid (Handlers.list_with (postgres collates_before) status r)
  list_with-Preserves none r = reply-Preserves _
  list_with-Preserves (some status) r = list_from-Preserves status _ _

  updated-Preserves :
      (id : Option ℕ) (r : Result (Unit {0}))
      → Preserves R IsValid (Handlers.updated (postgres collates_before) id r)
  updated-Preserves id (ok u) = search response_rules
  updated-Preserves id (err not_found) = reply-Preserves _
  updated-Preserves id (err x) = reply-Preserves _

  list_runs_to-Preserves :
      (id limit : Option ℕ)
      → Preserves R IsValid (Handlers.list_runs_to (postgres collates_before) id limit)
  list_runs_to-Preserves id none = reply-Preserves _
  list_runs_to-Preserves id (some limit) = search response_rules

  create_job-Preserves :
      (c : Cron) (decode : ℕ → String → Option NewJobInput) (r : Request)
      → Preserves R IsValid (Handlers.create_job (postgres collates_before) c decode r)
  unfolding Handlers.create_job
  create_job-Preserves c decode r = create_decoded-Preserves c _

  list_jobs-Preserves :
      (r : Request) → Preserves R IsValid (Handlers.list_jobs (postgres collates_before) r)
  unfolding Handlers.list_jobs
  list_jobs-Preserves r = list_with-Preserves _ r

  get_job-Preserves :
      (id : Option ℕ) → Preserves R IsValid (Handlers.get_job (postgres collates_before) id)
  unfolding Handlers.get_job
  get_job-Preserves id = search response_rules

  update_job_status-Preserves :
      (id : Option ℕ) (status : JobStatus)
      → Preserves R IsValid (Handlers.update_job_status (postgres collates_before) id status)
  unfolding Handlers.update_job_status
  update_job_status-Preserves id status = search (response_rules, updated-Preserves)

  list_job_runs-Preserves :
      (id : Option ℕ) (r : Request)
      → Preserves R IsValid (Handlers.list_job_runs (postgres collates_before) id r)
  unfolding Handlers.list_job_runs
  list_job_runs-Preserves id r = list_runs_to-Preserves id _

  get_run-Preserves :
      (id : Option ℕ) → Preserves R IsValid (Handlers.get_run (postgres collates_before) id)
  unfolding Handlers.get_run
  get_run-Preserves id = search response_rules

  list_workers-Preserves : Preserves R IsValid (Handlers.list_workers (postgres collates_before))
  unfolding Handlers.list_workers
  list_workers-Preserves = search response_rules

module _ {R : Option Database} (collates_before : String → String → Bool) (srv : Server) where
  run_found-Preserves :
      (found : Found Endpoint) (r : Request)
      → Preserves R IsValid (run_found (postgres collates_before) srv found r)
  unfolding Handlers.pause_job Handlers.resume_job
  run_found-Preserves no_route r = reply-Preserves _
  run_found-Preserves no_method r = reply-Preserves _
  run_found-Preserves (matched create_job id) r = create_job-Preserves collates_before _ _ r
  run_found-Preserves (matched list_jobs id) r = list_jobs-Preserves collates_before r
  run_found-Preserves (matched get_job id) r = get_job-Preserves collates_before _
  run_found-Preserves (matched pause_job id) r =
      update_job_status-Preserves collates_before (srv.parse_id id) _
  run_found-Preserves (matched resume_job id) r =
      update_job_status-Preserves collates_before (srv.parse_id id) _
  run_found-Preserves (matched list_job_runs id) r = list_job_runs-Preserves collates_before _ r
  run_found-Preserves (matched get_run id) r = get_run-Preserves collates_before _
  run_found-Preserves (matched list_workers id) r = list_workers-Preserves collates_before

  behind_auth-Preserves :
      (refusal : Option Response) (r : Request)
      → Preserves R IsValid (behind_auth (postgres collates_before) srv refusal r)
  unfolding routes
  behind_auth-Preserves none r = run_found-Preserves _ r
  behind_auth-Preserves (some refusal) r = reply-Preserves refusal

  behind_limiter-Preserves :
      (passes : Bool) (t : Instant) (r : Request)
      → Preserves R IsValid (behind_limiter (postgres collates_before) srv passes t r)
  behind_limiter-Preserves true t r =
      behind_auth-Preserves (jwt_auth srv.jwt srv.jwt_secret t.wall r) r
  behind_limiter-Preserves false t r = reply-Preserves _

  pub dispatch-IsValid :
      (found : Found Root) (t : Instant) (r : Request) (st : Running World)
      → st.world.replica ≡ R
      → IsValid st.world.db
      → let st' = (dispatch (postgres collates_before) srv found t r st).1 in
        HasReplica R st'.world × IsValid st'.world.db
  unfolding v1_handler
  dispatch-IsValid no_route t r st k v = (k, v)
  dispatch-IsValid no_method t r st k v = (k, v)
  dispatch-IsValid (matched healthz id) t r st k v = (k, v)
  dispatch-IsValid (matched metrics id) t r st k v = (k, v)
  dispatch-IsValid (matched v1 id) t r st k v =
      (behind_limiter-Preserves (allow (client_ip srv.split_host_port r) t.monotonic st.limiter).0 t
          r).at
        st.world k v
