-- ===== src/Api/Router.antt =====
-- internal/api/router.go and clientIP of internal/api/ratelimit.go: the routes and the middleware
-- of /v1, from a request to its response.
--
-- `chi` is chi's choice among the routes of a router: the first argument of `find` lists them, the
-- others are the request's method and path; `not_found` and `not_allowed` are what it answers when
-- none fits. `split_host_port` is net.SplitHostPort's host.
-- Recoverer and requestLogger do not stand in the chain: no handler of the model panics, and the
-- log line and the histogram change nothing that a client sees.
use taskflow.Common.{ℕ, ℤ, String, Bool, true, false, List, [], ◌∷◌, Option, none, some}
use taskflow.Model.{NewJobInput}
use taskflow.Scheduler.Schedule.{Cron}
use taskflow.Store.Service.{Service}
use taskflow.Api.Http.{Request, Response, Body, write_json, write_error}
use taskflow.Api.Handlers
use taskflow.Api.Auth.{Jwt, jwt_auth}
use taskflow.Api.Limiter.{RateLimiter, new_rate_limiter, allow}

pub data Endpoint : Type 0 where
  create_job list_jobs get_job pause_job resume_job list_job_runs get_run list_workers : Endpoint

pub data Root : Type 0 where
  healthz metrics v1 : Root

pub record Route (E : Type 0) : Type 0 where
  -- Empty for a route of every method.
  pub method : String
  pub pattern : String
  pub endpoint : E

-- `matched` has the value of the URL parameter {id}, empty if the pattern has none.
pub data Found (E : Type 0) : Type 0 where
  matched : E → String → Found E
  no_route no_method : Found E

pub record Chi : Type 0 where
  pub find_root : List (Route Root) → (method path : String) → Found Root
  pub find_v1 : List (Route Endpoint) → (method path : String) → Found Endpoint
  pub not_found : Response
  pub not_allowed : Response

abbrev on : {E : Type 0} → String → String → E → Route E
on method pattern endpoint = record { method = method; pattern = pattern; endpoint = endpoint }

abbrev pub root_routes : List (Route Root)
root_routes = on "GET" "/healthz" healthz ∷ on "" "/metrics" metrics ∷ on "" "/v1" v1 ∷ []

abbrev pub v1_routes : List (Route Endpoint)
v1_routes =
    on "POST" "/jobs" create_job
    ∷ on "GET" "/jobs" list_jobs
    ∷ on "GET" "/jobs/{id}" get_job
    ∷ on "POST" "/jobs/{id}/pause" pause_job
    ∷ on "POST" "/jobs/{id}/resume" resume_job
    ∷ on "GET" "/jobs/{id}/runs" list_job_runs
    ∷ on "GET" "/runs/{id}" get_run
    ∷ on "GET" "/workers" list_workers
    ∷ []

abbrev or_address : String → Option String → String
or_address addr none = addr
or_address addr (some host) = host

abbrev pub client_ip : (split_host_port : String → Option String) → Request → String
client_ip split_host_port r = or_address r.remote_addr (split_host_port r.remote_addr)

-- The secret that NewRouter is given, and what the middleware and the handlers use of other
-- packages.
pub record Server : Type 1 where
  pub jwt_secret : String
  pub jwt : Jwt
  pub chi : Chi
  pub cron : Cron
  pub split_host_port : String → Option String
  pub decode : (limit : ℕ) → String → Option NewJobInput
  pub parse_id : String → Option ℕ

pub record Running (W : Type 0) : Type 0 where
  pub limiter : RateLimiter
  pub world : W

-- The instant of a request: the wall clock and the monotonic clock, in nanoseconds.
pub record Instant : Type 0 where
  pub wall : ℤ
  pub monotonic : ℕ

module _ {W : Type 0} (s : Service W) (srv : Server) where
  abbrev pub run_endpoint : Endpoint → String → Request → Handlers.Respond W
  run_endpoint create_job id r = Handlers.create_job s srv.cron srv.decode r
  run_endpoint list_jobs id r = Handlers.list_jobs s r
  run_endpoint get_job id r = Handlers.get_job s (srv.parse_id id)
  run_endpoint pause_job id r = Handlers.pause_job s (srv.parse_id id)
  run_endpoint resume_job id r = Handlers.resume_job s (srv.parse_id id)
  run_endpoint list_job_runs id r = Handlers.list_job_runs s (srv.parse_id id) r
  run_endpoint get_run id r = Handlers.get_run s (srv.parse_id id)
  run_endpoint list_workers id r = Handlers.list_workers s

  abbrev pub run_found : Found Endpoint → Request → Handlers.Respond W
  run_found (matched e id) r = run_endpoint e id r
  run_found no_route r = Handlers.reply srv.chi.not_found
  run_found no_method r = Handlers.reply srv.chi.not_allowed

  -- What stands behind the middleware.
  unfoldable pub routes : Request → Handlers.Respond W
  routes r = run_found (srv.chi.find_v1 v1_routes r.method r.path) r

  abbrev pub behind_auth : Option Response → Request → Handlers.Respond W
  behind_auth none r = routes r
  behind_auth (some refusal) r = Handlers.reply refusal

  abbrev pub behind_limiter : Bool → Instant → Request → Handlers.Respond W
  behind_limiter true t r = behind_auth (jwt_auth srv.jwt srv.jwt_secret t.wall r) r
  behind_limiter false t r = Handlers.reply (write_error 429 "rate limit exceeded")

  unfoldable pub v1_handler : Instant → Request → Running W → Response × Running W
  unfolding routes jwt_auth allow
  v1_handler t r st =
      let (passes, limiter) = allow (client_ip srv.split_host_port r) t.monotonic st.limiter in
      let (response, world) = behind_limiter passes t r st.world in
      (response, record { limiter = limiter; world = world })

  abbrev pub dispatch : Found Root → Instant → Request → Running W → Response × Running W
  dispatch (matched healthz id) t r st = (write_json 200 Body.healthy, st)
  dispatch (matched metrics id) t r st = (write_json 200 Body.metrics, st)
  dispatch (matched v1 id) t r st = v1_handler t r st
  dispatch no_route t r st = (srv.chi.not_found, st)
  dispatch no_method t r st = (srv.chi.not_allowed, st)

  unfoldable pub serve : Instant → Request → Running W → Response × Running W
  unfolding v1_handler
  serve t r st = dispatch (srv.chi.find_root root_routes r.method r.path) t r st

-- NewRouter
abbrev pub new_running : {W : Type 0} → (rate_rps rate_burst : ℕ) → W → Running W
new_running rate_rps rate_burst w = record {
  limiter = new_rate_limiter rate_rps rate_burst;
  world = w;
}
