-- ===== src/Api/Tests.antt =====
-- Concrete requests, a server over an empty database, and clients of its limiter.
use Prim.Native.String.{◌++◌}
use taskflow.Common.{
  length, rows_where, exists_where, ℕ, ◌+◌, ◌*◌, ◌-◌, ◌≤◌, ℤ, pos, ◌+ℤ◌, ◌≤ℤ◌, String, str_eq, ◌≡◌,
  ◌≢◌, refl, sym, subst, Bool-cases, str_eq_iff, inr, ◌⊎◌, Bool, true, false, ◌&&◌, List, [], ◌∷◌,
  Option, none, some, arith, ◌<ℤ◌, +ℤ_parts, inl, if◌then◌else◌,
}
use taskflow.Model.{NewJobInput, empty}
use taskflow.Store.Query.{
  began, drawn, World, delivered, lost, transaction, round_trip, select, source, read_pool, exec_at,
  on_error, ◌>>=◌, return, raise,
}
use taskflow.Store.Jobs
use taskflow.Store.History.{Call, empty_database, empty_database-IsValid}
use taskflow.Store.Valid.{IsValid}
use taskflow.Store.Service.{postgres}
use taskflow.Scheduler.Schedule.{Cron}
use taskflow.Api.Text.{is_empty, after_prefix, trim_space, trim_left, trim_right}
use taskflow.Api.Http.{Request, Response, write_error}
use taskflow.Api.Handlers
use taskflow.Api.Limiter.{token, new_rate_limiter, bucket_of, allow}
use taskflow.Api.Limiter.Quota.{Arrival, admitted, admitted-le, allow-waited}
use taskflow.Api.Auth.{Jwt, bearer, jwt_auth, mint_token}
use taskflow.Api.Auth.Minting.{IsCompact, SignsTokens, jwt_auth-mint_token}
use taskflow.Api.Router.{Chi, matched, v1, create_job, Server, Instant, new_running, serve}
use taskflow.Api.Contract.{Responds, HasReplica}
use taskflow.Api.Creation.{CreateAnswer, submitted, create_job-Answers}
use taskflow.Api.Retry.{Retried, create_job-retry}
use taskflow.Api.Listing.{Always, Bounded, listings-Bounded}
use taskflow.Api.System.{request, call, run_system, run_system-IsValid}
use taskflow.Api.Access.{HasNoToken, serve-unauthorised, serve-refuses}

-- Three requests of one client at once and one of another, on a limiter with a burst of two.
abbrev burst_of_three : List Arrival
burst_of_three = ("a", 0) ∷ ("a", 0) ∷ ("b", 0) ∷ ("a", 0) ∷ ("a", token) ∷ []

admitted-le_example :
    admitted "a" burst_of_three (new_rate_limiter 1 2) * token ≤ 2 * token + (token - 0) * 1
unfolding new_rate_limiter bucket_of
admitted-le_example =
    admitted-le "a" 0 token burst_of_three (new_rate_limiter 1 2)
      (omega arith, (omega arith, (omega arith, (omega arith, (omega arith, omega arith))))) tt

three_pass : admitted "a" burst_of_three (new_rate_limiter 1 2) ≡ 3
unfolding admitted allow new_rate_limiter
three_pass = refl

allow-waited_example : (allow "a" (2 * token) (new_rate_limiter 1 1)).0 ≡ true
unfolding new_rate_limiter bucket_of
allow-waited_example =
    allow-waited "a" 0 (2 * token) (new_rate_limiter 1 1) (omega arith) tt (omega arith)

-- One text is the token of one key, and does not expire.
abbrev accepts : Option String → String → Bool
accepts none text = false
accepts (some key) text = str_eq key "s" && str_eq text "t"

abbrev one_token : Jwt
one_token = record {
  parse = λ methods key now text. accepts (key true) text;
  signed = λ method claims key. if str_eq key "s" then some "t" else none;
}

signed_text :
    (key text : String)
    → (if str_eq key "s" then some "t" else none) ≡ some text
    → (key ≡ "s") × (text ≡ "t")
signed_text key text e = elim (Bool-cases (str_eq key "s")) [
  | inl h ↦ ((str_eq_iff key "s").0 h, cc (rw h at e))
  | inr h ↦ cc (rw h at e)
]

one_token-SignsTokens : SignsTokens one_token
one_token-SignsTokens = record {
  written = λ claims key text e.
      let (_, t) = signed_text key text e in
      subst (λ x. (is_empty x ≡ false) × IsCompact x) (sym t) (refl, (refl, tt));
  valid = λ claims key text key_of now e k h l.
      let (s, t) = signed_text key text e in rw (k) (rw (s, t) refl);
}

abbrev send : String → Request
send authorization = record {
  method = "POST";
  path = "/v1/jobs";
  authorization = authorization;
  remote_addr = "10.0.0.1:99";
  status = "";
  limit = "";
  offset = "";
  body = "{}";
}

minted : mint_token one_token "s" "admin" (pos 9000000000) (pos 0) ≡ some "t"
unfolding mint_token
minted = refl

unexpired : pos 5 +ℤ pos 1000000000 ≤ℤ pos 0 +ℤ pos 9000000000
unfolding ◌+ℤ◌
unexpired = omega arith

jwt_auth-mint_token_example : jwt_auth one_token "s" (pos 5) (send (bearer ++ "t")) ≡ none
jwt_auth-mint_token_example =
    jwt_auth-mint_token one_token "s" "admin" "t" (pos 9000000000) (pos 0) (pos 5)
      (send (bearer ++ "t")) one_token-SignsTokens minted (omega arith) unexpired refl

next_minute : (s : ℕ) (t : ℤ) → t <ℤ t +ℤ pos (60 + s)
next_minute s t = omega (arith, +ℤ_parts t (pos (60 + s)))

abbrev minutely : Cron
minutely = record {
  Schedule = ℕ;
  parse_standard = λ _. some 0;
  next = λ s t. t +ℤ pos (60 + s);
  next_later = λ s t. inl (next_minute s t);
}

-- max_attempts and timeout_seconds are left to their defaults.
abbrev sample_input : NewJobInput
sample_input = record {
  name = " echo";
  payload = empty;
  cron_expr = none;
  priority = pos 0;
  max_attempts = pos 0;
  timeout_seconds = pos 0;
  idempotency_key = some "k";
  depends_on = [];
}

abbrev decoded : ℕ → String → Option NewJobInput
decoded limit body = some sample_input

-- Names sort as they come.
abbrev unordered : String → String → Bool
unordered a b = false

abbrev only_create : Chi
only_create = record {
  find_root = λ routes method path. matched v1 "";
  find_v1 = λ routes method path. matched create_job "";
  not_found = write_error 404 "";
  not_allowed = write_error 405 "";
}

abbrev server : Server
server = record {
  jwt_secret = "s";
  jwt = one_token;
  chi = only_create;
  cron = minutely;
  split_host_port = λ addr. some "10.0.0.1";
  decode = decoded;
  parse_id = λ id. none;
}

-- The reply to COMMIT, the third of CreateJob's round trips after that of the lookup, is lost.
abbrev before : World
before = record {
  db = empty_database;
  replica = none;
  now = pos 0;
  script =
      record { reply = delivered; elapsed = 1; fresh_id = 0; locked = [] }
      ∷ record { reply = delivered; elapsed = 1; fresh_id = 0; locked = [] }
      ∷ record { reply = delivered; elapsed = 1; fresh_id = 7; locked = [] }
      ∷ record { reply = lost; elapsed = 1; fresh_id = 0; locked = [] }
      ∷ [];
}

abbrev at_noon : Instant
at_noon = record { wall = pos 0; monotonic = 0 }

no_header : HasNoToken server at_noon (send "")
unfolding after_prefix
no_header text e = absurd (cc e)

run_system-IsValid_example :
    IsValid
      (run_system unordered server
        (request at_noon (send (bearer ++ "t")) ∷ call (Call.create_run 7 (pos 0) (pos 0)) ∷ [])
        (new_running 1 1 before)).world.db
run_system-IsValid_example =
    run_system-IsValid unordered server
      (request at_noon (send (bearer ++ "t")) ∷ call (Call.create_run 7 (pos 0) (pos 0)) ∷ [])
      (new_running 1 1 before) empty_database-IsValid

serve-unauthorised_example :
    (serve (postgres unordered) server at_noon (send "") (new_running 1 1 before)).1.world ≡ before
serve-unauthorised_example =
    serve-unauthorised (postgres unordered) server at_noon (send "") (new_running 1 1 before)
      no_header

serve-refuses_example :
    let code =
      (serve (postgres unordered) server at_noon (send "") (new_running 1 1 before)).0.code in
    (code ≡ 401) ⊎ (code ≡ 429)
serve-refuses_example =
    serve-refuses (postgres unordered) server at_noon (send "") (new_running 1 1 before) ""
      no_header refl

create_job-Answers_example :
    let (answer, w) = Handlers.create_job (postgres unordered) minutely decoded (send "") before in
    let s = submitted sample_input.idempotency_key before in
    CreateAnswer minutely sample_input empty_database (drawn s) (began s) answer w.db
create_job-Answers_example =
    create_job-Answers unordered minutely sample_input decoded (send "") before refl

listings-Bounded_example :
    Responds (HasReplica none) Always (Handlers.list_jobs (postgres unordered) (send "")) Bounded
    × Responds
        (HasReplica none)
        Always
        (Handlers.list_job_runs (postgres unordered) (some 7) (send ""))
        Bounded
listings-Bounded_example = listings-Bounded unordered (send "") (some 7)

abbrev attempted : Response × World
attempted = Handlers.create_job (postgres unordered) minutely decoded (send "") before

abbrev afterwards : World
afterwards = record { db = attempted.1.db; replica = none; now = pos 9; script = [] }

one_job : length attempted.1.db.jobs ≡ 1
unfolding Handlers.create_job Handlers.create_decoded Handlers.validate Handlers.create_checked
    Handlers.submit trim_space trim_left trim_right Jobs.create_job Jobs.create_job_body
    Jobs.insert_job Jobs.insert_dependencies Jobs.get_job_by_idempotency_key
    Jobs.fetch_job_by_idempotency_key Jobs.scan_job_row Jobs.fetch_dependencies transaction
    round_trip select source read_pool exec_at on_error ◌>>=◌ return raise rows_where exists_where
one_job = refl

committed : attempted.1.db ≢ before.db
committed e = cc (one_job, e)

create_job-retry_example :
    Retried attempted
      (Handlers.create_job (postgres unordered) minutely decoded (send "") afterwards)
create_job-retry_example =
    create_job-retry unordered minutely sample_input "k" refl refl decoded (send "") before
      afterwards refl empty_database-IsValid committed
      (record { alone = refl; replies = tt; rest = tt }) refl
