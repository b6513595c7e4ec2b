-- ===== src/Worker/Handlers/Tests.antt =====
-- The built-in handlers on a job that names a URL and seconds.
use taskflow.Common.{pos, [], ◌∷◌, none, some, ◌≡◌, refl, false, true, ltb}
use taskflow.Model.{Job, JobRun, active, leased, text, number, empty, field}
use taskflow.Worker.Pool.{returns, new_pool, register_handler, handler_of}
use taskflow.Worker.Handlers.{
  lookup, method_of, answered, Rest, Client, Clock, echo_handler, sleep_handler, http_call_handler,
  with_handlers,
}
use taskflow.Worker.Handlers.Sleeping.{Sleeps, sleeps_for, ends_after, sleep_handler-Sleeps}
use taskflow.Worker.Handlers.Calling.{Called, http_call_handler-Called}

abbrev job : Job
job = record {
  id = 7;
  name = "http_call";
  payload = field "seconds" (number "2") (field "url" (text "http://a") empty);
  cron_expr = none;
  priority = pos 0;
  max_attempts = pos 3;
  timeout_seconds = pos 30;
  status = active;
  idempotency_key = none;
  depends_on = [];
  created_at = pos 0;
  updated_at = pos 0;
}

abbrev run : JobRun
run = record {
  id = 9;
  job_id = 7;
  status = leased;
  attempt = 1;
  priority = pos 0;
  scheduled_at = pos 0;
  leased_by = none;
  leased_at = none;
  lease_expires_at = none;
  started_at = none;
  finished_at = none;
  result = none;
  error = none;
  created_at = pos 0;
}

abbrev clock : Clock
clock = record {
  lasts = λ s. pos 2000000000;
  one = "1";
  cancelled_after = λ start. none;
  picks_timer = λ start. false;
}

abbrev client : Client
client = record {
  exchange = λ method url start. answered "200" (104 ∷ 105 ∷ []) Rest.cut_off;
  elapsed = λ method url start. 5;
  cancelled = λ method url start. false;
  text_of = λ bytes. "hi";
}

sleep_handler-Sleeps_example :
    Sleeps
      (ltb (sleeps_for clock job) (ends_after clock job (pos 0)))
      clock
      job
      (sleep_handler clock job run (pos 0))
sleep_handler-Sleeps_example = sleep_handler-Sleeps clock job run (pos 0)

sleep_ends : Sleeps true clock job (sleep_handler clock job run (pos 0))
sleep_ends = sleep_handler-Sleeps clock job run (pos 0)

http_call_handler-Called_example :
    Called client
      (method_of job)
      (pos 0)
      (lookup "url" job.payload)
      (http_call_handler client job run (pos 0)).outcome
http_call_handler-Called_example = http_call_handler-Called client job run (pos 0)

call_answers :
    (http_call_handler client job run (pos 0)).outcome
    ≡ returns (some (field "status_code" (number "200") (field "body" (text "hi") empty)))
unfolding http_call_handler
call_answers = refl

echo_registered :
    handler_of "echo" (with_handlers clock client (new_pool "w" (pos 4) (pos 30) 1)).handlers
    ≡ some echo_handler
unfolding with_handlers register_handler new_pool handler_of
echo_registered = refl
