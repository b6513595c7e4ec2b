-- ===== src/Worker/Pool.antt =====
-- internal/worker/pool.go: the pool, its handlers, and the execution of one leased run.
--
-- A handler is any function from the job, the run and the time at which it starts to what it
-- answers, how long it takes, and whether the worker's context was cancelled before the run's
-- deadline. It does not reach the store.
use taskflow.Common.{
  ℕ, suc, ◌*◌, ◌-◌, ℤ, pos, negsuc, ◌+ℤ◌, leb_ℤ, ltb_ℤ, String, str_eq, Bool, true, false,
  if◌then◌else◌, List, [], ◌∷◌, Option, none, some,
}
use Prim.Native.String.{◌++◌ as concat}
use taskflow.Model.{Job, JobRun, RunStatus, succeeded, failed, Fields}
use taskflow.Store.Query.{ok, unavailable, Query, return, raise, ◌>>=◌, ◌>>◌, attempt, time_now}
use taskflow.Store.Runs.{mark_running, complete_run, fail_run, mark_dead}
use taskflow.Worker.Backoff.{backoff, second}

-- What a handler returns: a result to store, or an error with its message.
pub data Outcome : Type 0 where
  returns : Option Fields → Outcome
  fails : String → Outcome

pub record Answer : Type 0 where
  pub outcome : Outcome
  pub elapsed : ℕ
  pub cancelled : Bool

abbrev pub Handler : Type 0
Handler = Job → JobRun → ℤ → Answer

pub record Pool : Type 0 where
  pub worker_id : String
  pub concurrency : ℤ
  pub lease_duration : ℤ
  pub poll_interval : ℕ
  pub handlers : List (String × Handler)

unfoldable pub new_pool : String → ℤ → ℤ → ℕ → Pool
new_pool worker_id concurrency lease_duration poll_interval = record {
  worker_id = worker_id;
  concurrency = concurrency;
  lease_duration = lease_duration;
  poll_interval = poll_interval;
  handlers = [];
}

-- p.handlers[name]; the latest entry of a name counts.
unfoldable pub handler_of : String → List (String × Handler) → Option Handler
handler_of name [] = none
handler_of name ((n, h) ∷ hs) = if str_eq n name then some h else handler_of name hs

-- RegisterHandler
unfoldable pub register_handler : String → Handler → Pool → Pool
register_handler name h p = record p { handlers = (name, h) ∷ p.handlers }

-- Time passes, and the store is not called.
unfoldable pub wait : ℕ → Query (Unit {0})
wait elapsed w = (ok tt, record w { now = w.now +ℤ pos elapsed })

-- time.Duration(job.TimeoutSeconds) * time.Second: an int32 of seconds fits an int64.
abbrev pub in_nanoseconds : ℤ → ℤ
in_nanoseconds (pos n) = pos (n * second)
in_nanoseconds (negsuc n) = negsuc (suc n * second - 1)

-- runCtx.Err(): the pool's own context was cancelled first, or the deadline has passed.
abbrev pub context_error : Job → Answer → Option String
context_error job a =
    if a.cancelled
    then some "context canceled"
    else if leb_ℤ (in_nanoseconds job.timeout_seconds) (pos a.elapsed)
    then some "context deadline exceeded"
    else none

abbrev or_context_error : Option Fields → Option String → Outcome
or_context_error result none = returns result
or_context_error result (some message) = fails message

-- A handler that returns no error on a run that was cancelled or timed out has failed.
unfoldable pub settled : Job → Answer → Outcome
settled job a = elim a.outcome [
  | returns result ↦ or_context_error result (context_error job a)
  | fails message ↦ fails message
]

-- A call on the pool's context: once that is cancelled, nothing is sent.
abbrev pub sent : {A : Type 0} → (cancelled : Bool) → Query A → Query A
sent cancelled q = if cancelled then raise unavailable else q

-- FailRun and MarkDead; an error of either is logged, and the other call is made all the same.
unfoldable pub bury : (cancelled : Bool) → ℕ → String → String → Query RunStatus
bury cancelled run message reason = do
  _ ← attempt (sent cancelled (fail_run run message false (pos 0)))
  _ ← attempt (sent cancelled (mark_dead run reason))
  return RunStatus.dead

-- After the handler. The answer is the label under which RunsCompleted counts the run.
unfoldable pub finish : Job → JobRun → (cancelled : Bool) → Outcome → Query RunStatus
unfolding bury
finish job run cancelled (returns result) = do
  _ ← attempt (sent cancelled (complete_run run.id result))
  return succeeded
finish job run cancelled (fails message) =
    if ltb_ℤ (pos run.attempt) job.max_attempts
    then (do
      _ ← attempt (sent cancelled (fail_run run.id message true (backoff run.attempt)))
      return failed)
    else bury cancelled run.id message "max attempts exceeded"

unfoldable pub execute_with : Option Handler → JobRun → Job → Query RunStatus
unfolding finish bury settled wait
execute_with none run job =
    bury false run.id (concat "no handler registered for job: " job.name) "no handler"
execute_with (some handler) run job = do
  _ ← attempt (mark_running run.id)
  start ← time_now
  wait (handler job run start).elapsed
  finish job run (handler job run start).cancelled (settled job (handler job run start))

-- executeOne
unfoldable pub execute_one : Pool → JobRun → Job → Query RunStatus
unfolding execute_with handler_of
execute_one p run job = execute_with (handler_of job.name p.handlers) run job
