-- ===== src/Worker/Handlers.antt =====
-- internal/worker/handlers.go: the handlers that the worker registers.
--
-- What the client of net/http answers, which bytes are which text, and how long a literal of
-- seconds lasts, are parameters, and so is when the worker's context is cancelled.
pub mod Sleeping
pub mod Calling
mod Tests
use Prim.Native.String.{◌++◌ as concat}
use taskflow.Common.{
  ℕ, ℤ, pos, negsuc, ltb, leb, ◌==◌, ◌&&◌, ◌||◌, String, str_eq, Bool, false, true, if◌then◌else◌,
  List, length, take, Option, none, some,
}
use taskflow.Model.{Job, Fields, Value, text, number, empty, field}
use taskflow.Api.Text.{is_empty}
use taskflow.Worker.Pool.{
  Outcome, returns, fails, Answer, Handler, Pool, register_handler, in_nanoseconds,
}

-- payload[name]; the fields of a map have different names.
unfoldable pub lookup : String → Fields → Option Value
lookup name empty = none
lookup name (field n v fs) = if str_eq n name then some v else lookup name fs

-- EchoHandler takes no time.
unfoldable pub echo_handler : Handler
echo_handler job run start = record {
  outcome = returns (some job.payload);
  elapsed = 0;
  cancelled = false;
}

-- A timer or a deadline of no or a negative duration fires at once.
abbrev pub at_once : ℤ → ℕ
at_once (pos n) = n
at_once (negsuc n) = 0

pub record Clock : Type 0 where
  -- time.Duration(seconds * float64(time.Second))
  pub lasts : String → ℤ
  -- 1.0
  pub one : String
  -- For a handler that starts at a time, how much later the worker's context is cancelled.
  pub cancelled_after : ℤ → Option ℕ
  -- Which of the two a select picks that finds the timer and the context ready.
  pub picks_timer : ℤ → Bool

-- When runCtx is done, and whether that is by a cancellation of the worker's context.
abbrev pub context_done : ℕ → Option ℕ → ℕ × Bool
context_done deadline none = (deadline, false)
context_done deadline (some c) = if ltb c deadline then (c, true) else (deadline, false)

abbrev pub context_message : Bool → String
context_message true = "context canceled"
context_message false = "context deadline exceeded"

abbrev seconds_in : String → Option Value → String
seconds_in default (some (number f)) = f
seconds_in default v = default

unfoldable pub seconds_of : Clock → Job → String
unfolding lookup
seconds_of clock job = seconds_in clock.one (lookup "seconds" job.payload)

-- SleepHandler's select between the context, done after `ends`, and the timer of `d`.
abbrev pub selected : (picks_timer : Bool) (d : ℕ) (ends : ℕ × Bool) (slept : String) → Answer
selected picks_timer d (ends, cancelled) slept =
    if ltb d ends || (d == ends && picks_timer)
    then record {
      outcome = returns (some (field "slept_seconds" (number slept) empty));
      elapsed = d;
      cancelled = d == ends && cancelled;
    }
    else record {
      outcome = fails (context_message cancelled);
      elapsed = ends;
      cancelled = cancelled;
    }

unfoldable pub sleep_handler : Clock → Handler
unfolding seconds_of
sleep_handler clock job run start =
    selected (clock.picks_timer start) (at_once (clock.lasts (seconds_of clock job)))
      (context_done (at_once (in_nanoseconds job.timeout_seconds)) (clock.cancelled_after start))
      (seconds_of clock job)

-- How a body goes on after the bytes that it holds: it ends (io.EOF), it is cut off early
-- (io.ErrUnexpectedEOF, which net/http gives for a body shorter than its Content-Length), or reading
-- it fails in another way.
pub data Rest : Type 0 where
  ends cut_off : Rest
  breaks : String → Rest

-- What a request comes to: it cannot be built, it has no response, or it has one, whose body holds
-- these bytes and goes on as `rest` says.
pub data Exchange : Type 0 where
  malformed : String → Exchange
  unanswered : String → Exchange
  answered : (status_code : String) (body : List ℕ) (rest : Rest) → Exchange

pub record Client : Type 0 where
  -- For a method, a URL and the time.
  pub exchange : String → String → ℤ → Exchange
  pub elapsed : String → String → ℤ → ℕ
  pub cancelled : String → String → ℤ → Bool
  pub text_of : List ℕ → String

-- The error of io.ReadFull, less io.EOF and io.ErrUnexpectedEOF: none once `n` bytes are read.
abbrev pub error_of : Rest → Option String
error_of ends = none
error_of cut_off = none
error_of (breaks e) = some e

abbrev pub read_error : ℕ → List ℕ → Rest → Option String
read_error n body rest = if leb n (length body) then none else error_of rest

abbrev pub max_body : ℕ
max_body = 4096

abbrev pub read_outcome : (List ℕ → String) → String → List ℕ → Option String → Outcome
read_outcome text_of status body none = returns (
    some (
      field "status_code" (number status)
        (field "body" (text (text_of (take max_body body))) empty)))
read_outcome text_of status body (some e) = fails (concat "http_call: reading response body: " e)

unfoldable pub outcome_of : (List ℕ → String) → Exchange → Outcome
outcome_of text_of (malformed e) = fails (concat "http_call: building request: " e)
outcome_of text_of (unanswered e) = fails (concat "http_call: request failed: " e)
outcome_of text_of (answered status body rest) =
    read_outcome text_of status body (read_error max_body body rest)

abbrev method_in : Option Value → String
method_in (some (text m)) = if is_empty m then "GET" else m
method_in v = "GET"

unfoldable pub method_of : Job → String
unfolding lookup
method_of job = method_in (lookup "method" job.payload)

abbrev refused : String → Answer
refused message = record { outcome = fails message; elapsed = 0; cancelled = false }

unfoldable pub call : Client → String → String → ℤ → Answer
unfolding outcome_of
call client method url start = record {
  outcome = outcome_of client.text_of (client.exchange method url start);
  elapsed = client.elapsed method url start;
  cancelled = client.cancelled method url start;
}

unfoldable pub call_url : Client → Job → ℤ → Option Value → Answer
unfolding call method_of
call_url client job start none = refused "http_call: payload missing required \"url\""
call_url client job start (some (text url)) =
    if is_empty url
    then refused "http_call: payload \"url\" must be a non-empty string"
    else call client (method_of job) url start
call_url client job start (some v) = refused "http_call: payload \"url\" must be a non-empty string"

unfoldable pub http_call_handler : Client → Handler
unfolding lookup call_url call method_of
http_call_handler client job run start = call_url client job start (lookup "url" job.payload)

-- What cmd/worker registers.
unfoldable pub with_handlers : Clock → Client → Pool → Pool
unfolding register_handler
with_handlers clock client p =
    register_handler "http_call" (http_call_handler client)
      (register_handler "sleep" (sleep_handler clock) (register_handler "echo" echo_handler p))
