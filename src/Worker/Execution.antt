-- ===== src/Worker/Execution.antt =====
-- What executeOne makes of a run, on a network that delivers every reply.
use Prim.Native.String.{◌++◌ as concat}
use taskflow.Common.{
  ℤ, pos, ◌+ℤ◌, ltb_ℤ, String, ◌≡◌, refl, ◌⊎◌, inl, inr, Bool, true, false, Bool-cases, Option,
  none, some, exists_where, ◌==◌, if◌then◌else◌,
}
use taskflow.Model.{Job, JobRun, RunStatus, succeeded, failed, Fields, DeadLetter}
use taskflow.Store.Tables.{Database}
use taskflow.Store.Json.{fits_jsonb}
use taskflow.Store.Query.{Result, ok, World, RoundTrip, ◌>>=◌, attempt, return, raise, time_now}
use taskflow.Store.Reliably.{Drawing, Reliable, IsDrawn, Reliable-IsDrawn}
use taskflow.Store.Runs.{
  running_run, completed_run, requeued_run, failed_run, dead_run, mark_running, complete_run,
  fail_run, mark_dead,
}
use taskflow.Store.Effects.{
  row, mark_running-UpdatedAt, Completed, complete_run-Completed, requeue-UpdatedAt, fail-UpdatedAt,
  HasLetter, Buried, mark_dead-Reliably,
}
use taskflow.Worker.Backoff.{backoff}
use taskflow.Worker.Pool.{
  Outcome, returns, fails, Handler, Pool, handler_of, settled, bury, finish, execute_with,
  execute_one, wait,
}

-- A letter has an id that the server draws.
abbrev pub Collides : (RoundTrip → Type 0) → Database → Type 0
Collides N d =
    (t : RoundTrip) × N t
    × (exists_where (λ (l : DeadLetter). l.id == t.fresh_id) d.dead_letters ≡ true)

-- The run `x` has ended for good with the error `message`: it is dead and has its letter; or it is
-- failed, and the letter could not be written.
abbrev pub Died :
    (RoundTrip → Type 0) → JobRun → (message reason : String) → Result RunStatus → World → Type 0
Died N x message reason a w =
    (a ≡ ok RunStatus.dead)
    × ((at : ℤ) × (((row x.id w.db ≡ some (dead_run at (failed_run message at x)))
            × HasLetter x.id reason w.db)
          ⊎ ((row x.id w.db ≡ some (failed_run message at x)) × Collides N w.db)))

-- The label under which RunsCompleted counts the run.
abbrev pub label : Job → JobRun → Outcome → RunStatus
label job run (returns result) = succeeded
label job run (fails message) =
    if ltb_ℤ (pos run.attempt) job.max_attempts then failed else RunStatus.dead

-- What becomes of the run `x` that failed: it is pending again, due after the backoff from the time
-- at which executeOne ends, or it has died.
abbrev pub Failed :
    (RoundTrip → Type 0) → JobRun → String → (again : Bool) → Result RunStatus → World → Type 0
Failed N x message true a w =
    (a ≡ ok failed) × (row x.id w.db ≡ some (requeued_run message (backoff x.attempt) w.now x))
Failed N x message false a w = Died N x message "max attempts exceeded" a w

-- What becomes of the run `x` after its handler. Nothing, if the pool's context was cancelled, or if
-- JSONB cannot hold the result.
abbrev pub Finished :
    (RoundTrip → Type 0)
    → Job
    → JobRun
    → (cancelled : Bool) → Outcome
    → Result RunStatus × World
    → Type 0
Finished N job x true o (a, w) = (a ≡ ok (label job x o)) × (row x.id w.db ≡ some x)
Finished N job x false (returns result) (a, w) =
    (a ≡ ok succeeded)
    × (row x.id w.db ≡ some (if fits_jsonb result then completed_run result w.now x else x))
Finished N job x false (fails message) (a, w) =
    Failed N x message (ltb_ℤ (pos x.attempt) job.max_attempts) a w

-- The run as MarkRunning leaves it, and what its handler makes of it.
abbrev pub Executed : World → Option Handler → Job → JobRun → Result RunStatus × World → Type 0
Executed w none job run (a, end) =
    Died (IsDrawn w) run (concat "no handler registered for job: " job.name) "no handler" a end
Executed w (some handler) job run out =
    let start = (mark_running run.id w).1.now in
    let answer = handler job run start in
    Finished (IsDrawn w) job (running_run start run) answer.cancelled (settled job answer) out

unsent-Finished :
    (N : RoundTrip → Type 0) (job : Job) (x : JobRun) (o : Outcome) (w : World)
    → row x.id w.db ≡ some x
    → Finished N job x true o (finish job x true o w)
unfolding finish bury ◌>>=◌ attempt return raise
unsent-Finished N job x (returns result) w p = (refl, p)
unsent-Finished N job x (fails message) w p =
    elim (Bool-cases (ltb_ℤ (pos x.attempt) job.max_attempts)) [
      | inl e ↦ rw e (refl, p)
      | inr e ↦ rw e (refl, p)
    ]

Completed-Finished :
    (N : RoundTrip → Type 0) (x : JobRun) (result : Option Fields) (fits : Bool)
    (out : Result (Unit {0}) × World)
    → Completed N x.id x result fits out
    → row x.id out.1.db ≡ some (if fits then completed_run result out.1.now x else x)
Completed-Finished N x result true (a, w) h = h.2
Completed-Finished N x result false (a, w) h = h.2

module _ {N : RoundTrip → Type 0} where
  Buried-Died :
      (x : JobRun) (message reason : String) (at : ℤ) (a : Result (Unit {0})) (w : World)
      → Buried N x.id reason (failed_run message at x) a w.db
      → Died N x message reason (ok RunStatus.dead) w
  Buried-Died x message reason at a w (inl h) = (refl, (at, inl (h.1, h.2)))
  Buried-Died x message reason at a w (inr h) = (refl, (at, inr (h.1, h.2)))

  bury-Died :
      (x : JobRun) (message reason : String) (w : World)
      → Drawing N w
      → row x.id w.db ≡ some x
      → let (a, end) = bury false x.id message reason w in Died N x message reason a end
  unfolding bury ◌>>=◌ attempt return
  bury-Died x message reason w k p =
      let (k', e, h) = fail-UpdatedAt x.id x message (pos 0) w k p in
      let w' = (fail_run x.id message false (pos 0) w).1 in
      let (k2, b) = (mark_dead-Reliably x.id reason (failed_run message w'.now x)).at w' k' h in
      Buried-Died x message reason w'.now (mark_dead x.id reason w').0 (mark_dead x.id reason w').1
        b

  finish-Finished :
      (job : Job) (x : JobRun) (cancelled : Bool) (o : Outcome) (w : World)
      → Drawing N w
      → row x.id w.db ≡ some x
      → Finished N job x cancelled o (finish job x cancelled o w)
  unfolding finish ◌>>=◌ attempt return
  finish-Finished job x true o w k p = unsent-Finished N job x o w p
  finish-Finished job x false (returns result) w k p = (
    refl,
    Completed-Finished N x result (fits_jsonb result) (complete_run x.id result w)
        (complete_run-Completed x.id x result w k p),
  )
  finish-Finished job x false (fails message) w k p =
      elim (Bool-cases (ltb_ℤ (pos x.attempt) job.max_attempts)) [
        | inl e ↦ rw e (refl, (requeue-UpdatedAt x.id x message (backoff x.attempt) w k p).2)
        | inr e ↦ rw e (bury-Died x message "max attempts exceeded" w k p)
      ]

execute_with-Executed :
    (handler : Option Handler) (job : Job) (run : JobRun) (w : World)
    → Reliable w
    → row run.id w.db ≡ some run
    → Executed w handler job run (execute_with handler run job w)
unfolding execute_with ◌>>=◌ attempt time_now wait
execute_with-Executed none job run w k p = bury-Died run _ "no handler" w (Reliable-IsDrawn w k) p
execute_with-Executed (some handler) job run w k p =
    let (k', e, h) = mark_running-UpdatedAt run.id run w (Reliable-IsDrawn w k) p in
    let w' = (mark_running run.id w).1 in
    let answer = handler job run w'.now in
    finish-Finished job (running_run w'.now run) answer.cancelled (settled job answer)
      (record w' { now = w'.now +ℤ pos answer.elapsed }) k' h

-- Where every reply is delivered and no read replica is configured, executeOne settles a run that is
-- in the tables as LeaseNextRun returned it. Without a handler for the job it is dead, with a dead
-- letter. With one, MarkRunning has marked it. It is then succeeded, with the handler's result, if
-- the handler returned one in time that JSONB can hold; else, if the handler failed, it is pending
-- again, with the error, free of its lease and due after the backoff from the end of executeOne,
-- while the job has attempts left, and dead with a dead letter otherwise. Where a letter has an id
-- that the server draws from then on, a run that would be dead may be failed. If the pool's context
-- was cancelled while the handler ran, or if JSONB cannot hold the result, the run stays as
-- MarkRunning left it. The answer is the label succeeded, failed or dead that goes with what the
-- handler answered.
pub execute_one-Executed :
    (p : Pool) (job : Job) (run : JobRun) (w : World)
    → Reliable w
    → row run.id w.db ≡ some run
    → Executed w (handler_of job.name p.handlers) job run (execute_one p run job w)
unfolding execute_one
execute_one-Executed p job run w k h =
    execute_with-Executed (handler_of job.name p.handlers) job run w k h
