-- ===== src/Worker/Keeping.antt =====
-- An invariant of the tables that each call of executeOne keeps, and executeOne with it.
use taskflow.Common.{
  ℕ, pos, ltb_ℤ, String, ◌≡◌, Bool, true, false, Bool-cases, inl, inr, Option, none, some,
}
use taskflow.Model.{Job, JobRun, Fields}
use taskflow.Store.Tables.{Database}
use taskflow.Store.Query.{Error, Query, return, ◌>>=◌, attempt, time_now}
use taskflow.Store.Ensures.{Ensures, Keeps, Ensures-bind, Ensures-return}
use taskflow.Store.Keeps.{attempt-Ensures, Keeps-raise}
use taskflow.Store.Runs.{mark_running, complete_run, fail_run, mark_dead}
use taskflow.Worker.Backoff.{backoff}
use taskflow.Worker.Pool.{
  sent, Outcome, returns, fails, Handler, Pool, bury, finish, execute_with, execute_one, handler_of,
  wait,
}

-- The calls that executeOne may make for a run.
pub record CallsKeep (R : Option Database) (P : Database → Type 0) (run : JobRun) (job : Job)
    : Type 0 where
  pub marks_running : Keeps R P (mark_running run.id)
  pub completes : (result : Option Fields) → Keeps R P (complete_run run.id result)
  pub requeues :
      (message : String)
      → ltb_ℤ (pos run.attempt) job.max_attempts ≡ true
      → Keeps R P (fail_run run.id message true (backoff run.attempt))
  pub gives_up : (message : String) → Keeps R P (fail_run run.id message false (pos 0))
  pub marks_dead : (reason : String) → Keeps R P (mark_dead run.id reason)

module _ {R : Option Database} {P : Database → Type 0} where
  pub sent-Keeps :
      {A : Type 0} (cancelled : Bool) (q : Query A) → Keeps R P q → Keeps R P (sent cancelled q)
  sent-Keeps true q h = Keeps-raise _
  sent-Keeps false q h = h

module _ {R : Option Database} {P : Database → Type 0} {E : Error → Database → Type 0} where
  pub wait-Ensures : (n : ℕ) → Ensures R P (wait n) (λ _. P) E
  unfolding wait
  wait-Ensures n = record { at = λ w k p. (k, p) }

  pub time_now-Ensures : Ensures R P time_now (λ _. P) E
  unfolding time_now
  time_now-Ensures = record { at = λ w k p. (k, p) }

  -- A call of which the error is looked at, and then the answer.
  attempted-Ensures :
      {A B : Type 0} (q : Query A) (b : B)
      → Keeps R P q
      → Ensures R P (attempt q >>= (λ _. return b)) (λ _. P) E
  attempted-Ensures q b h =
      Ensures-bind _ _ (attempt-Ensures q h) (λ _. Ensures-return b (λ d p. p))

module _ {R : Option Database} {P : Database → Type 0} {E : Error → Database → Type 0}
    (run : JobRun) (job : Job) (c : CallsKeep R P run job) where
  bury-Ensures :
      (cancelled : Bool) (message reason : String)
      → Ensures R P (bury cancelled run.id message reason) (λ _. P) E
  unfolding bury
  bury-Ensures cancelled message reason =
      Ensures-bind _ _ (attempt-Ensures _ (sent-Keeps cancelled _ (c.gives_up message)))
        (λ _. attempted-Ensures _ _ (sent-Keeps cancelled _ (c.marks_dead reason)))

  finish-Ensures :
      (cancelled : Bool) (o : Outcome) → Ensures R P (finish job run cancelled o) (λ _. P) E
  unfolding finish
  finish-Ensures cancelled (returns result) =
      attempted-Ensures _ _ (sent-Keeps cancelled _ (c.completes result))
  finish-Ensures cancelled (fails message) =
      elim (Bool-cases (ltb_ℤ (pos run.attempt) job.max_attempts)) [
        | inl e ↦ rw e (attempted-Ensures _ _ (sent-Keeps cancelled _ (c.requeues message e)))
        | inr e ↦ rw e (bury-Ensures cancelled message "max attempts exceeded")
      ]

  execute_with-Ensures : (h : Option Handler) → Ensures R P (execute_with h run job) (λ _. P) E
  unfolding execute_with
  execute_with-Ensures none = bury-Ensures false _ _
  execute_with-Ensures (some h) = Ensures-bind _ _ (attempt-Ensures _ c.marks_running) (λ _.
      Ensures-bind _ _ time_now-Ensures
        (λ start. Ensures-bind _ _ (wait-Ensures _) (λ _. finish-Ensures _ _)))

  -- For every handler and every fault of the network. executeOne itself never fails.
  pub execute_one-CallsKeep : (p : Pool) → Ensures R P (execute_one p run job) (λ _. P) E
  unfolding execute_one
  execute_one-CallsKeep p = execute_with-Ensures (handler_of job.name p.handlers)
