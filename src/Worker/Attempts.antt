-- ===== src/Worker/Attempts.antt =====
-- How often the lease loop of a worker leases a run.
pub mod Claims
pub mod Rounds
pub mod Budget
mod Tests
use taskflow.Common.{
  ℕ, zero, suc, ◌+◌, ◌-◌, ◌≤◌, ◌<◌, ℤ, pos, pos_part, ltb_ℤ, ltb_ℤ→lt, String, ◌≡◌, refl, sym, ap,
  ◌∙◌, subst, ==_iff, Bool, true, false, Bool-cases, inl, inr, List, [], ◌∷◌, map, Option, none,
  some, arith, first, rows_where, update_where, All, In, here, there, In-cons, Distinct, mem-map,
  All-update_where, All-updated, All-mono, All-mem, map-update_where, if◌then◌else◌, ◌==◌,
}
use taskflow.Model.{Job, JobRun, RunStatus, pending, status_eq, Fields}
use taskflow.Store.Json.{fits_jsonb}
use taskflow.Store.Tables.{JobRow, Database}
use taskflow.Store.Query.{Error, Result, ok, err, RoundTrip, World, Query, exec, time_now}
use taskflow.Store.Ensures.{Ensures, Keeps, Ensures-mono}
use taskflow.Store.Keeps.{
  Keeps-refused, Keeps-bind, Keeps-exec, Keeps-exec_at, Keeps-return, Keeps-transaction,
  keeps_rules,
}
use taskflow.Store.Reads.{or_not_found-Keeps}
use taskflow.Store.Jobs.{one_row, job_is, affected}
use taskflow.Store.Runs.{
  run_is, leased_run, is_eligible, lease_next_run, update_runs, running_run, completed_run,
  requeued_run, failed_run, dead_run, mark_running, complete_run, fail_run, mark_dead,
  mark_dead_body, insert_dead_letter, fetch_run,
}
use taskflow.Store.Valid.Runs.{update_runs_ok}
use taskflow.Worker.Isolation.{insert_dead_letter_rest}
use taskflow.Store.Lease.{Claimed, Leased, LeaseFails, lease_next_run-Ensures}
use taskflow.Store.Valid.{run_ids}
use taskflow.Worker.Keeping.{execute_one-CallsKeep}
use taskflow.Worker.Pool.{Pool, execute_one}

abbrev pub sum : List ℕ → ℕ
sum [] = 0
sum (x ∷ xs) = x + sum xs

-- What a job's max_attempts allows.
abbrev pub granted : Result JobRow → ℕ
granted (ok row) = pos_part row.max_attempts
granted (err e) = 0

abbrev pub allowed : List JobRow → ℕ → ℕ
allowed jobs job = granted (one_row (rows_where (job_is job) jobs))

-- How often a run can still be leased: a pending run at least once, and again while an attempt is
-- left.
abbrev pub to_come : List JobRow → JobRun → ℕ
to_come jobs r =
    if status_eq r.status pending then suc (allowed jobs r.job_id - suc r.attempt) else 0

-- No run counts more attempts, with those to come, than `most` has for it.
abbrev pub Within : List JobRow → (ℕ → ℕ) → JobRun → Type 0
Within jobs most r = r.attempt + to_come jobs r ≤ most r.id

-- The attempts that all runs count together.
abbrev pub total : Database → ℕ
total d = sum (map (λ r. r.attempt) d.job_runs)

-- The jobs and the ids of the runs stand, and the runs count `t` attempts or more.
abbrev pub Stands : List JobRow → List ℕ → ℕ → Database → Type 0
Stands jobs ids t d = (d.jobs ≡ jobs) × (run_ids d ≡ ids) × (t ≤ total d)

abbrev pub AreWithin : List JobRow → (ℕ → ℕ) → Database → Type 0
AreWithin jobs most d = All (Within jobs most) d.job_runs

-- The rows of the run that is executed, at its attempt `n`, beside all others.
abbrev pub Own : (id job n : ℕ) → JobRun → Type 0
Own id job n r = run_is id r ≡ true → (r.attempt ≡ n) × (r.job_id ≡ job)

module _ (jobs : List JobRow) (ids : List ℕ) (t : ℕ) (most : ℕ → ℕ) (id job n : ℕ) where
  abbrev pub Held : Database → Type 0
  Held d = Stands jobs ids t d × All (λ r. Within jobs most r × Own id job n r) d.job_runs

  -- An UPDATE of no key and no attempt.
  updated-Stands :
      (p : JobRun → Bool) (f : JobRun → JobRun) (d : Database)
      → ((r : JobRun) → (f r).id ≡ r.id)
      → ((r : JobRun) → (f r).attempt ≡ r.attempt)
      → Stands jobs ids t d
      → Stands jobs ids t (record d { job_runs = update_where p f d.job_runs })
  updated-Stands p f d same still h = (
    h.0,
    map-update_where (λ r. r.id) p f d.job_runs same ∙ h.1,
    subst (λ ns. t ≤ sum ns) (sym (map-update_where (λ r. r.attempt) p f d.job_runs still)) h.2,
  )

  update-Held :
      (R : Option Database) (f : ℤ → JobRun → JobRun)
      → ((now : ℤ) (r : JobRun) → (f now r).id ≡ r.id)
      → ((now : ℤ) (r : JobRun) → (f now r).attempt ≡ r.attempt)
      → ((now : ℤ) (r : JobRun)
          → run_is id r ≡ true
          → Within jobs most r × Own id job n r
          → Within jobs most (f now r) × Own id job n (f now r))
      → Keeps R Held (affected (exec (update_runs (λ _. run_is id) f)))
  update-Held R f same still h =
      Keeps-bind _ _
        (Keeps-exec _ (λ now trip d m d' p e. rw (update_runs_ok (λ _. run_is id) f now trip d e) (
          updated-Stands _ (f now) d (same now) (still now) p.0,
          All-update_where _ (run_is id) (f now) d.job_runs (λ r _ q. h now r q) p.1,
        )))
        (λ m. search keeps_rules)

  mark_running-Held : (R : Option Database) → Keeps R Held (mark_running id)
  unfolding mark_running
  mark_running-Held R =
      update-Held R running_run (λ now r. refl) (λ now r. refl)
        (λ now r q h. (omega (arith, h.0), h.1))

  complete_run-Held :
      (R : Option Database) (result : Option Fields) → Keeps R Held (complete_run id result)
  unfolding complete_run
  complete_run-Held R result = elim (Bool-cases (fits_jsonb result)) [
    | inl e ↦ rw e (
        update-Held R (completed_run result) (λ now r. refl) (λ now r. refl)
          (λ now r q h. (omega (arith, h.0), h.1)))
    | inr e ↦ rw e (Keeps-bind _ _ (Keeps-refused _) (λ m. search keeps_rules))
  ]

  fail_run-Held :
      (R : Option Database) (message : String) → Keeps R Held (fail_run id message false (pos 0))
  unfolding fail_run
  fail_run-Held R message =
      update-Held R (failed_run message) (λ now r. refl) (λ now r. refl)
        (λ now r q h. (omega (arith, h.0), h.1))

  requeued-Within :
      n + suc (allowed jobs job - suc n) ≤ most id
      → (message : String) (delay now : ℤ) (r : JobRun) → run_is id r ≡ true
      → Own id job n r
      → Within jobs most (requeued_run message delay now r)
  requeued-Within room message delay now r q own =
      let (a, j) = own q in rw (a, j, (==_iff r.id id).0 q) room

  requeue-Held :
      (R : Option Database)
      → n + suc (allowed jobs job - suc n) ≤ most id
      → (message : String) (delay : ℤ) → Keeps R Held (fail_run id message true delay)
  unfolding fail_run
  requeue-Held R room message delay =
      update-Held R (requeued_run message delay) (λ now r. refl) (λ now r. refl)
        (λ now r q h. (requeued-Within room message delay now r q h.1, h.1))

  mark_dead-Held : (R : Option Database) (reason : String) → Keeps R Held (mark_dead id reason)
  unfolding mark_dead mark_dead_body fetch_run
  mark_dead-Held R reason = Keeps-transaction _ (λ now.
      Ensures-mono (λ d v. v) (λ a d v. v) (λ x d v. tt)
        (Keeps-bind _ _ (or_not_found-Keeps _ (search keeps_rules)) (λ run.
          Keeps-bind _ _
            (Keeps-exec_at now _ (λ trip d u d' p e.
              let (j, g, w, r) = insert_dead_letter_rest id reason _ now trip d e in
              (
                (
                  j ∙ p.0.0,
                  ap (map (λ x. x.id)) r ∙ p.0.1,
                  subst (λ rs. t ≤ sum (map (λ (x : JobRun). x.attempt) rs)) (sym r) p.0.2,
                ),
                subst (All (λ r. Within jobs most r × Own id job n r)) (sym r) p.1,
              )))
            (λ u.
              Keeps-bind _ _
                (Keeps-exec_at now _ (λ trip d m d' p e.
                  rw (update_runs_ok (λ _. run_is id) dead_run now trip d e) (
                    updated-Stands _ (dead_run now) d (λ r. refl) (λ r. refl) p.0,
                    All-update_where _ (run_is id) (dead_run now) d.job_runs
                        (λ r _ q h. (omega (arith, h.0), h.1)) p.1,
                  )))
                (λ m. Keeps-return _)))))

  -- executeOne of the run itself.
  pub execute_one-Held :
      (R : Option Database) (p : Pool) (run : JobRun) (j : Job)
      → run.id ≡ id
      → (ltb_ℤ (pos run.attempt) j.max_attempts ≡ true
          → n + suc (allowed jobs job - suc n) ≤ most id)
      → Keeps R Held (execute_one p run j)
  execute_one-Held R p run j e room =
      execute_one-CallsKeep run j
        (record {
          marks_running = rw e (mark_running-Held R);
          completes = λ result. rw e (complete_run-Held R result);
          requeues = λ message l. rw e (requeue-Held R (room l) message _);
          gives_up = λ message. rw e (fail_run-Held R message);
          marks_dead = λ reason. rw e (mark_dead-Held R reason);
        })
        p
