-- ===== src/Scheduler/Progress.antt =====
-- One turn of PromoteOnce on a network that delivers every reply.
use taskflow.Common.{
  ℕ, ℤ, ◌≡◌, refl, sym, ap, subst, ◌∙◌, ◌⊎◌, inl, inr, Bool, true, false, Bool-cases, Option-cases,
  List, [], ◌∷◌, ◌++◌, Option, none, some, arith, All, first, take, order_by, rows_where,
  exists_where,
}
use taskflow.Model.{Job, JobRun}
use taskflow.Store.Tables.{Database}
use taskflow.Store.Query.{Error, not_found, no_rows, Result, ok, err, reader, RoundTrip, World}
use taskflow.Store.Reliably.{
  ReliablyOn, ReliablyOn-exec, Reliable, IsDrawn, Reliable-IsDrawn, Reliably-return, Reliably-raise,
  Reliably-select, Reliably-on_error, Reliably-bind, Reliably-known, Reliably-then, Reliably-mono,
}
use taskflow.Store.Jobs.{
  one_row, job_is, dependencies_of, list_dependencies, fetch_dependencies, not_found_of,
}
use taskflow.Store.Runs.{
  run_is, has_active_run, active_run_of, latest_run, latest_run_for_job, newer_run, run_of, new_run,
  create_run, insert_run,
}
use taskflow.Scheduler.Schedule.{
  Cron, next_run_due, check_dependency, all_succeeded, dependencies_satisfied,
}
use taskflow.Scheduler.Dependencies.{Ready}
use taskflow.Scheduler.Promoter.{
  proceed_if, last_scheduled, created, promote_due, promote_since, promote_idle, promote_job,
}
use taskflow.Scheduler.Promotion.{Added, scheduled_last}

abbrev found_or_missing : Option JobRun → Result JobRun
found_or_missing none = err not_found
found_or_missing (some r) = ok r

no_rows_of : (x : Error) → err x ≡ one_row {A = JobRun} [] → x ≡ no_rows
no_rows_of x e = ground arith

missing_of :
    (rs : List JobRun) (x : Error)
    → err x ≡ one_row (take 1 rs)
    → err (not_found_of x) ≡ found_or_missing (first rs)
missing_of [] x e = ap (λ y. err (not_found_of y)) (no_rows_of x e)
missing_of (r ∷ rs) x e = cc

found_of :
    (rs : List JobRun) (r : JobRun)
    → one_row (take 1 rs) ≡ ok r
    → found_or_missing (first rs) ≡ ok r
found_of [] r e = cc
found_of (x ∷ rs) r e = cc

-- A run has an id that the server draws.
abbrev pub Collides : (RoundTrip → Type 0) → Database → Type 0
Collides N old = (t : RoundTrip) × N t × (exists_where (run_is t.fresh_id) old.job_runs ≡ true)

-- The run was added, unless the server drew the id of a run that exists.
abbrev pub Fires : (RoundTrip → Type 0) → ℤ → Job → Database → Result Bool → Database → Type 0
Fires N now job old a d =
    ((a ≡ ok true) × Added now job old d) ⊎ ((a ≡ ok false) × (d ≡ old) × Collides N old)

abbrev Inserted : (RoundTrip → Type 0) → ℤ → Job → Database → Result JobRun → Database → Type 0
Inserted N now job old (ok r) d = Added now job old d
Inserted N now job old (err x) d = (d ≡ old) × Collides N old

module _ (old : Database) where
  abbrev At : Database → Type 0
  At d = d ≡ old

  abbrev Listed : ℕ → Result (List ℕ) → Database → Type 0
  Listed job (ok deps) d = (deps ≡ dependencies_of job old) × At d
  Listed job (err x) d = ⊥

  abbrev ordered : ℕ → List JobRun
  ordered job = order_by newer_run (rows_where (run_of job) old.job_runs)

last_scheduled_latest :
    (old : Database) (job : ℕ)
    → last_scheduled (found_or_missing (latest_run job old)) ≡ some (scheduled_last job old)
last_scheduled_latest old job = elim (Option-cases (latest_run job old)) [
  | inl e ↦ rw (scheduled_last, e) refl
  | inr (r, e) ↦ rw (scheduled_last, e) refl
]

module _ {N : RoundTrip → Type 0} (old : Database) where
  has_active_run-Reliably :
      (job : ℕ)
      → ReliablyOn N
          (At old)
          (has_active_run job)
          (λ a d. (a ≡ ok (exists_where (active_run_of job) old.job_runs)) × At old d)
  unfolding has_active_run
  has_active_run-Reliably job =
      Reliably-select reader _
        (λ d e. (ap {A = Database} (λ x. ok (exists_where (active_run_of job) x.job_runs)) e, e))

  latest_run_for_job-Reliably :
      (job : ℕ)
      → ReliablyOn N
          (At old)
          (latest_run_for_job job)
          (λ a d. (a ≡ found_or_missing (latest_run job old)) × At old d)
  unfolding latest_run_for_job
  latest_run_for_job-Reliably job =
      Reliably-on_error {Q = λ a d. (a ≡ one_row (take 1 (ordered old job))) × At old d} _ _
        (Reliably-select reader _ (λ d e. (
          ap {A = Database}
              (λ x. one_row (take 1 (order_by newer_run (rows_where (run_of job) x.job_runs)))) e,
          e,
        )))
        (λ r d h. (sym (found_of (ordered old job) r (sym h.0)), h.1))
        (λ x. Reliably-raise _ (λ d h. (missing_of (ordered old job) x h.0, h.1)))

  all_succeeded-Reliably :
      (deps : List ℕ)
      → All (Ready old) deps
      → ReliablyOn N (At old) (all_succeeded deps) (λ a d. (a ≡ ok true) × At old d)
  unfolding all_succeeded check_dependency
  all_succeeded-Reliably [] h = Reliably-return true (λ d e. (refl, e))
  all_succeeded-Reliably (dep ∷ deps) ((r, e, s), h) =
      Reliably-known (ok r) _ _
        (Reliably-mono (λ d p. p) (λ a d q. (q.0 ∙ ap found_or_missing e, q.1))
          (latest_run_for_job-Reliably dep))
        (rw s (all_succeeded-Reliably deps h))

  dependencies_satisfied-Reliably :
      (job : ℕ)
      → All (Ready old) (dependencies_of job old)
      → ReliablyOn N (At old) (dependencies_satisfied job) (λ a d. (a ≡ ok true) × At old d)
  unfolding dependencies_satisfied list_dependencies fetch_dependencies
  dependencies_satisfied-Reliably job h =
      Reliably-bind {Q = Listed old job} _ _
        (Reliably-select reader _ (λ d e. (ap {A = Database} (dependencies_of job) e, e)))
        (λ deps. record {
          at = λ w k p.
              (subst
                  (λ l. ReliablyOn N (At old) (all_succeeded l) (λ a d. (a ≡ ok true) × At old d))
                  (sym p.0) (all_succeeded-Reliably _ h)).at
                w k p.1;
        })
        (λ x d p. absurd p)

  module _ (c : Cron) (now : ℤ) (job : Job) where
    create_run-Reliably :
        exists_where (job_is job.id) old.jobs ≡ true
        → ReliablyOn N (At old) (create_run job.id job.priority now) (Inserted N now job old)
    unfolding create_run insert_run
    create_run-Reliably e = ReliablyOn-exec _ (λ at t d n s.
        elim (Bool-cases (exists_where (run_is t.fresh_id) d.job_runs)) [
          | inl h ↦
              rw h (s, (t, n, subst (λ x. exists_where (run_is t.fresh_id) x.job_runs ≡ true) s h))
          | inr h ↦
              rw (h, subst (λ x. exists_where (job_is job.id) x.jobs ≡ true) (sym s) e)
                (
                  t.fresh_id,
                  at,
                  ap {A = Database}
                      (λ x. record x {
                        job_runs = x.job_runs ++ new_run job.id job.priority now t.fresh_id at ∷ [];
                      })
                      s,
                )
        ])

    created-Reliably :
        (r : Result JobRun)
        → ReliablyOn N (Inserted N now job old r) (created r) (Fires N now job old)
    created-Reliably (ok r) = Reliably-return true (λ d h. inl (refl, h))
    created-Reliably (err x) = Reliably-return false (λ d h. inr (refl, h.0, h.1))

    promote_due-Reliably :
        exists_where (job_is job.id) old.jobs ≡ true
        → All (Ready old) (dependencies_of job.id old)
        → ReliablyOn N (At old) (promote_due c now job) (Fires N now job old)
    unfolding promote_due
    promote_due-Reliably e h =
        Reliably-known (ok true) _ _ (dependencies_satisfied-Reliably job.id h)
          (Reliably-then _ _ (create_run-Reliably e) created-Reliably)

    promote_idle-Reliably :
        exists_where (job_is job.id) old.jobs ≡ true
        → All (Ready old) (dependencies_of job.id old)
        → next_run_due c job.cron_expr (scheduled_last job.id old) job.created_at now ≡ ok true
        → ReliablyOn N (At old) (promote_idle c now job) (Fires N now job old)
    unfolding promote_idle
    promote_idle-Reliably e h due = Reliably-known _ _ _ (latest_run_for_job-Reliably job.id) (
        subst (λ o. ReliablyOn N (At old) (promote_since c now job o) (Fires N now job old))
          (sym (last_scheduled_latest old job.id))
          (subst
            (λ b.
              ReliablyOn N (At old) (proceed_if b (promote_due c now job)) (Fires N now job old))
            (sym due) (promote_due-Reliably e h)))

    promote_job-ReliablyOn :
        exists_where (job_is job.id) old.jobs ≡ true
        → exists_where (active_run_of job.id) old.job_runs ≡ false
        → next_run_due c job.cron_expr (scheduled_last job.id old) job.created_at now ≡ ok true
        → All (Ready old) (dependencies_of job.id old)
        → ReliablyOn N (At old) (promote_job c now job) (Fires N now job old)
    unfolding promote_job
    promote_job-ReliablyOn e idle due h =
        Reliably-known (ok false) _ _
          (Reliably-mono (λ d p. p) (λ a d p. (p.0 ∙ ap ok idle, p.1))
            (has_active_run-Reliably job.id))
          (promote_idle-Reliably e h due)

-- Where every reply is delivered and no read replica is configured, one turn of PromoteOnce's loop
-- promotes a job that is in the tables, has no active run, is due, and whose dependencies are ready:
-- it answers true and has added the run, pending and due now; or it answers false and has changed
-- nothing, and a run has an id that the server draws in the course of this turn or later.
pub promote_job-Promotes :
    (c : Cron) (now : ℤ) (job : Job) (w : World)
    → Reliable w
    → exists_where (job_is job.id) w.db.jobs ≡ true
    → exists_where (active_run_of job.id) w.db.job_runs ≡ false
    → next_run_due c job.cron_expr (scheduled_last job.id w.db) job.created_at now ≡ ok true
    → All (Ready w.db) (dependencies_of job.id w.db)
    → let (a, w') = promote_job c now job w in Fires (IsDrawn w) now job w.db a w'.db
promote_job-Promotes c now job w k e idle due h =
    ((promote_job-ReliablyOn {N = IsDrawn w} w.db c now job e idle due h).at w
      (Reliable-IsDrawn w k) refl).1
