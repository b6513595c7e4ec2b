-- ===== src/Scheduler/Promotion.antt =====
-- What one turn of PromoteOnce's loop does to the tables, where no read replica is configured.
use taskflow.Common.{
  ℕ, ℤ, ◌≡◌, refl, sym, subst, ◌↔◌, ◌⊎◌, inl, inr, Bool, true, false, [], ◌∷◌, ◌++◌, Option, none,
  some, arith, All, exists_where,
}
use taskflow.Model.{Job, JobRun}
use taskflow.Store.Tables.{Database}
use taskflow.Store.Query.{Error, not_found, Result, ok, err, Query, reader}
use taskflow.Store.Post.{Either}
use taskflow.Store.Ensures.{
  Ensures, Ensures-return, Ensures-exec, Ensures-select_alone, Ensures-bind, Ensures-attempt,
  Ensures-mono,
}
use taskflow.Store.Jobs.{dependencies_of}
use taskflow.Store.Runs.{has_active_run, active_run_of, latest_run, new_run, create_run}
use taskflow.Store.Valid.Runs.{insert_run_ok}
use taskflow.Scheduler.Schedule.{Cron, next_run_due}
use taskflow.Scheduler.Dependencies.{
  Missing, Ready, latest_run_for_job-Ensures, dependencies_satisfied-Ensures,
}
use taskflow.Scheduler.Promoter.{
  proceed_if, negated, last_scheduled, created, promote_due, promote_since, promote_idle,
  promote_job,
}

-- The time of a job's latest run, which its next one is counted from.
abbrev pub scheduled_last : ℕ → Database → Option ℤ
scheduled_last job d = elim (latest_run job d) [ none ↦ none | some r ↦ some r.scheduled_at ]

-- The tables of `old` with one more run, pending, of the job.
abbrev pub Added : ℤ → Job → Database → Database → Type 0
Added now job old d =
    (id : ℕ) × (at : ℤ) × (d
      ≡ record old { job_runs = old.job_runs ++ new_run job.id job.priority now id at ∷ [] })

-- A turn that added a run was allowed to.
pub record Promoted (c : Cron) (now : ℤ) (job : Job) (old d : Database) : Type 0 where
  pub idle : exists_where (active_run_of job.id) old.job_runs ≡ false
  pub due : next_run_due c job.cron_expr (scheduled_last job.id old) job.created_at now ≡ ok true
  pub ready : All (Ready old) (dependencies_of job.id old)
  pub added : Added now job old d

-- A turn answers true for a promotion alone; false if it left the tables as they were, or if the
-- reply to its INSERT was lost.
abbrev pub Turn : Cron → ℤ → Job → Database → Bool → Database → Type 0
Turn c now job old b d = ((b ≡ false) × (d ≡ old)) ⊎ Promoted c now job old d

module _ (old : Database) where
  pub has_active_run-Ensures :
      (job : ℕ)
      → Ensures none
          (λ d. d ≡ old)
          (has_active_run job)
          (λ b d. (d ≡ old) × (exists_where (active_run_of job) old.job_runs ≡ b))
          (λ _ d. d ≡ old)
  unfolding has_active_run
  has_active_run-Ensures job =
      Ensures-select_alone reader _ (λ d b e h. (e, ground (arith, e, h))) (λ d x e h. e) (λ d e. e)

  module _ (c : Cron) (now : ℤ) (job : Job) where
    abbrev Fails : Error → Database → Type 0
    Fails _ _ = ⊥

    stays : (d : Database) → d ≡ old → Turn c now job old false d
    stays d e = inl (refl, e)

    create_run-Added :
        Ensures none
          (λ d. d ≡ old)
          (create_run job.id job.priority now)
          (λ _ d. Added now job old d)
          (λ _ d. (d ≡ old) ⊎ Added now job old d)
    unfolding create_run
    create_run-Added =
        Ensures-exec _
          (λ at t d r d' e h.
            let (f, j, s, k) = insert_run_ok job.id job.priority now at t d h in
            (
              t.fresh_id,
              at,
              subst
                  (λ x. d' ≡ record x {
                    job_runs = x.job_runs ++ new_run job.id job.priority now t.fresh_id at ∷ [];
                  })
                  e k,
            ))
          (λ r d a. inr a) (λ at t d x e h. inl e) (λ d e. inl e)

    created-Ensures :
        (r : Result JobRun)
        → exists_where (active_run_of job.id) old.job_runs ≡ false
        → next_run_due c job.cron_expr (scheduled_last job.id old) job.created_at now ≡ ok true
        → All (Ready old) (dependencies_of job.id old)
        → Ensures none
            (Either (λ _ d. Added now job old d) (λ _ d. (d ≡ old) ⊎ Added now job old d) r)
            (created r)
            (Turn c now job old)
            Fails
    created-Ensures (ok r) i e a =
        Ensures-return true (λ d h. inr (record { idle = i; due = e; ready = a; added = h }))
    created-Ensures (err x) i e a = Ensures-return false (λ d h. elim h [
      | inl s ↦ stays d s
      | inr h ↦ inr (record { idle = i; due = e; ready = a; added = h })
    ])

    -- A guard that passes only if `S` holds.
    guarded :
        (S : Type 0) (r : Result Bool) (next : Query Bool)
        → (S → Ensures none (λ d. d ≡ old) next (Turn c now job old) Fails)
        → Ensures none
            (λ d. (d ≡ old) × (r ≡ ok true → S))
            (proceed_if r next)
            (Turn c now job old)
            Fails
    guarded S (ok true) next h = record { at = λ w k p. (h (p.1 refl)).at w k p.0 }
    guarded S (ok false) next h = Ensures-return false (λ d p. stays d p.0)
    guarded S (err e) next h = Ensures-return false (λ d p. stays d p.0)

    satisfied :
        (r : Result Bool) (d : Database)
        → Either
            (λ b d. (d ≡ old) × ((b ≡ true) ↔ All (Ready old) (dependencies_of job.id old)))
            (λ _ d. d ≡ old)
            r
            d
        → (d ≡ old) × (r ≡ ok true → All (Ready old) (dependencies_of job.id old))
    satisfied (ok true) d h = (h.0, λ e. h.1.0 refl)
    satisfied (ok false) d h = (h.0, λ e. cc)
    satisfied (err x) d h = (h, λ e. cc)

    unblocked :
        (r : Result Bool) (d : Database)
        → Either
            (λ b d. (d ≡ old) × (exists_where (active_run_of job.id) old.job_runs ≡ b))
            (λ _ d. d ≡ old)
            r
            d
        → (d ≡ old)
          × (negated r ≡ ok true → exists_where (active_run_of job.id) old.job_runs ≡ false)
    unblocked (ok true) d h = (h.0, λ e. cc)
    unblocked (ok false) d h = (h.0, λ e. h.1)
    unblocked (err x) d h = (h, λ e. cc)

    promote_due-Ensures :
        exists_where (active_run_of job.id) old.job_runs ≡ false
        → next_run_due c job.cron_expr (scheduled_last job.id old) job.created_at now ≡ ok true
        → Ensures none (λ d. d ≡ old) (promote_due c now job) (Turn c now job old) Fails
    unfolding promote_due
    promote_due-Ensures i e =
        Ensures-bind _ _ (Ensures-attempt _ (dependencies_satisfied-Ensures job.id old)) (λ r.
          Ensures-mono (satisfied r) (λ b d p. p) (λ x d p. p)
            (guarded (All (Ready old) (dependencies_of job.id old)) r _ (λ a.
              Ensures-bind _ _ (Ensures-attempt _ create_run-Added)
                (λ found. created-Ensures found i e a))))

    promote_since-Ensures :
        exists_where (active_run_of job.id) old.job_runs ≡ false
        → Ensures none
            (λ d. d ≡ old)
            (promote_since c now job (some (scheduled_last job.id old)))
            (Turn c now job old)
            Fails
    promote_since-Ensures i =
        Ensures-mono (λ d p. (p, λ e. e)) (λ b d p. p) (λ x d p. p)
          (guarded
            (next_run_due c job.cron_expr (scheduled_last job.id old) job.created_at now ≡ ok true)
            _ _ (promote_due-Ensures i))

    last_scheduled_found :
        (r : JobRun)
        → latest_run job.id old ≡ some r
        → some (some r.scheduled_at) ≡ some (scheduled_last job.id old)
    last_scheduled_found r e = rw (scheduled_last, e) refl

    last_scheduled-Missing :
        (d : Database) → Missing job.id old not_found d → none ≡ scheduled_last job.id old
    last_scheduled-Missing d (e, inl h) = rw (scheduled_last, h.1) refl
    last_scheduled-Missing d (e, inr h) = cc

    since-Ensures :
        exists_where (active_run_of job.id) old.job_runs ≡ false
        → (r : Result JobRun)
        → Ensures none
            (Either (λ r d. (d ≡ old) × (latest_run job.id old ≡ some r)) (Missing job.id old) r)
            (promote_since c now job (last_scheduled r))
            (Turn c now job old)
            Fails
    since-Ensures i (ok r) = record {
      at = λ w k p.
          (subst
              (λ o.
                Ensures none (λ d. d ≡ old) (promote_since c now job o) (Turn c now job old) Fails)
              (sym (last_scheduled_found r p.1)) (promote_since-Ensures i)).at
            w k p.0;
    }
    since-Ensures i (err not_found) = record {
      at = λ w k p.
          (subst
              (λ o.
                Ensures none (λ d. d ≡ old) (promote_since c now job (some o)) (Turn c now job old)
                  Fails)
              (sym (last_scheduled-Missing w.db p)) (promote_since-Ensures i)).at
            w k p.0;
    }
    since-Ensures i (err x) = Ensures-return false (λ d p. stays d p.0)

    -- Where no read replica is configured, one turn of PromoteOnce's loop never fails. It adds a
    -- run only if the job has no active run, is due, and its dependencies are ready; that run is
    -- pending, at the pass's time, with the job's priority, and nothing else changes.
    pub promote_job-Ensures :
        Ensures none (λ d. d ≡ old) (promote_job c now job) (Turn c now job old) (λ _ _. ⊥)
    unfolding promote_job promote_idle
    promote_job-Ensures = Ensures-bind _ _ (Ensures-attempt _ (has_active_run-Ensures job.id)) (λ r.
        Ensures-mono (unblocked r) (λ b d p. p) (λ x d p. p)
          (guarded (exists_where (active_run_of job.id) old.job_runs ≡ false) (negated r) _ (λ i.
            Ensures-bind _ _ (Ensures-attempt _ (latest_run_for_job-Ensures job.id old))
              (since-Ensures i))))
