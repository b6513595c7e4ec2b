-- ===== src/Scheduler/Pass.antt =====
-- What a whole pass of PromoteOnce does to the tables, where no read replica is configured.
use mathlib.Core.List.{append-nil, append_assoc}
use taskflow.Common.{
  ℕ, ◌+◌, ◌≤◌, ℤ, ◌≡◌, refl, sym, ap, subst, ◌∙◌, inl, inr, Bool, true, false, List, [], ◌∷◌, ◌++◌,
  none, arith, All, All-append, length, length-append, exists_where, count_where,
  count_where-append, count_where-eq-zero_iff, if◌then◌else◌, Bool-cases, ◌==◌, ==_iff,
}
use taskflow.Model.{Job, JobRun, pending}
use taskflow.Store.Tables.{Database}
use taskflow.Store.Query.{return, attempt, ◌>>=◌, time_now}
use taskflow.Store.Ensures.{Ensures, Ensures-bind, Ensures-return, Ensures-mono}
use taskflow.Store.Keeps.{attempt-Ensures}
use taskflow.Store.Reads.{list_jobs-Keeps, count_pending_runs-Keeps}
use taskflow.Store.Runs.{active_run_of, new_run, count_pending_runs}
use taskflow.Scheduler.Schedule.{Cron}
use taskflow.Scheduler.Promoter.{promote_jobs, promote_once}
use taskflow.Scheduler.Promotion.{Promoted, Turn, promote_job-Ensures}

-- No job has two runs that are pending, leased or running.
abbrev pub AtMostOneActive : Database → Type 0
AtMostOneActive d = (job : ℕ) → count_where (active_run_of job) d.job_runs ≤ 1

add_run-AtMostOneActive :
    (rs : List JobRun) (r : JobRun) (job : ℕ)
    → exists_where (active_run_of r.job_id) rs ≡ false
    → count_where (active_run_of job) rs ≤ 1
    → count_where (active_run_of job) (rs ++ r ∷ []) ≤ 1
unfolding count_where
add_run-AtMostOneActive rs r job idle h = elim (Bool-cases (r.job_id == job)) [
  | inl e ↦ grind (
    arith,
    count_where-append (active_run_of job) rs (r ∷ []),
    count_where-eq-zero_iff (active_run_of job) rs
        (subst (λ j. exists_where (active_run_of j) rs ≡ false) ((==_iff r.job_id job).0 e) idle),
  )
  | inr e ↦ ground (arith, count_where-append (active_run_of job) rs (r ∷ []), h)
]

-- The rows that a pass at `now` adds.
abbrev pub IsFresh : ℤ → JobRun → Type 0
IsFresh now r =
    (r.status ≡ pending) × (r.attempt ≡ 0) × (r.scheduled_at ≡ now) × (r.leased_by ≡ none)

-- What a pass leaves: more runs at the end of job_runs, all of them fresh, and nothing else
-- changed; no job has two active runs if none had. `promoted` counts no more than these rows.
pub record Grown (now : ℤ) (promoted : ℕ) (old d : Database) : Type 0 where
  pub added : List JobRun
  pub fresh : All (IsFresh now) added
  pub stored : d ≡ record old { job_runs = old.job_runs ++ added }
  pub counted : promoted ≤ length added
  pub exclusive : AtMostOneActive old → AtMostOneActive d

module _ (c : Cron) (now : ℤ) where
  Grown-none : (old d : Database) → d ≡ old → Grown now 0 old d
  Grown-none old d e = record {
    added = [];
    fresh = tt;
    stored =
        e ∙ ap {A = List JobRun} (λ l. record old { job_runs = l }) (sym (append-nil old.job_runs));
    counted = omega arith;
    exclusive = λ h. subst AtMostOneActive (sym e) h;
  }

  Grown-one : (job : Job) (old d : Database) → Promoted c now job old d → Grown now 1 old d
  Grown-one job old d p = record {
    added = new_run job.id job.priority now p.added.0 p.added.1 ∷ [];
    fresh = ((refl, refl, refl, refl), tt);
    stored = p.added.2;
    counted = omega arith;
    exclusive = λ h.
        subst AtMostOneActive (sym p.added.2)
          (λ j. add_run-AtMostOneActive old.job_runs _ j p.idle (h j));
  }

  -- One turn after another.
  Grown-step :
      (m n : ℕ) (old mid d : Database)
      → Grown now m old mid
      → Grown now n mid d
      → Grown now (m + n) old d
  Grown-step m n old mid d g h = record {
    added = g.added ++ h.added;
    fresh = All-append (IsFresh now) g.added h.added g.fresh h.fresh;
    stored =
        h.stored
        ∙ ap {A = Database} (λ x. record x { job_runs = x.job_runs ++ h.added }) g.stored
        ∙ ap {A = List JobRun} (λ l. record old { job_runs = l })
            (append_assoc old.job_runs g.added h.added);
    counted = omega (arith, g.counted, h.counted, length-append g.added h.added);
    exclusive = λ x. h.exclusive (g.exclusive x);
  }

  Grown-uncounted : (n : ℕ) (old d : Database) → Grown now n old d → Grown now 0 old d
  Grown-uncounted n old d g = record {
    added = g.added;
    fresh = g.fresh;
    stored = g.stored;
    counted = omega arith;
    exclusive = g.exclusive;
  }

  Turn-Grown :
      (job : Job) (done : Bool) (promoted : ℕ) (start old d : Database)
      → Grown now promoted start old
      → Turn c now job old done d
      → Grown now (if done then promoted + 1 else promoted) start d
  Turn-Grown job true promoted start old d g (inl h) = cc
  Turn-Grown job false promoted start old d g (inl h) = subst (Grown now promoted start) (sym h.1) g
  Turn-Grown job true promoted start old d g (inr p) =
      Grown-step promoted 1 start old d g (Grown-one job old d p)
  Turn-Grown job false promoted start old d g (inr p) =
      subst (λ n. Grown now n start d) (omega arith)
        (Grown-step promoted 0 start old d g (Grown-uncounted 1 old d (Grown-one job old d p)))

  promote_jobs-Ensures :
      (jobs : List Job) (promoted : ℕ) (start old : Database)
      → Grown now promoted start old
      → Ensures none
          (λ d. d ≡ old)
          (promote_jobs c now jobs promoted)
          (λ n d. Grown now n start d)
          (λ _ _. ⊥)
  unfolding promote_jobs
  promote_jobs-Ensures [] promoted start old g =
      Ensures-return promoted (λ d e. subst (Grown now promoted start) (sym e) g)
  promote_jobs-Ensures (job ∷ jobs) promoted start old g =
      Ensures-bind _ _ (promote_job-Ensures old c now job) (λ done. record {
        at = λ w k t.
            (promote_jobs-Ensures jobs _ start w.db
                (Turn-Grown job done promoted start old w.db g t)).at
              w k refl;
      })

  -- The loop, and the queue depth after it.
  promote_listed-Ensures :
      (jobs : List Job) (old : Database)
      → Ensures none
          (λ d. d ≡ old)
          (promote_jobs c now jobs 0 >>= λ n. attempt count_pending_runs >>= λ _. return n)
          (λ n d. Grown now n old d)
          (λ _ _. ⊥)
  promote_listed-Ensures jobs old =
      Ensures-bind _ _ (promote_jobs-Ensures jobs 0 old old (Grown-none old old refl)) (λ n.
        Ensures-bind _ _ (attempt-Ensures _ count_pending_runs-Keeps)
          (λ _. Ensures-return n (λ d g. g)))

-- Where no read replica is configured, PromoteOnce either fails and changes nothing, or gives the
-- number of runs it promoted: it has added at least so many runs, each pending, without a lease and
-- due at the pass's one time, and has changed nothing else. No job has two active runs afterwards
-- if none had before.
pub promote_once-Ensures :
    (c : Cron) (old : Database)
    → Ensures none
        (λ d. d ≡ old)
        (promote_once c)
        (λ n d. (now : ℤ) × Grown now n old d)
        (λ _ d. d ≡ old)
unfolding promote_once time_now attempt return ◌>>=◌
promote_once-Ensures c old = Ensures-bind {Q = λ _ d. d ≡ old} _ _ (list_jobs-Keeps _ _ _) (λ jobs.
    record {
      at = λ w k e.
          (Ensures-mono {Q' = λ n d. (now : ℤ) × Grown now n old d} {E' = λ _ d. d ≡ old} (λ d p. p)
              (λ n d g. (w.now, g)) (λ x d f. absurd f)
              (promote_listed-Ensures c w.now jobs old)).at
            w k e;
    })
