-- ===== src/Scheduler/Dependencies.antt =====
-- DependenciesSatisfied and the latest run of a job, as they read tables without a replica.
use mathlib.Core.Option.{some-injective}
use taskflow.Common.{
  ℕ, ◌≡◌, refl, sym, ap, subst, ◌∙◌, ◌↔◌, ◌⊎◌, inl, inr, Bool, true, false, List, [], ◌∷◌, none,
  some, arith, All, first, take, Bool-cases, if◌then◌else◌,
}
use taskflow.Model.{JobRun, RunStatus, succeeded, status_eq}
use taskflow.Store.Tables.{Database}
use taskflow.Store.Query.{
  Error, no_rows, unavailable, not_found, Result, ok, err, Query, return, reader,
}
use taskflow.Store.Post.{Either}
use taskflow.Store.Ensures.{
  Ensures, Ensures-return, Ensures-raise, Ensures-on_error, Ensures-select_alone, Ensures-bind,
  Ensures-attempt, Ensures-mono,
}
use taskflow.Store.Jobs.{one_row, dependencies_of, list_dependencies, fetch_dependencies}
use taskflow.Store.Runs.{latest_run, latest_run_for_job}
use taskflow.Scheduler.Schedule.{check_dependency, all_succeeded, dependencies_satisfied}

one_row-first : (xs : List JobRun) (r : JobRun) → one_row (take 1 xs) ≡ ok r → first xs ≡ some r
one_row-first [] r h = cc
one_row-first (x ∷ xs) r h = cc

one_row-none :
    (xs : List JobRun) (x : Error) → one_row (take 1 xs) ≡ err x → (x ≡ no_rows) × (first xs ≡ none)
one_row-none [] x h = (ground arith, refl)
one_row-none (y ∷ ys) x h = cc

-- What the promoter learns of a job's latest run: there is none, or the read failed.
abbrev pub Missing : ℕ → Database → Error → Database → Type 0
Missing job old x d =
    (d ≡ old) × (((x ≡ not_found) × (latest_run job old ≡ none)) ⊎ (x ≡ unavailable))

-- Where no read replica is configured, LatestRunForJob gives the latest run by creation,
-- ErrNotFound if the job has none, and no other error but a failure of the connection. Nothing is
-- written.
pub latest_run_for_job-Ensures :
    (job : ℕ) (old : Database)
    → Ensures none
        (λ d. d ≡ old)
        (latest_run_for_job job)
        (λ r d. (d ≡ old) × (latest_run job old ≡ some r))
        (Missing job old)
unfolding latest_run_for_job
latest_run_for_job-Ensures job old =
    Ensures-on_error
      {F = λ x d. (d ≡ old) × (((x ≡ no_rows) × (latest_run job old ≡ none)) ⊎ (x ≡ unavailable))} _
      _
      (Ensures-select_alone reader _
        (λ d r e h. (e, subst (λ y. latest_run job y ≡ some r) e (one_row-first _ r h)))
        (λ d x e h.
          (e, inl (subst (λ y. (x ≡ no_rows) × (latest_run job y ≡ none)) e (one_row-none _ x h))))
        (λ d e. (e, inr refl)))
      (λ x. Ensures-raise _ (λ d h. (h.0, ground (arith, h.1))))

-- The latest run of a dependency succeeded.
abbrev pub Ready : Database → ℕ → Type 0
Ready d dep = (run : JobRun) × (latest_run dep d ≡ some run) × (run.status ≡ succeeded)

not-Ready-none : (d : Database) (dep : ℕ) → latest_run dep d ≡ none → ¬ Ready d dep
not-Ready-none d dep e (run, h, s) = cc

status_eq_succeeded : (s : RunStatus) → (status_eq s succeeded ≡ true) ↔ (s ≡ succeeded)
status_eq_succeeded s = ground arith

Ready-run :
    (d : Database) (dep : ℕ) (run : JobRun)
    → latest_run dep d ≡ some run
    → Ready d dep
    → run.status ≡ succeeded
Ready-run d dep run e (r, h, s) =
    ap (λ (x : JobRun). x.status) (some-injective run r (sym e ∙ h)) ∙ s

-- What a loop over dependencies answers.
abbrev Answers : Database → List ℕ → Bool → Database → Type 0
Answers old deps b d = (d ≡ old) × ((b ≡ true) ↔ All (Ready old) deps)

refused_by :
    (old : Database) (dep : ℕ) (deps : List ℕ)
    → ¬ Ready old dep
    → (false ≡ true) ↔ All (Ready old) (dep ∷ deps)
refused_by old dep deps n = (λ e. cc, λ a. absurd (n a.0))

passed_by :
    (old : Database) (dep : ℕ) (deps : List ℕ) (b : Bool)
    → Ready old dep
    → (b ≡ true) ↔ All (Ready old) deps
    → (b ≡ true) ↔ All (Ready old) (dep ∷ deps)
passed_by old dep deps b r h = (λ e. (r, h.0 e), λ a. h.1 a.1)

check_run-Ensures :
    (old : Database) (dep : ℕ) (deps : List ℕ) (rest : Query Bool) (run : JobRun)
    → latest_run dep old ≡ some run
    → Ensures none (λ d. d ≡ old) rest (Answers old deps) (λ _ d. d ≡ old)
    → Ensures none
        (λ d. d ≡ old)
        (if status_eq run.status succeeded then rest else return false)
        (Answers old (dep ∷ deps))
        (λ _ d. d ≡ old)
check_run-Ensures old dep deps rest run e h = elim (Bool-cases (status_eq run.status succeeded)) [
  | inl t ↦ rw t (
      Ensures-mono (λ d p. p)
        (λ b d p.
          (p.0, passed_by old dep deps b (run, e, (status_eq_succeeded run.status).0 t) p.1))
        (λ x d p. p) h)
  | inr f ↦ rw f (
      Ensures-return false (λ d p. (
        p,
        refused_by old dep deps
            (λ r. cc (f, (status_eq_succeeded run.status).1 (Ready-run old dep run e r))),
      )))
]

check_dependency-Ensures :
    (old : Database) (dep : ℕ) (deps : List ℕ) (rest : Query Bool) (found : Result JobRun)
    → Ensures none (λ d. d ≡ old) rest (Answers old deps) (λ _ d. d ≡ old)
    → Ensures none
        (Either (λ r d. (d ≡ old) × (latest_run dep old ≡ some r)) (Missing dep old) found)
        (check_dependency found rest)
        (Answers old (dep ∷ deps))
        (λ _ d. d ≡ old)
unfolding check_dependency
check_dependency-Ensures old dep deps rest (ok run) h = record {
  at = λ w k p. (check_run-Ensures old dep deps rest run p.1 h).at w k p.0;
}
check_dependency-Ensures old dep deps rest (err Error.not_found) h =
    Ensures-return false
      (λ d p. (p.0, refused_by old dep deps (not-Ready-none old dep (ground (arith, p.1)))))
check_dependency-Ensures old dep deps rest (err _) h = Ensures-raise _ (λ d p. p.0)

all_succeeded-Ensures :
    (old : Database) (deps : List ℕ)
    → Ensures none (λ d. d ≡ old) (all_succeeded deps) (Answers old deps) (λ _ d. d ≡ old)
unfolding all_succeeded
all_succeeded-Ensures old [] = Ensures-return true (λ d e. (e, ((λ t. tt), (λ u. refl))))
all_succeeded-Ensures old (dep ∷ deps) =
    Ensures-bind _ _ (Ensures-attempt _ (latest_run_for_job-Ensures dep old)) (λ found.
      check_dependency-Ensures old dep deps (all_succeeded deps) found
        (all_succeeded-Ensures old deps))

-- Where no read replica is configured, DependenciesSatisfied answers true exactly if the latest
-- run of every dependency of the job has succeeded; a dependency without a run blocks the job.
-- Nothing is written, whether it answers or fails.
pub dependencies_satisfied-Ensures :
    (job : ℕ) (old : Database)
    → Ensures none
        (λ d. d ≡ old)
        (dependencies_satisfied job)
        (λ b d. (d ≡ old) × ((b ≡ true) ↔ All (Ready old) (dependencies_of job old)))
        (λ _ d. d ≡ old)
unfolding dependencies_satisfied list_dependencies fetch_dependencies
dependencies_satisfied-Ensures job old =
    Ensures-bind {Q = λ deps d. (d ≡ old) × (deps ≡ dependencies_of job old)} _ _
      (Ensures-select_alone reader _ (λ d deps e h. (e, ground (arith, e, h))) (λ d x e h. e)
        (λ d e. e))
      (λ deps. record {
        at = λ w k p.
            (subst
                (λ l.
                  Ensures none (λ d. d ≡ old) (all_succeeded deps) (Answers old l) (λ _ d. d ≡ old))
                p.1 (all_succeeded-Ensures old deps)).at
              w k p.0;
      })
