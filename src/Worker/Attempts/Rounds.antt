-- ===== src/Worker/Attempts/Rounds.antt =====
-- The rounds of the lease loop that execute a run, however many there are.
use taskflow.Common.{
  ℕ, zero, suc, ◌+◌, ◌-◌, ◌≤◌, ℤ, pos, ltb_ℤ, String, ◌≡◌, refl, sym, subst, true, inl, inr, List,
  [], ◌∷◌, map, Option, none, some, arith, All, All-mono,
}
use taskflow.Model.{Job, JobRun, RunStatus}
use taskflow.Store.Tables.{JobRow, Database}
use taskflow.Store.Query.{Error, Result, ok, err, World}
use taskflow.Store.Ensures.{
  Ensures, Ensures-mono, Ensures-both, Ensures-bind, Ensures-return, Ensures-attempt,
}
use taskflow.Store.Runs.{lease_next_run}
use taskflow.Store.Lease.{Leased, LeaseFails, lease_next_run-Ensures}
use taskflow.Store.Post.{Either, Post}
use taskflow.Store.Valid.{IsValid}
use taskflow.Store.Valid.Calls.{lease_next_run-Keeps}
use taskflow.Worker.Safety.{execute_one-Keeps}
use taskflow.Worker.Keeping.{wait-Ensures}
use taskflow.Worker.Pool.{Pool, execute_one}
use taskflow.Worker.Loops.{after_lease, lease_round}
use taskflow.Worker.Attempts.{
  sum, total, Stands, allowed, Within, AreWithin, Held, execute_one-Held,
}
use taskflow.Worker.Attempts.Claims.{Claimed-Held}

module _ (jobs : List JobRow) (ids : List ℕ) (most : ℕ → ℕ) where
  -- Between two rounds.
  abbrev pub Before : ℕ → Database → Type 0
  Before t d = IsValid d × Stands jobs ids t d × AreWithin jobs most d

  -- What LeaseNextRun gives to executeOne.
  abbrev Ready : ℕ → JobRun → Job → Database → Type 0
  Ready t run job d =
      IsValid d
      × Held jobs ids (suc t) most run.id run.job_id run.attempt d
      × (ltb_ℤ (pos run.attempt) job.max_attempts ≡ true
          → run.attempt + suc (allowed jobs run.job_id - suc run.attempt) ≤ most run.id)

  abbrev Found : ℕ → Option (JobRun × Job) → Database → Type 0
  Found t none = Before t
  Found t (some (run, job)) = Ready t run job

  released :
      (t id job n : ℕ) (d : Database) → IsValid d → Held jobs ids t most id job n d → Before t d
  released t id job n d v h = (v, h.0, All-mono _ d.job_runs (λ x q. q.0) h.1)

  one_less : (t : ℕ) (d : Database) → Before (suc t) d → Before t d
  one_less t d b = (b.0, (b.1.0, b.1.1, omega (arith, b.1.2)), b.2)

  module _ (t : ℕ) (worker : String) (duration : ℤ) (old : Database) (b : Before t old) where
    leased-Found :
        (o : Option (JobRun × Job)) (d : Database)
        → IsValid d
        → Leased worker duration old o d
        → Found t o d
    leased-Found none d v l = subst (Before t) (sym l.3) b
    leased-Found (some (run, job)) d v l =
        let (held, room) =
          Claimed-Held jobs ids t most worker duration old b.0 b.2 b.1 run job d l in
        (v, held, room)

    found-Before : (o : Option (JobRun × Job)) (d : Database) → IsValid d → Found t o d → Before t d
    found-Before none d v f = f
    found-Before (some (run, job)) d v f =
        one_less t d (released (suc t) run.id run.job_id run.attempt d v f.1)

    fails-Before :
        (x : Error) (d : Database) → IsValid d → LeaseFails worker duration old x d → Before t d
    fails-Before x d v (inl e) = subst (Before t) (sym e) b
    fails-Before x d v (inr (u, (o, l))) = found-Before o d v (leased-Found o d v l)

  lease_next_run-Found :
      (R : Option Database) (t : ℕ) (worker : String) (duration : ℤ)
      → Ensures R (Before t) (lease_next_run worker duration) (Found t) (λ _. Before t)
  lease_next_run-Found R t worker duration = record {
    at = λ w k b.
        (Ensures-mono (λ d h. h) (λ o d h. leased-Found t worker duration w.db b o d h.1 h.0)
            (λ x d h. fails-Before t worker duration w.db b x d h.1 h.0)
            (Ensures-both _ (lease_next_run-Ensures R worker duration w.db b.0)
              (lease_next_run-Keeps worker duration))).at
          w k (refl, b.0);
  }

  -- After a round: one attempt more, if it executed a run.
  abbrev pub Counts : ℕ → Option RunStatus → Database → Type 0
  Counts t none = Before t
  Counts t (some status) = Before (suc t)

  execute_one-Counts :
      (R : Option Database) (t : ℕ) (p : Pool) (run : JobRun) (job : Job)
      → Ensures R (Ready t run job) (execute_one p run job) (λ _. Before (suc t)) (λ _. Before t)
  execute_one-Counts R t p run job = record {
    at = λ w k r.
        (Ensures-mono
            {P' = λ d. IsValid d × Held jobs ids (suc t) most run.id run.job_id run.attempt d}
            (λ d h. h) (λ a d h. released (suc t) run.id run.job_id run.attempt d h.0 h.1)
            (λ x d h. one_less t d (released (suc t) run.id run.job_id run.attempt d h.0 h.1))
            (Ensures-both _ (execute_one-Keeps p run job) (
              execute_one-Held jobs ids (suc t) most run.id run.job_id run.attempt R p run job refl
                r.2))).at
          w k (r.0, r.1);
  }

  after_lease-Counts :
      (R : Option Database) (t : ℕ) (p : Pool) (leased : Result (Option (JobRun × Job)))
      → Ensures R
          (Either (Found t) (λ _. Before t) leased)
          (after_lease p leased)
          (Counts t)
          (λ _. Before t)
  unfolding after_lease
  after_lease-Counts R t p (err e) =
      Ensures-bind _ _ (wait-Ensures _) (λ u. Ensures-return _ (λ d b. b))
  after_lease-Counts R t p (ok none) =
      Ensures-bind _ _ (wait-Ensures _) (λ u. Ensures-return _ (λ d b. b))
  after_lease-Counts R t p (ok (some (run, job))) =
      Ensures-bind _ _ (execute_one-Counts R t p run job) (λ status. Ensures-return _ (λ d b. b))

  pub lease_round-Counts :
      (R : Option Database) (t : ℕ) (p : Pool)
      → Ensures R (Before t) (lease_round p) (Counts t) (λ _. Before t)
  unfolding lease_round
  lease_round-Counts R t p =
      Ensures-bind _ _ (Ensures-attempt _ (lease_next_run-Found R t p.worker_id p.lease_duration))
        (after_lease-Counts R t p)

-- The rounds of leaseLoop that execute a run, of so many.
abbrev pub counted : Result (Option RunStatus) × World → (World → ℕ) → ℕ
counted (ok none, w) rest = rest w
counted (ok (some status), w) rest = suc (rest w)
counted (err e, w) rest = 0

unfoldable pub executions : ℕ → Pool → World → ℕ
executions zero p w = 0
executions (suc rounds) p w = counted (lease_round p w) (executions rounds p)

module _ (jobs : List JobRow) (ids : List ℕ) (most : ℕ → ℕ) where
  total-le :
      (rs : List JobRun)
      → All (Within jobs most) rs
      → sum (map (λ r. r.attempt) rs) ≤ sum (map most (map (λ (r : JobRun). r.id) rs))
  total-le [] h = omega arith
  total-le (r ∷ rs) h = omega (arith, h.0, total-le rs h.1)

  Before-le : (t : ℕ) (d : Database) → Before jobs ids most t d → t ≤ sum (map most ids)
  Before-le t d b =
      omega (arith, b.1.2, subst (λ k. total d ≤ sum (map most k)) b.1.1 (total-le d.job_runs b.2))

  counted-le :
      (R : Option Database) (t : ℕ) (rest : World → ℕ) (r : Result (Option RunStatus) × World)
      → ((u : ℕ) (w : World)
          → w.replica ≡ R
          → Before jobs ids most u w.db
          → u + rest w ≤ sum (map most ids))
      → Post R (Counts jobs ids most t) (λ _. Before jobs ids most t) r
      → t + counted r rest ≤ sum (map most ids)
  counted-le R t rest (ok none, w) h q = h t w q.0 q.1
  counted-le R t rest (ok (some status), w) h q = omega (arith, h (suc t) w q.0 q.1)
  counted-le R t rest (err e, w) h q = omega (arith, Before-le t w.db q.1)

  pub executions-le :
      (R : Option Database) (rounds : ℕ) (p : Pool) (t : ℕ) (w : World)
      → w.replica ≡ R
      → Before jobs ids most t w.db
      → t + executions rounds p w ≤ sum (map most ids)
  unfolding executions
  executions-le R zero p t w k b = omega (arith, Before-le t w.db b)
  executions-le R (suc rounds) p t w k b =
      counted-le R t (executions rounds p) (lease_round p w) (λ u v. executions-le R rounds p u v)
        ((lease_round-Counts jobs ids most R t p).at w k b)
