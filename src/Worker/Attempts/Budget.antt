-- ===== src/Worker/Attempts/Budget.antt =====
-- The attempts that are left to the runs of a table bound the rounds that execute a run.
use taskflow.Common.{
  ℕ, ◌+◌, ◌≤◌, ◌≡◌, refl, ==_iff, inl, inr, Bool-cases, List, [], ◌∷◌, map, arith, All, In, here,
  there, Distinct, ◌==◌, if◌then◌else◌, All-mono,
}
use taskflow.Model.{JobRun}
use taskflow.Store.Tables.{JobRow, Database}
use taskflow.Store.Query.{World}
use taskflow.Store.Valid.{IsValid, run_ids}
use taskflow.Worker.Pool.{Pool}
use taskflow.Worker.Attempts.{sum, total, to_come, Within}
use taskflow.Worker.Attempts.Rounds.{executions, executions-le}

-- The attempts to come of all runs.
abbrev pub budget : Database → ℕ
budget d = sum (map (to_come d.jobs) d.job_runs)

module _ (jobs : List JobRow) where
  -- What the row with an id counts now and may count yet.
  abbrev most_of : List JobRun → ℕ → ℕ
  most_of [] id = 0
  most_of (r ∷ rs) id = if r.id == id then r.attempt + to_come jobs r else most_of rs id

  abbrev Meets : (ℕ → ℕ) → JobRun → Type 0
  Meets most r = most r.id ≡ r.attempt + to_come jobs r

  later_met :
      (r : JobRun) (rs xs : List JobRun)
      → ¬ In r.id (map (λ (x : JobRun). x.id) xs)
      → All (Meets (most_of rs)) xs
      → All (Meets (most_of (r ∷ rs))) xs
  later_met r rs [] n h = tt
  later_met r rs (x ∷ xs) n h = elim (Bool-cases (r.id == x.id)) [
    | inl e ↦ absurd (n (here ((==_iff r.id x.id).0 e)))
    | inr e ↦ (rw e h.0, later_met r rs xs (λ m. n (there m)) h.1)
  ]

  all_met : (rs : List JobRun) → Distinct (map (λ r. r.id) rs) → All (Meets (most_of rs)) rs
  all_met [] d = tt
  all_met (r ∷ rs) d = (rw ((==_iff r.id r.id).1 refl) refl, later_met r rs rs d.0 (all_met rs d.1))

  met-Within : (most : ℕ → ℕ) (r : JobRun) → Meets most r → Within jobs most r
  met-Within most r e = omega (arith, e)

  sum-met :
      (most : ℕ → ℕ) (rs : List JobRun)
      → All (Meets most) rs
      → sum (map most (map (λ (r : JobRun). r.id) rs))
        ≡ sum (map (λ r. r.attempt) rs) + sum (map (to_come jobs) rs)
  sum-met most [] h = omega arith
  sum-met most (r ∷ rs) h = omega (arith, h.0, sum-met most rs h.1)

-- However many rounds the lease loop of a worker makes on valid tables, whatever its handlers answer
-- and whatever the network loses, no more of them execute a run than there are attempts left: for
-- each pending run one, and one more for each attempt that its job's max_attempts leaves after that.
-- Nobody else changes the tables meanwhile.
pub executions-le-budget :
    (rounds : ℕ) (p : Pool) (w : World) → IsValid w.db → executions rounds p w ≤ budget w.db
executions-le-budget rounds p w v =
    let jobs = w.db.jobs in
    let most = most_of jobs w.db.job_runs in
    let met = all_met jobs w.db.job_runs v.distinct_runs in
    omega (
      arith,
      executions-le jobs (run_ids w.db) most w.replica rounds p (total w.db) w refl (
        v,
        (refl, refl, omega arith),
        All-mono (Meets jobs most) w.db.job_runs (met-Within jobs most) met,
      ),
      sum-met jobs most w.db.job_runs met,
    )
