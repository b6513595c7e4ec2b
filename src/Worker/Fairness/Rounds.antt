-- ===== src/Worker/Fairness/Rounds.antt =====
-- The rounds of leaseLoop while a run waits to be leased.
use taskflow.Common.{
  ℕ, zero, suc, ℤ, String, leb_ℤ, ◌≡◌, refl, sym, ap, subst, ◌⊎◌, ==_iff, Bool, true, false, not,
  ◌||◌, ◌==◌, Bool-cases, inl, inr, List, Option, none, some, is_some, arith, All-mono, In,
  mem-rows_where, rows_where-mem, mem-update_where,
}
use taskflow.Model.{Job, JobRun, RunStatus, pending}
use taskflow.Store.Tables.{JobRow, Database}
use taskflow.Store.Query.{Result, ok, err, World, ◌>>=◌, attempt}
use taskflow.Store.Post.{Post}
use taskflow.Store.Ensures.{Ensures, Ensures-bind, Ensures-return, Ensures-mono}
use taskflow.Store.Reliably.{Reliable}
use taskflow.Store.Runs.{run_is, max_smallint, leased_run, lease_next_run}
use taskflow.Store.Valid.{IsValid, run_ids}
use taskflow.Store.Lease.{Claimed, Leased, LeaseFails, lease_next_run-Ensures}
use taskflow.Store.Lease.Progress.{Unlocked, HasRoom, lease_next_run-Leases}
use taskflow.Store.Onward.{After}
use taskflow.Worker.Onward.{lease_round-MovesOn}
use taskflow.Worker.Pool.{Pool}
use taskflow.Worker.Loops.{after_lease, lease_round}
use taskflow.Worker.Isolation.{others, OthersKept, execute_one-Kept}
use taskflow.Worker.Attempts.{Within, AreWithin}
use taskflow.Worker.Attempts.Rounds.{Before, Counts, executions, counted, lease_round-Counts}
use taskflow.Worker.Attempts.Budget.{budget, executions-le-budget}
use taskflow.Worker.Fairness.{leased_within}

other_id : (a b : ℕ) → (a == b) ≡ false → (b == a) ≡ false
other_id a b h = elim (Bool-cases (b == a)) [
  | inl e ↦ cc (h, (==_iff a b).1 (sym ((==_iff b a).0 e)))
  | inr e ↦ e
]

or_right : (b c : Bool) → c ≡ true → (b || c) ≡ true
or_right b c h = ground arith

-- A row that OthersKept speaks of is there as it was.
others-mem :
    (id : ℕ) (r : JobRun) (old d : Database)
    → (r.id == id) ≡ false
    → others id d ≡ others id old
    → In r old.job_runs
    → In r d.job_runs
others-mem id r old d n same m =
    (mem-rows_where (λ x. not (run_is id x)) d.job_runs
      (subst (In r) (sym same) (rows_where-mem (λ x. not (run_is id x)) m (rw n refl)))).0

room-of : (jobs : List JobRow) (x : JobRun) → Within jobs (λ _. max_smallint) x → HasRoom x
room-of jobs x h = ground arith

module _ (p : Pool) (r : JobRun) (queued : r.status ≡ pending) (jobs : List JobRow)
    (ids : List ℕ) where
  -- The run waits to be leased.
  abbrev Waits : ℕ → World → Type 0
  Waits t w =
      Reliable w
      × Unlocked r.id w
      × Before jobs ids (λ _. max_smallint) t w.db
      × In r w.db.job_runs
      × (leb_ℤ r.scheduled_at w.now ≡ true)

  -- What a round that leases another run does.
  abbrev Executed : Option RunStatus → Database → Type 0
  Executed o d = (is_some o ≡ true) × In r d.job_runs

  execute_other :
      (run : JobRun) (job : Job)
      → (r.id == run.id) ≡ false
      → Ensures none
          (λ d. In r d.job_runs)
          (after_lease p (ok (some (run, job))))
          Executed
          (λ _ _. ⊥)
  unfolding after_lease
  execute_other run job n =
      Ensures-bind {Q = λ _ d. In r d.job_runs} _ _
        (record {
          at = λ w k m.
              (Ensures-mono (λ d h. h)
                  (λ a d (h : OthersKept run.id w.db d). others-mem run.id r w.db d n h.3 m)
                  (λ x d h. h) (execute_one-Kept none p run job w.db {E = λ _ _. ⊥})).at
                w k (refl, refl, refl, refl);
        })
        (λ status. Ensures-return (some status) (λ d m. (refl, m)))

  claimed_other :
      (worker : String) (duration : ℤ) (run : JobRun) (job : Job) (old d : Database)
      → (r.id == run.id) ≡ false
      → Claimed worker duration old run job d
      → In r old.job_runs
      → In r d.job_runs
  claimed_other worker duration run job old d n c m =
      let same : run.id ≡ c.before.id = ap (λ (x : JobRun). x.id) c.returned in
      subst (λ (x : Database). In r x.job_runs) (sym c.stored)
        (mem-update_where (run_is c.before.id) (leased_run worker duration c.now) m
          (subst (λ k. (r.id == k) ≡ false) same n))

  round_of :
      (w w' : World) (a : Result (Option (JobRun × Job))) (run : JobRun) (job : Job)
      → (r.id == run.id) ≡ false
      → a ≡ ok (some (run, job))
      → IsValid w.db
      → In r w.db.job_runs
      → Post none
          (Leased p.worker_id p.lease_duration w.db)
          (LeaseFails p.worker_id p.lease_duration w.db)
          (a, w')
      → Post none Executed (λ _ _. ⊥) (after_lease p a w')
  round_of w w' a run job n e v m post =
      let got =
        subst
          (λ x.
            Post none (Leased p.worker_id p.lease_duration w.db)
              (LeaseFails p.worker_id p.lease_duration w.db) (x, w'))
          e post in
      subst (λ x. Post none Executed (λ _ _. ⊥) (after_lease p x w')) (sym e)
        ((execute_other run job n).at w' got.0
          (claimed_other p.worker_id p.lease_duration run job w.db w'.db n got.1 m))

  -- So many rounds of which none leases the run execute one each.
  abbrev Fair : ℕ → World → Type 0
  Fair rounds w = (leased_within rounds r.id p w ≡ true) ⊎ (executions rounds p w ≡ rounds)

  Executed-Fair :
      (rounds t : ℕ) (w : World) (out : Result (Option RunStatus) × World)
      → Waits t w
      → After w out.1
      → Post none Executed (λ _ _. ⊥) out
      → Post none
          (Counts jobs ids (λ _. max_smallint) t)
          (λ _. Before jobs ids (λ _. max_smallint) t)
          out
      → ((u : ℕ) (w' : World) → Waits u w' → Fair rounds w')
      → (leased_within rounds r.id p out.1 ≡ true)
        ⊎ (counted out (executions rounds p) ≡ suc rounds)
  Executed-Fair rounds t w (ok none, w') h a x c go = cc (x.1.0)
  Executed-Fair rounds t w (err e, w') h a x c go = absurd x.1
  Executed-Fair rounds t w (ok (some status), w') h a x c go =
      elim (go (suc t) w'
        (a.reliable h.0, a.unlocked r.id h.1, c.1, x.1.1, a.later r.scheduled_at h.4)) [
          | inl e ↦ inl e
          | inr e ↦ inr (ap suc e)
        ]

  -- One round: it leases the run, or executes another.
  round-Fair :
      (rounds t : ℕ) (w : World)
      → Waits t w
      → ((u : ℕ) (w' : World) → Waits u w' → Fair rounds w')
      → Fair (suc rounds) w
  unfolding leased_within executions lease_round attempt ◌>>=◌
  round-Fair rounds t w h go =
      let lease = lease_next_run p.worker_id p.lease_duration in
      let (k, leases) =
        lease_next_run-Leases p.worker_id p.lease_duration r w h.0 h.1 h.2.0
          (All-mono _ w.db.job_runs (λ x i. room-of jobs x i) h.2.2) h.3 queued h.4 in
      let (before, now, job, m, b, e) = leases in
      elim (Bool-cases (before.id == r.id)) [
        | inl same ↦ inl (rw (e, same) refl)
        | inr other ↦
            elim (Executed-Fair rounds t w (lease_round p w) h ((lease_round-MovesOn p).at w)
              (round_of w (lease w).1 (lease w).0
                (leased_run p.worker_id p.lease_duration now before) job
                (other_id before.id r.id other) e h.2.0 h.3
                ((lease_next_run-Ensures none p.worker_id p.lease_duration w.db h.2.0).at w
                  h.0.alone refl))
              ((lease_round-Counts jobs ids (λ _. max_smallint) none t p).at w h.0.alone h.2) go) [
                | inl i ↦ inl (or_right _ _ i)
                | inr i ↦ inr i
              ]
      ]

  rounds-Fair : (rounds t : ℕ) (w : World) → Waits t w → Fair rounds w
  unfolding leased_within executions
  rounds-Fair zero t w h = inr refl
  rounds-Fair (suc rounds) t w h = round-Fair rounds t w h (rounds-Fair rounds)

-- A run that is pending and due is leased by the lease loop of a worker before long, however the
-- other runs are ranked: in as many rounds as the runs of the tables have attempts to come, and one
-- more. The tables are valid, the attempts to come have room in their column, the network delivers
-- every reply, no read replica is configured, no other transaction locks the run, and nobody else
-- changes the tables meanwhile. The handlers may answer what they like.
pub leased_within-budget :
    (p : Pool) (r : JobRun) (w : World)
    → Reliable w
    → Unlocked r.id w
    → IsValid w.db
    → AreWithin w.db.jobs (λ _. max_smallint) w.db
    → In r w.db.job_runs
    → r.status ≡ pending
    → leb_ℤ r.scheduled_at w.now ≡ true
    → leased_within (suc (budget w.db)) r.id p w ≡ true
leased_within-budget p r w k u v room m queued due =
    elim (rounds-Fair p r queued w.db.jobs (run_ids w.db) (suc (budget w.db)) 0 w
      (k, u, (v, (refl, refl, omega arith), room), m, due)) [
        | inl h ↦ h
        | inr h ↦ absurd (omega (arith, h, executions-le-budget (suc (budget w.db)) p w v))
      ]
