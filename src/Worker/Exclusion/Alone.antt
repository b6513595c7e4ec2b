-- ===== src/Worker/Exclusion/Alone.antt =====
-- No two loops have the same run in hand.
use mathlib.Core.Option.{some-injective}
use taskflow.Common.{
  ℕ, ℤ, String, ◌≡◌, ◌≢◌, refl, sym, ap, ◌∙◌, subst, ==_iff, true, false, Bool-cases, inl, inr,
  ◌==◌, Option, none, some, In, mem-map, All-mem, All-updated, map-update_where,
}
use taskflow.Model.{Job, JobRun, pending, status_eq}
use taskflow.Store.Tables.{Database}
use taskflow.Store.Query.{Result, ok, err, World, Query}
use taskflow.Store.Post.{Post}
use taskflow.Store.Ensures.{Keeps}
use taskflow.Store.Runs.{run_is, leased_run}
use taskflow.Store.Valid.{IsValid}
use taskflow.Store.Lease.Progress.{eligible-pending}
use taskflow.Store.Lease.{Claimed, Leased, LeaseFails}
use taskflow.Worker.Exclusion.{
  Phase, idle, fetched, System, held, with_loop, seen, moved, leased_by,
}
use taskflow.Worker.Exclusion.Taken.{IsTaken, update-IsTaken}

-- Each loop has a run in hand that is not pending, and no other has it.
pub record IsSound (s : System) : Type 0 where
  pub valid : IsValid s.db
  pub taken : (i id : ℕ) → held (s.loops i) ≡ some id → IsTaken id s.db
  pub alone : (i j id : ℕ) → held (s.loops i) ≡ some id → held (s.loops j) ≡ some id → i ≡ j

pub kept-db :
    {A : Type 0} (R : Option Database) (P : Database → Type 0) (r : Result A × World)
    → Post R (λ _. P) (λ _. P) r
    → P r.1.db
kept-db R P (ok a, w) h = h.1
kept-db R P (err e, w) h = h.1

module _ (s : System) (h : IsSound s) (i : ℕ) where
  -- A loop keeps its run in hand, or lets go of it.
  module _ (ph : Phase) (d : Database)
      (drop : (id : ℕ) → held ph ≡ some id → held (s.loops i) ≡ some id) where
    back : (j id : ℕ) → held (with_loop i ph s.loops j) ≡ some id → held (s.loops j) ≡ some id
    back j id e = elim (Bool-cases (i == j)) [
      | inl same ↦
          subst (λ k. held (s.loops k) ≡ some id) ((==_iff i j).0 same) (drop id (rw same at e))
      | inr other ↦ rw other at e
    ]

    turn-IsSound :
        IsValid d
        → ((j id : ℕ)
            → held (s.loops j) ≡ some id
            → held (with_loop i ph s.loops j) ≡ some id
            → IsTaken id d)
        → IsSound (record { db = d; loops = with_loop i ph s.loops })
    turn-IsSound v t = record {
      valid = v;
      taken = λ j id e. t j id (back j id e) e;
      alone = λ j k id e f. h.alone j k id (back j id e) (back k id f);
    }

  -- A loop takes a run that nobody has in hand.
  take-IsSound :
      (run : JobRun) (job : Job) (d : Database)
      → IsValid d
      → ((id : ℕ) → IsTaken id s.db → IsTaken id d)
      → IsTaken run.id d
      → ((j : ℕ) → held (s.loops j) ≢ some run.id)
      → IsSound (record { db = d; loops = with_loop i (fetched run job) s.loops })
  take-IsSound run job d v keep new free = record {
    valid = v;
    taken = λ j id e. elim (Bool-cases (i == j)) [
      | inl same ↦ subst (λ k. IsTaken k d) (some-injective run.id id (rw same at e)) new
      | inr other ↦ keep id (h.taken j id (rw other at e))
    ];
    alone = λ j k id e f. elim (Bool-cases (i == j)) [
      | inl same ↦ elim (Bool-cases (i == k)) [
        | inl also ↦ sym ((==_iff i j).0 same) ∙ (==_iff i k).0 also
        | inr other ↦ absurd (free k ((rw other at f) ∙ sym (rw same at e)))
      ]
      | inr other ↦ elim (Bool-cases (i == k)) [
        | inl also ↦ absurd (free j ((rw other at e) ∙ sym (rw also at f)))
        | inr neither ↦ h.alone j k id (rw other at e) (rw neither at f)
      ]
    ];
  }

  -- A call of executeOne, and what becomes of the loop.
  pub call-IsSound :
      {A : Type 0} (ph : Phase) (q : Query A) (w : World)
      → ((id : ℕ) → held ph ≡ some id → held (s.loops i) ≡ some id)
      → Keeps w.replica IsValid q
      → ((j id : ℕ)
          → held (s.loops j) ≡ some id
          → held (with_loop i ph s.loops j) ≡ some id
          → Keeps w.replica (IsTaken id) q)
      → IsSound (moved s i ph (q (seen s w)).1)
  call-IsSound ph q w drop v k =
      turn-IsSound ph (q (seen s w)).1.db drop
        (kept-db w.replica IsValid (q (seen s w)) (v.at (seen s w) refl h.valid))
        (λ j id e f.
          kept-db w.replica (IsTaken id) (q (seen s w))
            ((k j id e f).at (seen s w) refl (h.taken j id e)))

  pub dropped : (id : ℕ) → held idle ≡ some id → held (s.loops i) ≡ some id
  dropped id e = cc

  -- The run that a loop requeues is in no other hand.
  pub others-apart :
      (run : ℕ)
      → held (s.loops i) ≡ some run
      → (j id : ℕ) → held (s.loops j) ≡ some id
      → held (with_loop i idle s.loops j) ≡ some id
      → (id == run) ≡ false
  others-apart run own j id e f = elim (Bool-cases (i == j)) [
    | inl same ↦ cc (rw same at f)
    | inr other ↦ elim (Bool-cases (id == run)) [
      | inl equal ↦
          let here = own ∙ ap some (sym ((==_iff id run).0 equal)) in
          cc (other, (==_iff i j).1 (h.alone i j id here e))
      | inr apart ↦ apart
    ]
  ]

module _ (worker : String) (duration : ℤ) (old : Database) (v : IsValid old) (run : JobRun)
    (job : Job) (d : Database) (c : Claimed worker duration old run job d) where
  same-id : run.id ≡ c.before.id
  same-id = ap (λ (x : JobRun). x.id) c.returned

  was_pending : status_eq c.before.status pending ≡ true
  was_pending = eligible-pending c.now c.locked c.before c.eligible

  -- It was in no hand.
  Claimed-free : (id : ℕ) → IsTaken id old → id ≢ run.id
  Claimed-free id t e =
      let no = All-mem _ old.job_runs t.1 c.found ((==_iff c.before.id id).1 (sym (e ∙ same-id))) in
      cc (no, was_pending)

  Claimed-IsTaken : (id : ℕ) → IsTaken id old → IsTaken id d
  Claimed-IsTaken id t = subst (IsTaken id) (sym c.stored) (
      update-IsTaken id (run_is c.before.id) (leased_run worker duration c.now) old (λ r. refl)
        (λ r m e i. refl) t)

  Claimed-takes : IsTaken run.id d
  Claimed-takes =
      subst (λ k. IsTaken k d) (sym same-id)
        (subst (IsTaken c.before.id) (sym c.stored) (
          subst (In c.before.id)
              (sym (
                map-update_where (λ r. r.id) (run_is c.before.id) (leased_run worker duration c.now)
                  old.job_runs (λ r. refl)))
              (mem-map (λ (r : JobRun). r.id) c.found),
          All-updated _ (run_is c.before.id) (leased_run worker duration c.now) old.job_runs
              (λ x m e i. refl) (λ x m e i. cc),
        ))

module _ (s : System) (h : IsSound s) (i : ℕ) (free : s.loops i ≡ idle) (worker : String)
    (duration : ℤ) (R : Option Database) where
  unleased-IsSound :
      (d : Database) → d ≡ s.db → IsSound (record { db = d; loops = with_loop i idle s.loops })
  unleased-IsSound d e =
      turn-IsSound s h i idle d (dropped s h i) (subst IsValid (sym e) h.valid)
        (λ j id x f. subst (IsTaken id) (sym e) (h.taken j id x))

  Claimed-IsSound :
      (run : JobRun) (job : Job) (d : Database)
      → IsValid d
      → Claimed worker duration s.db run job d
      → IsSound (record { db = d; loops = with_loop i (fetched run job) s.loops })
  Claimed-IsSound run job d v c =
      take-IsSound s h i run job d v (Claimed-IsTaken worker duration s.db h.valid run job d c)
        (Claimed-takes worker duration s.db h.valid run job d c)
        (λ j e.
          Claimed-free worker duration s.db h.valid run job d c run.id (h.taken j run.id e) refl)

  lost-IsSound :
      (o : Option (JobRun × Job)) (d : Database)
      → IsValid d
      → Leased worker duration s.db o d
      → IsSound (record { db = d; loops = with_loop i idle s.loops })
  lost-IsSound none d v l = unleased-IsSound d l.3
  lost-IsSound (some (run, job)) d v l =
      turn-IsSound s h i idle d (dropped s h i) v
        (λ j id e f. Claimed-IsTaken worker duration s.db h.valid run job d l id (h.taken j id e))

  pub lease-IsSound :
      (out : Result (Option (JobRun × Job)) × World)
      → IsValid out.1.db
      → Post R (Leased worker duration s.db) (LeaseFails worker duration s.db) out
      → IsSound (leased_by s i out)
  lease-IsSound (ok none, w) v l = unleased-IsSound w.db l.1.3
  lease-IsSound (ok (some (run, job)), w) v l = Claimed-IsSound run job w.db v l.1
  lease-IsSound (err e, w) v (k, inl same) = unleased-IsSound w.db same
  lease-IsSound (err e, w) v (k, inr (u, (o, l))) = lost-IsSound o w.db v l
