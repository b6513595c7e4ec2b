-- ===== src/Worker/Attempts/Claims.antt =====
-- The claim of LeaseNextRun and the attempts of the runs.
use taskflow.Common.{
  ℕ, suc, ◌+◌, ◌-◌, ◌≤◌, ℤ, pos, pos_part, ltb_ℤ, ltb_ℤ→lt, String, ◌≡◌, refl, sym, ap, ◌∙◌, subst,
  ==_iff, Bool, true, Bool-cases, inl, inr, List, [], ◌∷◌, map, arith, update_where, All, In,
  In-cons, All-updated, All-mem, map-update_where,
}
use taskflow.Model.{Job, JobRun, pending, status_eq}
use taskflow.Store.Tables.{JobRow, Database}
use taskflow.Store.Runs.{run_is, leased_run, is_eligible}
use taskflow.Store.Lease.{Claimed}
use taskflow.Store.Lease.Rows.{same_id}
use taskflow.Store.Valid.{IsValid}
use taskflow.Worker.Attempts.{granted, allowed, sum, Stands, Within, AreWithin, Own, Held}

not_less :
    (p : JobRun → Bool) (f : JobRun → JobRun) (rs : List JobRun)
    → ((r : JobRun) → (f r).attempt ≡ r.attempt + 1)
    → sum (map (λ r. r.attempt) rs) ≤ sum (map (λ r. r.attempt) (update_where p f rs))
unfolding update_where
not_less p f [] more = omega arith
not_less p f (r ∷ rs) more = elim (Bool-cases (p r)) [
  | inl h ↦ rw (h, more r) (omega (arith, not_less p f rs more))
  | inr h ↦ rw h (omega (arith, not_less p f rs more))
]

-- An UPDATE that adds an attempt to each row that it meets, and meets one.
grown :
    (p : JobRun → Bool) (f : JobRun → JobRun) (b : JobRun) (rs : List JobRun)
    → ((r : JobRun) → (f r).attempt ≡ r.attempt + 1)
    → In b rs
    → p b ≡ true
    → suc (sum (map (λ r. r.attempt) rs)) ≤ sum (map (λ r. r.attempt) (update_where p f rs))
unfolding update_where
grown p f b [] more m e = elim m [ ]
grown p f b (r ∷ rs) more m e = elim (In-cons m) [
  | inl same ↦ rw (subst (λ x. p x ≡ true) same e, more r) (omega (arith, not_less p f rs more))
  | inr later ↦ elim (Bool-cases (p r)) [
    | inl h ↦ rw (h, more r) (omega (arith, grown p f b rs more later e))
    | inr h ↦ rw h (omega (arith, grown p f b rs more later e))
  ]
]

module _ (jobs : List JobRow) (ids : List ℕ) (t : ℕ) (most : ℕ → ℕ) (worker : String) (duration : ℤ)
    (old : Database) (v : IsValid old) (h : AreWithin jobs most old)
    (stands : Stands jobs ids t old) where
  abbrev pub Room : JobRun → Job → Type 0
  Room run job =
      ltb_ℤ (pos run.attempt) job.max_attempts ≡ true
      → run.attempt + suc (allowed jobs run.job_id - suc run.attempt) ≤ most run.id

  module _ (before : JobRun) (m : In before old.job_runs)
      (free : status_eq before.status pending ≡ true) where
    before-Within :
        before.attempt + suc (allowed jobs before.job_id - suc before.attempt) ≤ most before.id
    before-Within =
        let w : Within jobs most before = All-mem (Within jobs most) old.job_runs h m in
        rw free at w

    claimed_rows :
        (now : ℤ)
        → All
            (λ r. Within jobs most r × Own before.id before.job_id (before.attempt + 1) r)
            (update_where (run_is before.id) (leased_run worker duration now) old.job_runs)
    claimed_rows now =
        All-updated _ (run_is before.id) _ old.job_runs
          (λ x mx e.
            let same =
              same_id x before old.job_runs v.distinct_runs mx m ((==_iff x.id before.id).0 e) in
            rw same (omega (arith, before-Within), λ _. (refl, refl)))
          (λ x mx e. (All-mem (Within jobs most) old.job_runs h mx, λ y. cc))

  claimed-Stands :
      (before : JobRun)
      → In before old.job_runs
      → (now : ℤ)
      → Stands jobs ids (suc t) (record old {
        job_runs = update_where (run_is before.id) (leased_run worker duration now) old.job_runs;
      })
  claimed-Stands before m now = (
    stands.0,
    map-update_where (λ r. r.id) (run_is before.id) (leased_run worker duration now) old.job_runs
          (λ r. refl)
        ∙ stands.1,
    omega (
      arith,
      stands.2,
      grown (run_is before.id) (leased_run worker duration now) before old.job_runs (λ r. refl) m
          ((==_iff before.id before.id).1 refl),
    ),
  )

  eligible-pending :
      (now : ℤ) (locked : List ℕ) (r : JobRun)
      → is_eligible now locked r ≡ true
      → status_eq r.status pending ≡ true
  eligible-pending now locked r e = ground arith

  granted-fetched :
      (run : JobRun) (job : Job) (d : Database) (c : Claimed worker duration old run job d)
      → allowed jobs c.before.job_id ≡ pos_part job.max_attempts
  granted-fetched run job d c =
      let (row, found, same) = c.fetched in
      subst (λ js. allowed js c.before.job_id ≡ pos_part job.max_attempts) stands.0
        (ap granted found ∙ ap (λ (j : Job). pos_part j.max_attempts) (sym same))

  pub Claimed-Held :
      (run : JobRun) (job : Job) (d : Database)
      → Claimed worker duration old run job d
      → Held jobs ids (suc t) most run.id run.job_id run.attempt d × Room run job
  Claimed-Held run job d c =
      let free = eligible-pending c.now c.locked c.before c.eligible in
      let grant = granted-fetched run job d c in
      let within = before-Within c.before c.found free in
      subst (λ (x : JobRun). Held jobs ids (suc t) most x.id x.job_id x.attempt d × Room x job)
        (sym c.returned)
        (
          subst
              (λ (y : Database).
                Held jobs ids (suc t) most c.before.id c.before.job_id (c.before.attempt + 1) y)
              (sym c.stored)
              (claimed-Stands c.before c.found c.now, claimed_rows c.before c.found free c.now),
          λ l.
              let lt = ltb_ℤ→lt (pos (c.before.attempt + 1)) job.max_attempts l in
              omega (arith, lt, within, grant),
        )
