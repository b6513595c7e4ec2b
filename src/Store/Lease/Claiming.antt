-- ===== src/Store/Lease/Claiming.antt =====
-- The transaction of LeaseNextRun on a network that delivers every reply.
use taskflow.Common.{
  ℕ, ℤ, ltb, String, ◌≡◌, refl, sym, ap, ◌∙◌, subst, inl, inr, ==_iff, Bool, true, false, not, ◌&&◌,
  Bool-cases, Option-cases, List, [], ◌∷◌, map, some, arith, first, rows_where, update_where,
  exists_where, order_by, In, In-cons, mem-rows_where, rows_where-mem, mem-exists_where,
  mem-order_by, first-mem, first-order_by, first-order_by-none, not-In-nil,
}
use taskflow.Model.{Job, JobRun}
use taskflow.Store.Tables.{JobRow, Database}
use taskflow.Store.Query.{ok, RoundTrip, primary, commit}
use taskflow.Store.Reliably.{
  Reliably, Reliably-return, Reliably-exec_at, Reliably-select, Reliably-bind, StatementLeads,
}
use taskflow.Store.Jobs.{
  one_row, job_is, job_of, fetch_job, scan_job_row, fetch_dependencies, dependencies_of,
}
use taskflow.Store.Runs.{
  run_is, is_eligible, leased_before, next_pending, leased_run, lease_run, update_runs,
  max_smallint, claim, fetch_run,
}
use taskflow.Store.Valid.{IsValid, job_ids}
use taskflow.Store.Lease.Rows.{leased_before-IsStrictWeak, read_back, same_id}

-- The row that the SELECT gives, if an eligible one is there.
pub record Best (now : ℤ) (locked : List ℕ) (r : JobRun) (d : Database) : Type 0 where
  pub before : JobRun
  pub found : In before d.job_runs
  pub eligible : is_eligible now locked before ≡ true
  pub best : leased_before r before ≡ false

pub next_pending-Best :
    (now : ℤ) (t : RoundTrip) (d : Database) (r : JobRun)
    → In r d.job_runs
    → is_eligible now t.locked r ≡ true
    → (b : Best now t.locked r d) × (next_pending now t d ≡ ok (b.before, d))
unfolding next_pending
next_pending-Best now t d r m e =
    let rows = rows_where (is_eligible now t.locked) d.job_runs in
    let mine = rows_where-mem (is_eligible now t.locked) m e in
    elim (Option-cases (first (order_by leased_before rows))) [
      | inl n ↦ absurd (not-In-nil (subst (In r) (first-order_by-none leased_before rows n) mine))
      | inr (x, h) ↦
          let (mx, px) =
            mem-rows_where (is_eligible now t.locked) d.job_runs
              (mem-order_by leased_before _ (first-mem _ h)) in
          (
            record {
              before = x;
              found = mx;
              eligible = px;
              best = first-order_by leased_before leased_before-IsStrictWeak _ x h r mine;
            },
            rw (next_pending, h) refl,
          )
    ]

-- A table in which a row has the id.
one_row_of :
    (id : ℕ) (js : List JobRow)
    → In id (map (λ j. j.id) js)
    → (row : JobRow) × (one_row (rows_where (job_is id) js) ≡ ok row)
unfolding rows_where
one_row_of id [] m = absurd (not-In-nil m)
one_row_of id (j ∷ js) m = elim (Bool-cases (job_is id j)) [
  | inl e ↦ rw e (j, refl)
  | inr e ↦ elim (In-cons m) [
    | inl h ↦ cc (e, (==_iff j.id id).1 (sym h))
    | inr t ↦ rw e (one_row_of id js t)
  ]
]

-- fetchJob of a job that exists.
fetch_job-Reliably :
    {P : Database → Type 0} (id : ℕ)
    → ((d : Database) → P d → In id (job_ids d))
    → Reliably P (fetch_job primary id) (λ a d. ((job : Job) × (a ≡ ok job)) × P d)
unfolding fetch_job scan_job_row fetch_dependencies
fetch_job-Reliably {P} id m =
    Reliably-bind {Q = λ a d. ((row : JobRow) × (a ≡ ok row)) × P d} _ _
      (Reliably-select primary _ (λ d p. (one_row_of id d.jobs (m d p), p)))
      (λ row.
        Reliably-bind {Q = λ a d. ((deps : List ℕ) × (a ≡ ok deps)) × P d} _ _
          (Reliably-select primary _ (λ d p. ((dependencies_of row.id d, refl), p.1)))
          (λ deps. Reliably-return _ (λ d p. ((job_of row deps, refl), p.1))) (λ x d e. cc))
      (λ x d e. cc)

module _ (worker : String) (duration now : ℤ) (old : Database) (v : IsValid old) (r : JobRun)
    (m : In r old.job_runs) (room : ltb r.attempt max_smallint ≡ true)
    (owned : In r.job_id (job_ids old)) where
  full : JobRun → Bool
  full x = run_is r.id x && not (ltb x.attempt max_smallint)

  not_full : exists_where full old.job_runs ≡ false
  unfolding full
  not_full = elim (Bool-cases (exists_where full old.job_runs)) [
    | inl e ↦
        let (x, mx, h) = mem-exists_where full old.job_runs e in
        let same =
          same_id x r old.job_runs v.distinct_runs mx m ((==_iff x.id r.id).0 (ground arith)) in
        let k = subst (λ y. ltb y.attempt max_smallint ≡ true) (sym same) room in ground arith
    | inr e ↦ e
  ]

  abbrev leased_rows : Database
  leased_rows = record old {
    job_runs = update_where (run_is r.id) (leased_run worker duration now) old.job_runs;
  }

  pub claim-Reliably :
      Reliably
        (λ d. d ≡ old)
        (claim worker duration now r)
        (λ a d. (job : Job) × (a ≡ ok (commit (some (leased_run worker duration now r, job)))))
  unfolding claim fetch_run lease_run update_runs full
  claim-Reliably =
      Reliably-bind {Q = λ a d. ((n : ℕ) × (a ≡ ok n)) × (d ≡ leased_rows)} _ _
        (Reliably-exec_at now _ (λ t d e.
          subst
            (λ x.
              StatementLeads (λ a d. ((n : ℕ) × (a ≡ ok n)) × (d ≡ leased_rows)) x
                (lease_run worker duration r.id now t x))
            (sym e) (rw not_full ((_, refl), refl))))
        (λ n.
          Reliably-bind {Q = λ a d. (a ≡ ok (leased_run worker duration now r)) × (d ≡ leased_rows)}
            _ _
            (Reliably-select primary _ (λ d h. (
              ap (λ x. one_row (rows_where (run_is r.id) x.job_runs)) h.1
                  ∙ ap one_row (
                      read_back r (leased_run worker duration now) old.job_runs (λ _. refl)
                        v.distinct_runs m),
              h.1,
            )))
            (λ run.
              Reliably-bind _ _
                (fetch_job-Reliably r.job_id
                  (λ d h. subst (λ x. In r.job_id (job_ids x)) (sym h.1) owned))
                (λ job. Reliably-return _ (λ d h. (job, cc (h.1.0)))) (λ x d h. cc))
            (λ x d h. cc))
        (λ x d h. cc)
