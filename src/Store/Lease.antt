-- ===== src/Store/Lease.antt =====
-- LeaseNextRun: which run it claims, and what the claim writes.
pub mod Rows
pub mod Claiming
pub mod Progress
use taskflow.Common.{
  ℕ, ◌+◌, ◌≤◌, ℤ, String, ◌≡◌, refl, sym, ap, ◌∙◌, subst, ◌⊎◌, inl, inr, ◌≢◌, Bool, true, false,
  not, ◌&&◌, ◌||◌, ◌==◌, ==_iff, List, [], ◌∷◌, map, Option, none, some, arith, first, rows_where,
  update_where, order_by, exists_where, Bool-cases, Option-cases, In, here, there, In-cons,
  not-In-nil, mem-rows_where, rows_where-mem, mem-order_by, order_by-mem, first-mem,
  first-order_by-none, Least, IsStrictWeak, first-order_by, Distinct, mem-map, ltb_ℤ, if◌then◌else◌,
}
use taskflow.Model.{Job, JobRun}
use taskflow.Store.Tables.{JobRow, Database}
use taskflow.Store.Query.{
  Error, no_rows, unavailable, attempt, Result, ok, err, RoundTrip, Query, ◌>>=◌, exec_at, select,
  primary, Ending, commit, abandon, World, began, skipped, round_trip, applied, transaction,
}
use taskflow.Store.Post.{
  Post, Ended, Either, round_trip_db, round_trip_replica, Post-applied, Post-attempt, Post-begun,
  Post-mono,
}
use taskflow.Store.Ensures.{
  Ensures, Keeps, Ensures-return, Ensures-raise, Ensures-exec_at, Ensures-select_primary,
  Ensures-bind, Ensures-attempt, Ensures-mono, Ensures-transaction,
}
use taskflow.Store.Jobs.{one_row, job_of, job_is, fetch_job, scan_job_row, fetch_dependencies}
use taskflow.Store.Runs.{
  run_is, is_eligible, leased_before, next_pending, leased_run, lease_run, claim, lease_found,
  lease_body, lease_next_run, fetch_run,
}
use taskflow.Store.Valid.{IsValid, run_ids}
use taskflow.Store.Valid.Runs.{lease_run_ok}
use taskflow.Store.Lease.Rows.{
  leased_before-IsStrictWeak, next_pending_ok, next_pending_none, absent_id, read_back_head,
  read_back, ok_injective, one_row-mem, fetch_job-Ensures, Fetched,
}

-- The claim of `before`, as LeaseNextRun commits it.
pub record Claimed (worker : String) (duration : ℤ) (old : Database) (run : JobRun) (job : Job)
    (d : Database) : Type 0 where
  pub before : JobRun
  pub now : ℤ
  pub locked : List ℕ
  pub found : In before old.job_runs
  pub eligible : is_eligible now locked before ≡ true
  pub best :
      (r : JobRun)
      → In r old.job_runs
      → is_eligible now locked r ≡ true
      → leased_before r before ≡ false
  pub returned : run ≡ leased_run worker duration now before
  pub owner : job.id ≡ before.job_id
  pub fetched : Fetched before.job_id old job
  pub stored : d ≡ record old {
    job_runs = update_where (run_is before.id) (leased_run worker duration now) old.job_runs;
  }

-- What LeaseNextRun returns: nothing, if no run was due and free to lock, or a claim.
abbrev pub Leased : String → ℤ → Database → Option (JobRun × Job) → Database → Type 0
Leased worker duration old none d =
    (now : ℤ) × (locked : List ℕ) × (rows_where (is_eligible now locked) old.job_runs ≡ [])
    × (d ≡ old)
Leased worker duration old (some (run, job)) d = Claimed worker duration old run job d

-- The same, with the time and the locks that it went by.
abbrev pub LeasedAt : ℤ → List ℕ → String → ℤ → Database → Option (JobRun × Job) → Database → Type 0
LeasedAt now locked worker duration old none d =
    (rows_where (is_eligible now locked) old.job_runs ≡ []) × (d ≡ old)
LeasedAt now locked worker duration old (some (run, job)) d =
    (c : Claimed worker duration old run job d) × (c.now ≡ now) × (c.locked ≡ locked)

LeasedAt-Leased :
    (now : ℤ) (locked : List ℕ) (worker : String) (duration : ℤ) (old : Database)
    (o : Option (JobRun × Job)) (d : Database)
    → LeasedAt now locked worker duration old o d
    → Leased worker duration old o d
LeasedAt-Leased now locked worker duration old none d (n, e) = (now, locked, n, e)
LeasedAt-Leased now locked worker duration old (some (run, job)) d (c, e, f) = c

-- What it leaves when it fails: nothing new, or a claim whose COMMIT got no reply.
abbrev pub LeaseFails : String → ℤ → Database → Error → Database → Type 0
LeaseFails worker duration old e d =
    (d ≡ old) ⊎ ((e ≡ unavailable) × ((o : Option (JobRun × Job)) × Leased worker duration old o d))

module _ (R : Option Database) (worker : String) (duration now : ℤ) (locked : List ℕ)
    (old : Database) (v : IsValid old) where
  -- What is known of the row that the SELECT … FOR UPDATE SKIP LOCKED has given.
  pub record Picked (r : JobRun) (d : Database) : Type 0 where
    unchanged : d ≡ old
    found : In r old.job_runs
    eligible : is_eligible now locked r ≡ true
    best :
        (x : JobRun)
        → In x old.job_runs
        → is_eligible now locked x ≡ true
        → leased_before x r ≡ false

  next_pending-Picked :
      (t : RoundTrip) (r : JobRun) (d : Database)
      → t.locked ≡ locked
      → next_pending now t old ≡ ok (r, d)
      → Picked r d
  next_pending-Picked t r d skips e =
      let (same, head) = next_pending_ok now t old e in
      let (m, p) =
        mem-rows_where (is_eligible now t.locked) old.job_runs
          (mem-order_by leased_before _ (first-mem _ head)) in
      record {
        unchanged = same;
        found = m;
        eligible = subst (λ l. is_eligible now l r ≡ true) skips p;
        best = λ x mx px. first-order_by leased_before leased_before-IsStrictWeak _ r head x (
            rows_where-mem (is_eligible now t.locked) mx
              (subst (λ l. is_eligible now l x ≡ true) (sym skips) px));
      }

  abbrev stored : JobRun → Database
  stored r = record old {
    job_runs = update_where (run_is r.id) (leased_run worker duration now) old.job_runs;
  }

  lease_run_stored :
      (r : JobRun) (t : RoundTrip) (x : Database) {n : ℕ} {x' : Database}
      → x ≡ old
      → lease_run worker duration r.id now t x ≡ ok (n, x')
      → x' ≡ stored r
  lease_run_stored r t x e h =
      (lease_run_ok worker duration r.id now t x h).1
      ∙ ap {A = Database}
          (λ y. record y {
            job_runs = update_where (run_is r.id) (leased_run worker duration now) y.job_runs;
          })
          e

  read_leased :
      (r : JobRun)
      → In r old.job_runs
      → (x : Database) {run : JobRun} → x ≡ stored r
      → one_row (rows_where (run_is r.id) x.job_runs) ≡ ok run
      → run ≡ leased_run worker duration now r
  read_leased r m x e h = ok_injective (
      sym h
      ∙ ap (λ y. one_row (rows_where (run_is r.id) y.job_runs)) e
      ∙ ap one_row
          (read_back r (leased_run worker duration now) old.job_runs (λ _. refl) v.distinct_runs m))

  read_from_old :
      (r : JobRun) (x : Database) (job : Job)
      → x ≡ stored r
      → Fetched r.job_id x job
      → Fetched r.job_id old job
  read_from_old r x job e h = subst (λ y. Fetched r.job_id y job) e h

  claim-Claimed :
      (r : JobRun) (d : Database)
      → Picked r d
      → Ensures R
          (λ x. x ≡ d)
          (claim worker duration now r)
          (Ended (LeasedAt now locked worker duration old) old)
          (λ _ _. Unit {0})
  unfolding claim fetch_run
  claim-Claimed r d p =
      Ensures-bind {Q = λ _ x. x ≡ stored r} _ _
        (Ensures-exec_at now (lease_run worker duration r.id)
          (λ t x n x' e h. lease_run_stored r t x (e ∙ p.unchanged) h) (λ n x h. tt)
          (λ t x y e h. tt) (λ x h. tt))
        (λ _.
          Ensures-bind {Q = λ run x. (x ≡ stored r) × (run ≡ leased_run worker duration now r)} _ _
            (Ensures-select_primary _ (λ x run e h. (e, read_leased r p.found x e h))
              (λ x y e h. tt) (λ x h. tt))
            (λ run.
              Ensures-bind
                {Q = λ job x.
                  (x ≡ stored r)
                  × (run ≡ leased_run worker duration now r)
                  × (job.id ≡ r.job_id)
                  × Fetched r.job_id x job}
                _ _
                (Ensures-mono (λ x h. h) (λ job x h. (h.0.0, h.0.1, h.1, h.2)) (λ y x h. tt)
                  (fetch_job-Ensures r.job_id))
                (λ job. Ensures-return _ (λ x h. (
                  record {
                    before = r;
                    now = now;
                    locked = locked;
                    found = p.found;
                    eligible = p.eligible;
                    best = p.best;
                    returned = h.1;
                    owner = h.2;
                    fetched = read_from_old r x job h.0 h.3;
                    stored = h.0;
                  },
                  refl,
                  refl,
                )))))

  NoneDue : Type 0
  NoneDue = rows_where (is_eligible now locked) old.job_runs ≡ []

  picks :
      (t : RoundTrip) (w : World)
      → w.replica ≡ R
      → w.db ≡ old
      → t.locked ≡ locked
      → Post R Picked
          (λ x d. (d ≡ old) × (x ≡ no_rows → NoneDue))
          (applied t.reply (next_pending now t w.db) w)
  unfolding NoneDue
  picks t w k e skips =
      Post-applied R Picked (λ x d. (d ≡ old) × (x ≡ no_rows → NoneDue)) t.reply
        (next_pending now t w.db) w k
        (λ r d h.
          next_pending-Picked t r d skips (subst (λ x. next_pending now t x ≡ ok (r, d)) e h))
        (λ r d p. (p.unchanged, λ x. cc))
        (λ x h. (
          e,
          λ _.
              subst (λ l. rows_where (is_eligible now l) old.job_runs ≡ []) skips
                (next_pending_none now t old (subst (λ y. next_pending now t y ≡ err x) e h)),
        ))
        (e, λ x. cc)

  lease_found-Ensures :
      (found : Result JobRun)
      → Ensures R
          (Either Picked (λ x d. (d ≡ old) × (x ≡ no_rows → NoneDue)) found)
          (lease_found worker duration now found)
          (Ended (LeasedAt now locked worker duration old) old)
          (λ _ _. Unit {0})
  unfolding lease_found NoneDue
  lease_found-Ensures (ok r) = record { at = λ w k p. (claim-Claimed r w.db p).at w k refl }
  lease_found-Ensures (err Error.no_rows) = Ensures-return _ (λ d h. (h.1 refl, refl))
  lease_found-Ensures (err _) = Ensures-raise _ (λ d h. tt)

  lease_body-Leases :
      (w : World)
      → w.replica ≡ R
      → w.db ≡ old
      → (round_trip w).0.locked ≡ locked
      → Post R
          (Ended (LeasedAt now locked worker duration old) old)
          (λ _ _. Unit {0})
          (lease_body worker duration now w)
  unfolding lease_body exec_at ◌>>=◌ attempt
  lease_body-Leases w k e skips =
      let k' = round_trip_replica w ∙ k in
      let e' = round_trip_db w ∙ e in
      let (t, w') = round_trip w in
      let r = applied t.reply (next_pending now t w'.db) w' in
      let (kept, p) =
        Post-attempt R Picked (λ x d. (d ≡ old) × (x ≡ no_rows → NoneDue)) r
          (picks t w' k' e' skips) in
      (lease_found-Ensures r.0).at r.1 kept p

-- What it leaves when it fails.
abbrev pub LeaseFailsAt : ℤ → List ℕ → String → ℤ → Database → Error → Database → Type 0
LeaseFailsAt now locked worker duration old e d =
    (d ≡ old)
    ⊎ ((e ≡ unavailable)
        × ((o : Option (JobRun × Job)) × LeasedAt now locked worker duration old o d))

-- LeaseNextRun on valid tables: it claims for the worker a run that is pending and due by the
-- server's clock at BEGIN, that no other transaction has locked when it selects, and that no other
-- such run comes before by priority, then age; the claim increments the attempt, sets the lease,
-- and changes nothing else. It returns the run as it is claimed, with its job as it is in the
-- tables, and returns no run only where no run is pending, due and unlocked then. If it fails,
-- nothing has changed, or the claim's COMMIT lost its reply.
pub lease_next_run-Leases :
    (worker : String) (duration : ℤ) (w : World)
    → IsValid w.db
    → Post w.replica
        (LeasedAt (began w) (skipped w) worker duration w.db)
        (LeaseFailsAt (began w) (skipped w) worker duration w.db)
        (lease_next_run worker duration w)
unfolding lease_next_run transaction
lease_next_run-Leases worker duration w v =
    let k = round_trip_replica w in
    let same = round_trip_db w in
    let (t, w') = round_trip w in
    let Q = LeasedAt w'.now (round_trip w').0.locked worker duration w.db in
    let E = LeaseFailsAt w'.now (round_trip w').0.locked worker duration w.db in
    Post-begun w.replica Q E t.reply (lease_body worker duration) w' k
      (subst (λ o. Post w.replica (Ended Q o) (λ x _. E x o) (lease_body worker duration w'.now w'))
        (sym same)
        (Post-mono w.replica (Ended Q w.db) (λ _ _. Unit {0}) (Ended Q w.db) (λ x _. E x w.db)
          (lease_body worker duration w'.now w') (λ a d p. p) (λ x d _. inl refl)
          (lease_body-Leases w.replica worker duration w'.now (round_trip w').0.locked w.db v w' k
            same refl)))
      (λ a d p. inr (refl, (a, p))) (inl same)

-- The same, whatever the time and the locks.
pub lease_next_run-Ensures :
    (R : Option Database) (worker : String) (duration : ℤ) (old : Database)
    → IsValid old
    → Ensures R
        (λ d. d ≡ old)
        (lease_next_run worker duration)
        (Leased worker duration old)
        (LeaseFails worker duration old)
lease_next_run-Ensures R worker duration old v = record {
  at = λ w k e.
      subst
        (λ o.
          Post R (Leased worker duration o) (LeaseFails worker duration o)
            (lease_next_run worker duration w))
        e
        (subst
          (λ r.
            Post r (Leased worker duration w.db) (LeaseFails worker duration w.db)
              (lease_next_run worker duration w))
          k
          (Post-mono w.replica _ _ (Leased worker duration w.db) (LeaseFails worker duration w.db)
            (lease_next_run worker duration w)
            (LeasedAt-Leased (began w) (skipped w) worker duration w.db) (fails_anyhow w)
            (lease_next_run-Leases worker duration w (subst IsValid (sym e) v))));
}
  where
    fails_anyhow :
        (w : World) (x : Error) (d : Database)
        → LeaseFailsAt (began w) (skipped w) worker duration w.db x d
        → LeaseFails worker duration w.db x d
    fails_anyhow w x d (inl e) = inl e
    fails_anyhow w x d (inr (u, (o, l))) =
        inr (u, (o, LeasedAt-Leased (began w) (skipped w) worker duration w.db o d l))
