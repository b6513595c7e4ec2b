-- ===== src/Worker/Exclusion/Taken.antt =====
-- A run that is in the tables and not pending, and the calls that leave it so.
use taskflow.Common.{
  Bool-cases, ℕ, ℤ, pos, String, ◌≡◌, refl, sym, ◌∙◌, subst, ==_iff, Bool, true, false, inl, inr,
  List, [], ◌∷◌, ◌++◌, map, Option, arith, exists_where, update_where, All, In, here, there,
  In-cons, not-In-nil, All-updated, All-mem, All-append, map-update_where, ◌==◌,
}
use taskflow.Model.{JobRun, pending, status_eq, Fields}
use taskflow.Store.Json.{fits_jsonb}
use taskflow.Store.Tables.{Database}
use taskflow.Store.Query.{ok, Reply, delivered, refused, lost, World, exec, applied, round_trip}
use taskflow.Store.Ensures.{Keeps, Ensures-mono}
use taskflow.Store.Keeps.{
  Keeps-refused, Keeps-bind, Keeps-exec, Keeps-exec_at, Keeps-return, Keeps-transaction,
  keeps_rules,
}
use taskflow.Store.Post.{round_trip_db}
use taskflow.Store.Reads.{or_not_found-Keeps}
use taskflow.Store.Jobs.{affected}
use taskflow.Store.Runs.{
  run_is, new_run, update_runs, running_run, completed_run, requeued_run, failed_run, dead_run,
  mark_running, complete_run, fail_run, mark_dead, mark_dead_body, fetch_run, create_run,
  is_reclaimable, reclaimed_run, reclaim_expired_leases,
}
use taskflow.Store.Valid.{run_ids}
use taskflow.Store.Valid.Runs.{update_runs_ok, insert_run_ok}
use taskflow.Worker.Isolation.{insert_dead_letter_rest}

abbrev pub IsTaken : ℕ → Database → Type 0
IsTaken id d =
    In id (run_ids d)
    × All (λ r. run_is id r ≡ true → status_eq r.status pending ≡ false) d.job_runs

pub update-IsTaken :
    (id : ℕ) (p : JobRun → Bool) (f : JobRun → JobRun) (d : Database)
    → ((r : JobRun) → (f r).id ≡ r.id)
    → ((r : JobRun)
        → In r d.job_runs
        → p r ≡ true
        → run_is id r ≡ true
        → status_eq (f r).status pending ≡ false)
    → IsTaken id d
    → IsTaken id (record d { job_runs = update_where p f d.job_runs })
update-IsTaken id p f d same h t = (
  subst (In id) (sym (map-update_where (λ r. r.id) p f d.job_runs same)) t.0,
  All-updated _ p f d.job_runs (λ x mx e i. h x mx e (subst (λ k. (k == id) ≡ true) (same x) i))
      (λ x mx e. All-mem _ d.job_runs t.1 mx),
)

module _ (R : Option Database) (id : ℕ) where
  -- An UPDATE of run `k` by the operations of a loop.
  set-IsTaken :
      (k : ℕ) (f : ℤ → JobRun → JobRun)
      → ((now : ℤ) (r : JobRun) → (f now r).id ≡ r.id)
      → ((now : ℤ) (r : JobRun)
          → run_is k r ≡ true
          → run_is id r ≡ true
          → status_eq (f now r).status pending ≡ false)
      → Keeps R (IsTaken id) (affected (exec (update_runs (λ _. run_is k) f)))
  set-IsTaken k f same h =
      Keeps-bind _ _
        (Keeps-exec _ (λ now trip d m d' t e.
          rw (update_runs_ok (λ _. run_is k) f now trip d e)
            (update-IsTaken id (run_is k) (f now) d (same now) (λ r mr. h now r) t)))
        (λ m. search keeps_rules)

  pub mark_running-IsTaken : (k : ℕ) → Keeps R (IsTaken id) (mark_running k)
  unfolding mark_running
  mark_running-IsTaken k = set-IsTaken k running_run (λ now r. refl) (λ now r e i. refl)

  pub complete_run-IsTaken :
      (k : ℕ) (result : Option Fields) → Keeps R (IsTaken id) (complete_run k result)
  unfolding complete_run
  complete_run-IsTaken k result = elim (Bool-cases (fits_jsonb result)) [
    | inl h ↦ rw h (set-IsTaken k (completed_run result) (λ now r. refl) (λ now r e i. refl))
    | inr h ↦ rw h (Keeps-bind _ _ (Keeps-refused _) (λ m. search keeps_rules))
  ]

  pub fail_run-IsTaken :
      (k : ℕ) (message : String) → Keeps R (IsTaken id) (fail_run k message false (pos 0))
  unfolding fail_run
  fail_run-IsTaken k message =
      set-IsTaken k (failed_run message) (λ now r. refl) (λ now r e i. refl)

  -- A run that is requeued is another one.
  pub requeue-IsTaken :
      (k : ℕ) (message : String) (delay : ℤ)
      → (id == k) ≡ false
      → Keeps R (IsTaken id) (fail_run k message true delay)
  unfolding fail_run
  requeue-IsTaken k message delay n =
      set-IsTaken k (requeued_run message delay) (λ now r. refl)
        (λ now r e i.
          let same = sym ((==_iff r.id id).0 i) ∙ (==_iff r.id k).0 e in
          cc (n, (==_iff id k).1 same))

  pub mark_dead-IsTaken : (k : ℕ) (reason : String) → Keeps R (IsTaken id) (mark_dead k reason)
  unfolding mark_dead mark_dead_body fetch_run
  mark_dead-IsTaken k reason = Keeps-transaction _ (λ now.
      Ensures-mono (λ d v. v) (λ a d v. v) (λ x d v. tt)
        (Keeps-bind _ _ (or_not_found-Keeps _ (search keeps_rules)) (λ run.
          Keeps-bind _ _
            (Keeps-exec_at now _ (λ trip d u d' t e.
              let (j, g, w, r) = insert_dead_letter_rest k reason _ now trip d e in
              subst
                (λ rs.
                  In id (map (λ (x : JobRun). x.id) rs)
                  × All (λ (x : JobRun). run_is id x ≡ true → status_eq x.status pending ≡ false)
                      rs)
                (sym r) t))
            (λ u.
              Keeps-bind _ _
                (Keeps-exec_at now _ (λ trip d m d' t e.
                  rw (update_runs_ok (λ _. run_is k) dead_run now trip d e) (
                    update-IsTaken id (run_is k) (dead_run now) d (λ r. refl) (λ r mr e i. refl)
                      t)))
                (λ m. Keeps-return _)))))

  taken-exists :
      (rs : List JobRun) → In id (map (λ r. r.id) rs) → exists_where (run_is id) rs ≡ true
  unfolding exists_where
  taken-exists [] m = absurd (not-In-nil m)
  taken-exists (r ∷ rs) m = elim (In-cons m) [
    | inl e ↦ rw ((==_iff r.id id).1 (sym e)) refl
    | inr t ↦ ground (arith, taken-exists rs t)
  ]

  mem-more :
      (rs : List JobRun) (x : JobRun)
      → In id (map (λ r. r.id) rs)
      → In id (map (λ r. r.id) (rs ++ x ∷ []))
  mem-more [] x m = absurd (not-In-nil m)
  mem-more (r ∷ rs) x m = elim (In-cons m) [ inl e ↦ here e | inr t ↦ there (mem-more rs x t) ]

  -- A new run has an id of its own.
  pub create_run-IsTaken :
      (job : ℕ) (priority at : ℤ) → Keeps R (IsTaken id) (create_run job priority at)
  unfolding create_run
  create_run-IsTaken job priority at = Keeps-exec _ (λ now trip d r d' t e.
      let (fresh, found, row, made) = insert_run_ok job priority at now trip d e in
      rw made (
        mem-more d.job_runs _ t.0,
        All-append _ d.job_runs (new_run job priority at trip.fresh_id now ∷ []) t.1 (
          λ i.
              let there = taken-exists d.job_runs t.0 in
              cc (fresh, there, (==_iff trip.fresh_id id).0 i),
          tt,
        ),
      ))

-- A statement that was carried out, or not.
either-db :
    {A : Type 0} (P : Database → Type 0) (y : Reply) (a : A) (d : Database) (w : World)
    → P d
    → P w.db
    → P (applied y (ok (a, d)) w).1.db
either-db P delivered a d w h k = h
either-db P lost a d w h k = h
either-db P refused a d w h k = k

pub reclaim_expired_leases-IsTaken :
    (id : ℕ) (w : World)
    → All (λ r. run_is id r ≡ true → is_reclaimable (round_trip w).1.now r ≡ false) w.db.job_runs
    → IsTaken id w.db
    → IsTaken id (reclaim_expired_leases w).1.db
unfolding reclaim_expired_leases exec update_runs
reclaim_expired_leases-IsTaken id w h t =
    let (trip, w') = round_trip w in
    let same = sym (round_trip_db w) in
    let h' =
      subst
        (λ (d : Database).
          All (λ r. run_is id r ≡ true → is_reclaimable w'.now r ≡ false) d.job_runs)
        same h in
    let t' = subst (IsTaken id) same t in
    either-db (IsTaken id) trip.reply _ _ w'
      (update-IsTaken id (is_reclaimable w'.now) (reclaimed_run w'.now) w'.db (λ r. refl)
        (λ r m e i. let no = All-mem _ w'.db.job_runs h' m i in cc) t')
      t'
