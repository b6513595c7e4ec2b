-- ===== src/Store/Creation.antt =====
-- CreateJob: the job and its dependencies in one transaction.
use mathlib.Core.List.{append-nil, append_assoc}
use taskflow.Common.{
  ℕ, ℤ, ◌≡◌, ◌≢◌, refl, sym, ap, subst, ◌∙◌, ◌⊎◌, inl, inr, true, false, ◌||◌, List, [], ◌∷◌, ◌++◌,
  map, Option, arith, All, exists_where,
}
use taskflow.Model.{Job, NewJobInput}
use taskflow.Store.Tables.{JobRow, Dependency, Database}
use taskflow.Store.Query.{
  World, began, drawn, round_trip, applied, transaction, ◌>>=◌, Error, unavailable,
  idempotency_conflict, ok, err, RoundTrip, return, raise, ◌>>◌, on_error, exec_at, commit,
}
use taskflow.Store.Post.{
  Post, Ended, round_trip_db, round_trip_replica, Post-applied, Post-handle, Post-and_then,
  Post-begun, Post-mono,
}
use taskflow.Store.Ensures.{
  Ensures, Ensures-return, Ensures-raise, Ensures-exec_at, Ensures-bind, Ensures-mono,
}
use taskflow.Store.Jobs.{
  job_is, same_key, new_job_row, insert_job, insert_dependency, insert_dependencies, conflict_of,
  create_job_body, create_job, job_of,
}

abbrev pub edge : ℕ → ℕ → Dependency
edge job dep = record { job_id = job; depends_on_id = dep }

abbrev with_edges : ℕ → List ℕ → Database → Database
with_edges job deps d = record d { job_dependencies = d.job_dependencies ++ map (edge job) deps }

abbrev pub Exists : Database → ℕ → Type 0
Exists d job = exists_where (job_is job) d.jobs ≡ true

-- A job has the idempotency key already, or the id that the server drew.
abbrev pub Conflict : NewJobInput → ℕ → Database → Type 0
Conflict input id old =
    (exists_where (job_is id) old.jobs || exists_where (same_key input.idempotency_key) old.jobs)
    ≡ true

-- The job as it is stored and returned.
pub record Created (input : NewJobInput) (old : Database) (job : Job) (d : Database) : Type 0 where
  pub id : ℕ
  pub now : ℤ
  pub fresh : exists_where (job_is id) old.jobs ≡ false
  pub unclaimed : exists_where (same_key input.idempotency_key) old.jobs ≡ false
  pub returned : job ≡ job_of (new_job_row input id now) input.depends_on
  pub stored : d ≡ record old {
    jobs = old.jobs ++ new_job_row input id now ∷ [];
    job_dependencies = old.job_dependencies ++ map (edge id) input.depends_on;
  }
  pub known : All (Exists d) input.depends_on

-- The same, with the id that the server drew, and the time.
abbrev pub CreatedAt : ℕ → ℤ → NewJobInput → Database → Job → Database → Type 0
CreatedAt id now input old job d = (c : Created input old job d) × (c.id ≡ id) × (c.now ≡ now)

-- What CreateJob leaves when it fails.
abbrev pub CreationFails : ℕ → ℤ → NewJobInput → Database → Error → Database → Type 0
CreationFails id now input old x d =
    ((d ≡ old) × (x ≡ idempotency_conflict → Conflict input id old))
    ⊎ ((x ≡ unavailable) × ((job : Job) × CreatedAt id now input old job d))

insert_dependency_ok :
    (job dep : ℕ) (now : ℤ) (t : RoundTrip) (d : Database) {u : Unit {0}} {d' : Database}
    → insert_dependency job dep now t d ≡ ok (u, d')
    → (d' ≡ record d { job_dependencies = d.job_dependencies ++ edge job dep ∷ [] }) × Exists d dep
unfolding insert_dependency
insert_dependency_ok job dep now t d e = ground arith

insert_dependency_err :
    (job dep : ℕ) (now : ℤ) (t : RoundTrip) (d : Database) (x : Error)
    → insert_dependency job dep now t d ≡ err x
    → x ≢ idempotency_conflict
unfolding insert_dependency
insert_dependency_err job dep now t d x e = ground arith

insert_job_ok :
    (input : NewJobInput) (now : ℤ) (t : RoundTrip) (d : Database) {r : JobRow} {d' : Database}
    → insert_job input now t d ≡ ok (r, d')
    → (r ≡ new_job_row input t.fresh_id now)
      × (exists_where (job_is t.fresh_id) d.jobs ≡ false)
      × (exists_where (same_key input.idempotency_key) d.jobs ≡ false)
      × (d' ≡ record d { jobs = d.jobs ++ new_job_row input t.fresh_id now ∷ [] })
unfolding insert_job
insert_job_ok input now t d e = ground arith

insert_job_err :
    (input : NewJobInput) (now : ℤ) (t : RoundTrip) (d : Database) (x : Error)
    → insert_job input now t d ≡ err x
    → (exists_where (job_is t.fresh_id) d.jobs
        || exists_where (same_key input.idempotency_key) d.jobs)
      ≡ true
unfolding insert_job
insert_job_err input now t d x e = ground arith

-- What the loop over DependsOn fails with is no conflict.
abbrev NoConflict : Error → Database → Type 0
NoConflict x d = x ≢ idempotency_conflict

module _ (R : Option Database) (now : ℤ) (job : ℕ) where
  with_edges_step :
      (dep : ℕ) (deps : List ℕ) (mid : Database)
      → with_edges job deps
          (record mid { job_dependencies = mid.job_dependencies ++ edge job dep ∷ [] })
        ≡ with_edges job (dep ∷ deps) mid
  with_edges_step dep deps mid =
      ap {A = List Dependency} (λ l. record mid { job_dependencies = l })
        (append_assoc mid.job_dependencies (edge job dep ∷ []) (map (edge job) deps))

  insert_dependencies-Ensures :
      (deps : List ℕ) (old : Database)
      → Ensures R
          (λ d. d ≡ old)
          (insert_dependencies now job deps)
          (λ _ d. (d ≡ with_edges job deps old) × All (Exists old) deps)
          NoConflict
  unfolding insert_dependencies
  insert_dependencies-Ensures [] old = Ensures-return tt (λ d e. (
    e
        ∙ ap {A = List Dependency} (λ l. record old { job_dependencies = l })
            (sym (append-nil old.job_dependencies)),
    tt,
  ))
  insert_dependencies-Ensures (dep ∷ deps) old =
      Ensures-bind {Q = λ _ d. (d ≡ with_edges job (dep ∷ []) old) × Exists old dep} _ _
        (Ensures-exec_at now (insert_dependency job dep)
          (λ t d u d' e h.
            insert_dependency_ok job dep now t old
              (subst (λ x. insert_dependency job dep now t x ≡ ok (u, d')) e h))
          (λ u d p. λ c. cc) (λ t d x e h. insert_dependency_err job dep now t d x h)
          (λ d e. λ c. cc))
        (λ _. record {
          at = λ w k p.
              (Ensures-mono
                  {Q' = λ _ d.
                    (d ≡ with_edges job (dep ∷ deps) old) × All (Exists old) (dep ∷ deps)}
                  {E' = NoConflict} (λ d e. e)
                  (λ _ d q. (q.0 ∙ with_edges_step dep deps old, (p.1, q.1))) (λ x d n. n)
                  (insert_dependencies-Ensures deps (with_edges job (dep ∷ []) old))).at
                w k p.0;
        })

conflict_of-Conflict :
    (input : NewJobInput) (id : ℕ) (old : Database) (x : Error)
    → Conflict input id old ⊎ (x ≡ unavailable)
    → conflict_of x ≡ idempotency_conflict
    → Conflict input id old
conflict_of-Conflict input id old x (inl h) e = h
conflict_of-Conflict input id old x (inr h) e = absurd (cc (ap conflict_of h, e))

module _ (R : Option Database) (input : NewJobInput) (now : ℤ) (id : ℕ) (old : Database) where
  -- The job's row, before its dependencies.
  record Rowed (r : JobRow) (d : Database) : Type 0 where
    fresh : exists_where (job_is id) old.jobs ≡ false
    unclaimed : exists_where (same_key input.idempotency_key) old.jobs ≡ false
    row : r ≡ new_job_row input id now
    stored : d ≡ record old { jobs = old.jobs ++ new_job_row input id now ∷ [] }

  abbrev Aborts : Error → Database → Type 0
  Aborts x _ = x ≡ idempotency_conflict → Conflict input id old

  inserts :
      (t : RoundTrip) (w : World)
      → w.replica ≡ R
      → w.db ≡ old
      → t.fresh_id ≡ id
      → Post R Rowed
          (λ x d. Conflict input id old ⊎ (x ≡ unavailable))
          (applied t.reply (insert_job input now t w.db) w)
  inserts t w k e draws =
      Post-applied R Rowed (λ x d. Conflict input id old ⊎ (x ≡ unavailable)) t.reply
        (insert_job input now t w.db) w k
        (λ r d h.
          let (s, f, u, m) =
            insert_job_ok input now t old (subst (λ x. insert_job input now t x ≡ ok (r, d)) e h) in
          record {
            fresh = subst (λ n. exists_where (job_is n) old.jobs ≡ false) draws f;
            unclaimed = u;
            row = s ∙ ap (λ n. new_job_row input n now) draws;
            stored =
                m
                ∙ ap {A = ℕ} (λ n. record old { jobs = old.jobs ++ new_job_row input n now ∷ [] })
                    draws;
          })
        (λ r d p. inr refl)
        (λ x h. inl (
          subst (λ n. Conflict input n old) draws
            (insert_job_err input now t old x (subst (λ y. insert_job input now t y ≡ err x) e h))))
        (inr refl)

  insert_rest-Ensures :
      (r : JobRow) (mid : Database)
      → Rowed r mid
      → Ensures R
          (λ d. d ≡ mid)
          (insert_dependencies now r.id input.depends_on
            >> return (commit (job_of r input.depends_on)))
          (Ended (CreatedAt id now input old) old)
          Aborts
  insert_rest-Ensures r mid p =
      Ensures-bind _ _
        (Ensures-mono (λ d e. e) (λ u d q. q) (λ x d n. λ e. absurd (n e))
          (insert_dependencies-Ensures R now r.id input.depends_on mid))
        (λ u. Ensures-return _ (λ d q. (
          record {
            id = id;
            now = now;
            fresh = p.fresh;
            unclaimed = p.unclaimed;
            returned = ap (λ x. job_of x input.depends_on) p.row;
            stored =
                q.0
                ∙ ap (with_edges r.id input.depends_on) p.stored
                ∙ ap
                    (λ (x : JobRow).
                      with_edges x.id input.depends_on
                        (record old { jobs = old.jobs ++ new_job_row input id now ∷ [] }))
                    p.row;
            known = subst (λ x. All (Exists x) input.depends_on) (sym q.0) q.1;
          },
          refl,
          refl,
        )))

  -- The INSERT INTO jobs in the world in which it is sent.
  insert_job-Rowed :
      (w : World)
      → w.replica ≡ R
      → w.db ≡ old
      → (round_trip w).0.fresh_id ≡ id
      → Post R Rowed Aborts
          (on_error (exec_at now (insert_job input)) (λ e. raise (conflict_of e)) w)
  unfolding on_error exec_at
  insert_job-Rowed w k e draws =
      let k' = round_trip_replica w ∙ k in
      let e' = round_trip_db w ∙ e in
      let (t, w') = round_trip w in
      Post-handle R Rowed Aborts (λ x d. Conflict input id old ⊎ (x ≡ unavailable))
        (λ e. raise (conflict_of e)) (applied t.reply (insert_job input now t w'.db) w')
        (λ x w'' q h.
          (Ensures-raise {A = JobRow} {R = R} {P = λ d. Conflict input id old ⊎ (x ≡ unavailable)}
              {Q = Rowed} {E = Aborts} _ (λ d p. conflict_of-Conflict input id old x p)).at
            w'' q h)
        (inserts t w' k' e' draws)

  create_job_body-Creates :
      (w : World)
      → w.replica ≡ R
      → w.db ≡ old
      → (round_trip w).0.fresh_id ≡ id
      → Post R (Ended (CreatedAt id now input old) old) Aborts (create_job_body input now w)
  unfolding create_job_body ◌>>=◌
  create_job_body-Creates w k e draws =
      Post-and_then R Rowed (Ended (CreatedAt id now input old) old) Aborts _
        (on_error (exec_at now (insert_job input)) (λ e. raise (conflict_of e)) w)
        (λ r w' q p. (insert_rest-Ensures r w'.db p).at w' q refl) (insert_job-Rowed w k e draws)

-- CreateJob stores the job under the id that the server draws, which no job has, and an idempotency
-- key that no other job has, at the time of BEGIN, together with an edge to each of its
-- dependencies, all of which exist, and returns what it has stored. If it fails, nothing has
-- changed, or all of it was committed and only the reply to COMMIT was lost. It fails with
-- ErrIdempotencyConflict only if a job has the key, or the id that the server draws.
pub create_job-Creates :
    (input : NewJobInput) (w : World)
    → Post w.replica
        (CreatedAt (drawn w) (began w) input w.db)
        (CreationFails (drawn w) (began w) input w.db)
        (create_job input w)
unfolding create_job transaction
create_job-Creates input w =
    let k = round_trip_replica w in
    let same = round_trip_db w in
    let (t, w') = round_trip w in
    let id = (round_trip w').0.fresh_id in
    let Q = CreatedAt id w'.now input w.db in
    let E = CreationFails id w'.now input w.db in
    Post-begun w.replica Q E t.reply (create_job_body input) w' k
      (subst (λ o. Post w.replica (Ended Q o) (λ x _. E x o) (create_job_body input w'.now w'))
        (sym same)
        (Post-mono w.replica (Ended Q w.db)
          (λ x _. x ≡ idempotency_conflict → Conflict input id w.db) (Ended Q w.db)
          (λ x _. E x w.db) (create_job_body input w'.now w') (λ a d p. p) (λ x d h. inl (refl, h))
          (create_job_body-Creates w.replica input w'.now id w.db w' k same refl)))
      (λ job d h. inr (refl, (job, h))) (inl (same, λ c. cc))
