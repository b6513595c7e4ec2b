-- ===== src/Store/Effects.antt =====
-- What the operations on one run do to its row, on a network that delivers every reply.
use mathlib.Core.Option.{some-injective}
use taskflow.Common.{
  ℕ, ℤ, String, ◌≡◌, refl, sym, ap, subst, ◌∙◌, ◌⊎◌, inl, inr, Bool, true, false, ◌==◌, ==_iff,
  List, [], ◌∷◌, Option, none, some, arith, first, rows_where, update_where, exists_where,
  count_where, Bool-cases, In, here, if◌then◌else◌, mem-append_right,
}
use taskflow.Model.{JobRun, RunStatus, DeadLetter, Fields}
use taskflow.Store.Json.{fits_jsonb}
use taskflow.Store.Tables.{Database}
use taskflow.Store.Query.{
  Error, not_found, unique_violation, Result, ok, err, return, raise, exec, exec_at, primary,
  commit, RoundTrip, World, Reply, delivered, refused, lost, and_then, applied, round_trip, ◌>>=◌,
  invalid_json,
}
use taskflow.Store.Reliably.{
  Drawing, round_trip-Delivery, ReliablyOn, ReliablyOn-exec_at, Reliably-return, Reliably-exec_at,
  Reliably-select, Reliably-bind, Reliably-on_error, Reliably-mono, Reliably-transaction, Settled,
}
use taskflow.Store.Jobs.{one_row, affected, or_not_found}
use taskflow.Store.Runs.{
  run_is, update_runs, running_run, mark_running, complete_run, completed_run, fail_run,
  requeued_run, failed_run, mark_dead, mark_dead_body, dead_run, dead_payload, insert_dead_letter,
  fetch_run,
}

-- The run's row.
abbrev pub row : ℕ → Database → Option JobRun
row id d = first (rows_where (run_is id) d.job_runs)

first_updated :
    (id : ℕ) (f : JobRun → JobRun) (rs : List JobRun) (r : JobRun)
    → ((x : JobRun) → (f x).id ≡ x.id)
    → first (rows_where (run_is id) rs) ≡ some r
    → first (rows_where (run_is id) (update_where (run_is id) f rs)) ≡ some (f r)
unfolding rows_where update_where
first_updated id f [] r same e = cc
first_updated id f (x ∷ rs) r same e = elim (Bool-cases (run_is id x)) [
  | inl h ↦
      rw (h, (==_iff (f x).id id).1 (same x ∙ (==_iff x.id id).0 h))
        (ap (λ y. some (f y)) (some-injective x r (rw h at e)))
  | inr h ↦ rw (h, h) (first_updated id f rs r same (rw h at e))
]

found_counted :
    (id : ℕ) (rs : List JobRun) (r : JobRun)
    → first (rows_where (run_is id) rs) ≡ some r
    → (count_where (run_is id) rs == 0) ≡ false
unfolding rows_where count_where
found_counted id [] r e = cc
found_counted id (x ∷ rs) r e = ground (arith, found_counted id rs r)

-- What a call that updates the run's row comes to, with the time of the update.
abbrev pub UpdatedAt :
    (RoundTrip → Type 0) → ℕ → (ℤ → JobRun → JobRun) → JobRun → Result (Unit {0}) × World → Type 0
UpdatedAt N id f r (a, w) = Drawing N w × (a ≡ ok tt) × (row id w.db ≡ some (f w.now r))

module _ {N : RoundTrip → Type 0} (id : ℕ) (f : ℤ → JobRun → JobRun) (r : JobRun)
    (same : (now : ℤ) (x : JobRun) → (f now x).id ≡ x.id) where
  affects :
      (b : Bool) (w : World)
      → b ≡ false
      → Drawing N w
      → row id w.db ≡ some (f w.now r)
      → UpdatedAt N id f r ((if b then raise not_found else return tt) w)
  unfolding return
  affects true w e k p = cc
  affects false w e k p = (k, refl, p)

  applied_update :
      (y : Reply) (t : RoundTrip) (w : World)
      → y ≡ delivered
      → Drawing N w
      → row id w.db ≡ some r
      → UpdatedAt N id f r (
          and_then
            (applied y (update_runs (λ _. run_is id) f w.now t w.db) w)
            (λ n. if n == 0 then raise not_found else return tt))
  unfolding update_runs
  applied_update delivered t w e k p =
      affects (count_where (run_is id) w.db.job_runs == 0)
        (record w {
          db = record w.db { job_runs = update_where (run_is id) (f w.now) w.db.job_runs };
        })
        (found_counted id w.db.job_runs r p) k
        (first_updated id (f w.now) w.db.job_runs r (same w.now) p)
  applied_update refused t w e k p = cc
  applied_update lost t w e k p = cc

  -- An UPDATE of a run that exists succeeds, and does what its SET clause says to the run's row.
  update-UpdatedAt :
      (w : World)
      → Drawing N w
      → row id w.db ≡ some r
      → UpdatedAt N id f r (affected (exec (update_runs (λ _. run_is id) f)) w)
  unfolding exec ◌>>=◌
  update-UpdatedAt w k p =
      let (y, k', e, n) = round_trip-Delivery w k in
      let (t, w') = round_trip w in
      applied_update t.reply t w' y k' (subst (λ d. row id d ≡ some r) (sym e) p)

-- The result is stored if JSONB can hold it; else the run stays as it is.
abbrev pub Completed :
    (RoundTrip → Type 0)
    → ℕ
    → JobRun
    → Option Fields
    → (fits : Bool) → Result (Unit {0}) × World
    → Type 0
Completed N id r result true out = UpdatedAt N id (completed_run result) r out
Completed N id r result false (a, w) = Drawing N w × (a ≡ err invalid_json) × (row id w.db ≡ some r)

module _ {N : RoundTrip → Type 0} (id : ℕ) (r : JobRun) where
  pub mark_running-UpdatedAt :
      (w : World)
      → Drawing N w
      → row id w.db ≡ some r
      → UpdatedAt N id running_run r (mark_running id w)
  unfolding mark_running
  mark_running-UpdatedAt = update-UpdatedAt id running_run r (λ now x. refl)

  pub mark_running-Reliably :
      ReliablyOn N
        (λ d. row id d ≡ some r)
        (mark_running id)
        (λ a d. (a ≡ ok tt) × (now : ℤ) × (row id d ≡ some (running_run now r)))
  mark_running-Reliably = record {
    at = λ w k p. let (k', e, h) = mark_running-UpdatedAt w k p in (k', (e, _, h));
  }

  pub requeue-UpdatedAt :
      (message : String) (backoff : ℤ) (w : World)
      → Drawing N w
      → row id w.db ≡ some r
      → UpdatedAt N id (requeued_run message backoff) r (fail_run id message true backoff w)
  unfolding fail_run
  requeue-UpdatedAt message backoff =
      update-UpdatedAt id (requeued_run message backoff) r (λ now x. refl)

  pub fail-UpdatedAt :
      (message : String) (backoff : ℤ) (w : World)
      → Drawing N w
      → row id w.db ≡ some r
      → UpdatedAt N id (failed_run message) r (fail_run id message false backoff w)
  unfolding fail_run
  fail-UpdatedAt message backoff = update-UpdatedAt id (failed_run message) r (λ now x. refl)

  refused_update :
      (y : Reply) (w : World)
      → y ≡ delivered
      → Drawing N w
      → row id w.db ≡ some r
      → Completed N id r none false (
          and_then {A = ℕ}
            (applied y (err invalid_json) w)
            (λ n. if n == 0 then raise not_found else return tt))
  refused_update delivered w e k p = (k, refl, p)
  refused_update refused w e k p = cc
  refused_update lost w e k p = cc

  pub complete_run-Completed :
      (result : Option Fields) (w : World)
      → Drawing N w
      → row id w.db ≡ some r
      → Completed N id r result (fits_jsonb result) (complete_run id result w)
  unfolding complete_run exec ◌>>=◌
  complete_run-Completed result w k p = elim (Bool-cases (fits_jsonb result)) [
    | inl h ↦ rw h (update-UpdatedAt id (completed_run result) r (λ now x. refl) w k p)
    | inr h ↦
        let (y, k', e, n) = round_trip-Delivery w k in
        let (t, w') = round_trip w in
        rw h (refused_update t.reply w' y k' (subst (λ d. row id d ≡ some r) (sym e) p))
  ]

-- A dead letter of the run.
abbrev pub HasLetter : ℕ → String → Database → Type 0
HasLetter id reason d =
    (l : DeadLetter) × In l d.dead_letters × (l.job_run_id ≡ id) × (l.reason ≡ reason)

-- MarkDead marks the run and writes its letter, both or, if the server drew the id of a letter
-- that exists, neither.
abbrev pub Buried :
    (RoundTrip → Type 0) → ℕ → String → JobRun → Result (Unit {0}) → Database → Type 0
Buried N id reason r a d =
    ((a ≡ ok tt) × (row id d ≡ some (record r { status = RunStatus.dead })) × HasLetter id reason d)
    ⊎ ((a ≡ err unique_violation)
        × (row id d ≡ some r)
        × ((t : RoundTrip) × N t
            × (exists_where (λ (l : DeadLetter). l.id == t.fresh_id) d.dead_letters ≡ true)))

first-one_row : (xs : List JobRun) (r : JobRun) → first xs ≡ some r → one_row xs ≡ ok r
first-one_row [] r e = cc
first-one_row (x ∷ xs) r e = cc

fetch_run-Reliably :
    {N : RoundTrip → Type 0} (id : ℕ) (r : JobRun) (old : Database)
    → row id old ≡ some r
    → ReliablyOn N
        (λ d. d ≡ old)
        (or_not_found (fetch_run primary id))
        (λ a d. (a ≡ ok r) × (d ≡ old))
unfolding fetch_run
fetch_run-Reliably id r old e =
    Reliably-on_error {Q = λ a d. (a ≡ ok r) × (d ≡ old)} _ _
      (Reliably-select primary _
        (λ d s. (first-one_row _ r (subst (λ x. row id x ≡ some r) (sym s) e), s)))
      (λ a d h. h) (λ x. record { at = λ w k p. cc })

-- What INSERT INTO dead_letters leads to.
abbrev Lettered :
    (RoundTrip → Type 0) → ℕ → String → Database → Result (Unit {0}) → Database → Type 0
Lettered N id reason old a d =
    ((a ≡ ok tt) × (d.job_runs ≡ old.job_runs) × HasLetter id reason d)
    ⊎ ((a ≡ err unique_violation)
        × (d ≡ old)
        × ((t : RoundTrip) × N t
            × (exists_where (λ (l : DeadLetter). l.id == t.fresh_id) old.dead_letters ≡ true)))

found_exists :
    (id : ℕ) (rs : List JobRun) (r : JobRun)
    → first (rows_where (run_is id) rs) ≡ some r
    → exists_where (run_is id) rs ≡ true
unfolding rows_where exists_where
found_exists id [] r e = cc
found_exists id (x ∷ rs) r e = ground (arith, found_exists id rs r)

insert_dead_letter-Reliably :
    {N : RoundTrip → Type 0} (id : ℕ) (reason : String) (payload : Fields) (now : ℤ) (r : JobRun)
    (old : Database)
    → row id old ≡ some r
    → ReliablyOn N
        (λ d. d ≡ old)
        (exec_at now (insert_dead_letter id reason payload))
        (Lettered N id reason old)
unfolding insert_dead_letter
insert_dead_letter-Reliably id reason payload now r old e = ReliablyOn-exec_at now _ (λ t d n s.
    elim (Bool-cases (exists_where (λ (l : DeadLetter). l.id == t.fresh_id) d.dead_letters)) [
      | inl h ↦ rw h (
          inr (
            refl,
            s,
            (
              t,
              n,
              subst
                  (λ x. exists_where (λ (l : DeadLetter). l.id == t.fresh_id) x.dead_letters ≡ true)
                  s h,
            ),
          ))
      | inr h ↦
          rw (h, found_exists id d.job_runs r (subst (λ x. row id x ≡ some r) (sym s) e))
            (inl (
              refl,
              ap {A = Database} (λ x. x.job_runs) s,
              (_, mem-append_right d.dead_letters (here refl), refl, refl),
            ))
    ])

module _ (id : ℕ) (reason : String) (r : JobRun) where
  abbrev Marked : Result ℕ → Database → Type 0
  Marked (ok n) d = (row id d ≡ some (record r { status = RunStatus.dead })) × HasLetter id reason d
  Marked (err x) d = ⊥

module _ {N : RoundTrip → Type 0} (id : ℕ) (reason : String) (r : JobRun) (old : Database)
    (e : row id old ≡ some r) where
  marked :
      (now : ℤ) (d : Database) {u : Unit {0}}
      → Lettered N id reason old (ok u) d
      → Marked id reason r
          (ok 0)
          (record d { job_runs = update_where (run_is id) (dead_run now) d.job_runs })
  marked now d (inl h) = (
    first_updated id (dead_run now) d.job_runs r (λ x. refl)
        (subst (λ rs. first (rows_where (run_is id) rs) ≡ some r) (sym h.1) e),
    h.2,
  )
  marked now d (inr h) = cc

  collided :
      (x : Error) (d : Database)
      → Lettered N id reason old (err x) d
      → Buried N id reason r (err x) old
  collided x d (inl h) = cc
  collided x d (inr h) = inr (h.0, e, h.2)

  mark_dead_body-Reliably :
      (now : ℤ)
      → ReliablyOn N
          (λ d. d ≡ old)
          (mark_dead_body id reason now)
          (Settled (Buried N id reason r) old)
  unfolding mark_dead_body update_runs
  mark_dead_body-Reliably now =
      Reliably-bind {Q = λ a d. (a ≡ ok r) × (d ≡ old)} _ _ (fetch_run-Reliably id r old e)
        (λ run.
          Reliably-bind _ _
            (Reliably-mono (λ d h. h.1) (λ a d h. h)
              (insert_dead_letter-Reliably id reason (dead_payload run) now r old e))
            (λ u.
              Reliably-bind {Q = Marked id reason r} _ _
                (Reliably-exec_at now _ (λ t d h. marked now d h))
                (λ n. Reliably-return (commit tt) (λ d h. inl (refl, h.0, h.1)))
                (λ x d h. absurd h))
            (λ x d h. collided x d h))
        (λ x d h. cc)

-- Where every reply is delivered and no read replica is configured, MarkDead on a run that is in the
-- tables succeeds, marks it dead and writes a letter with the reason; or it fails with a unique
-- violation, keeps the run as it was, and a letter with an id that the server draws was there.
pub mark_dead-Reliably :
    {N : RoundTrip → Type 0} (id : ℕ) (reason : String) (r : JobRun)
    → ReliablyOn N (λ d. row id d ≡ some r) (mark_dead id reason) (Buried N id reason r)
unfolding mark_dead
mark_dead-Reliably id reason r =
    Reliably-transaction _ (λ now old e. mark_dead_body-Reliably id reason r old e now)
