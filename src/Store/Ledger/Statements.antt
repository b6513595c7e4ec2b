-- ===== src/Store/Ledger/Statements.antt =====
-- What the single statements do to the runs and dead letters that are already there.
use taskflow.Common.{
  ℕ, ◌≤◌, ℤ, String, ◌≡◌, refl, sym, subst, ◌∙◌, inl, inr, Bool, Bool-cases, List, [], ◌∷◌, ◌++◌,
  arith, In, here, there, update_where, mem-append_left,
}
use taskflow.Model.{JobRun, DeadLetter, NewJobInput, JobStatus, Fields}
use taskflow.Store.Tables.{JobRow, Database}
use taskflow.Store.Query.{ok, RoundTrip}
use taskflow.Store.Jobs.{insert_job, insert_dependency, set_job_status}
use taskflow.Store.Runs.{insert_run, insert_dead_letter}
use taskflow.Store.Workers.{upsert_worker}
use taskflow.Store.Valid.Runs.{insert_run_ok}

-- The same run at a later time: it has counted no attempt back.
pub record IsLater (r x : JobRun) : Type 0 where
  pub same_id : x.id ≡ r.id
  pub same_job : x.job_id ≡ r.job_id
  pub same_creation : x.created_at ≡ r.created_at
  pub attempts : r.attempt ≤ x.attempt

-- Every run of `old` is there, as it was or later, and every dead letter as it was.
pub record Retains (old d : Database) : Type 0 where
  pub runs : (r : JobRun) → In r old.job_runs → (x : JobRun) × In x d.job_runs × IsLater r x
  pub letters : (l : DeadLetter) → In l old.dead_letters → In l d.dead_letters

-- The same run with no attempt less.
pub later :
    {r x : JobRun}
    → x.id ≡ r.id
    → x.job_id ≡ r.job_id
    → x.created_at ≡ r.created_at
    → r.attempt ≤ x.attempt
    → IsLater r x
later i j c a = record { same_id = i; same_job = j; same_creation = c; attempts = a }

pub IsLater-refl : (r : JobRun) → IsLater r r
IsLater-refl r = record {
  same_id = refl;
  same_job = refl;
  same_creation = refl;
  attempts = omega arith;
}

pub IsLater-trans : (r x y : JobRun) → IsLater r x → IsLater x y → IsLater r y
IsLater-trans r x y h k = record {
  same_id = k.same_id ∙ h.same_id;
  same_job = k.same_job ∙ h.same_job;
  same_creation = k.same_creation ∙ h.same_creation;
  attempts = omega (arith, h.attempts, k.attempts);
}

pub Retains-refl : (d : Database) → Retains d d
Retains-refl d = record { runs = λ r m. (r, m, IsLater-refl r); letters = λ l m. m }

updated-mem :
    (p : JobRun → Bool) (f : JobRun → JobRun) {x : JobRun} (rs : List JobRun)
    → ((r : JobRun) → IsLater r (f r))
    → In x rs
    → (y : JobRun) × In y (update_where p f rs) × IsLater x y
unfolding update_where
updated-mem p f {x} rs grow (here {x = r} {xs = xs} e) = elim (Bool-cases (p r)) [
  | inl h ↦ rw h (f r, here refl, subst (λ y. IsLater y (f r)) (sym e) (grow r))
  | inr h ↦ rw h (r, here refl, subst (λ y. IsLater y r) (sym e) (IsLater-refl r))
]
updated-mem p f rs grow (there m) = let (y, k, l) = updated-mem p f _ grow m in (y, there k, l)

pub insert_job_rest :
    (input : NewJobInput) (now : ℤ) (t : RoundTrip) (d : Database) {r : JobRow} {d' : Database}
    → insert_job input now t d ≡ ok (r, d')
    → (d'.job_runs ≡ d.job_runs) × (d'.dead_letters ≡ d.dead_letters)
unfolding insert_job
insert_job_rest input now t d e = ground arith

pub insert_dependency_rest :
    (job dep : ℕ) (now : ℤ) (t : RoundTrip) (d : Database) {u : Unit {0}} {d' : Database}
    → insert_dependency job dep now t d ≡ ok (u, d')
    → (d'.job_runs ≡ d.job_runs) × (d'.dead_letters ≡ d.dead_letters)
unfolding insert_dependency
insert_dependency_rest job dep now t d e = ground arith

insert_dead_letter_ok :
    (run : ℕ) (reason : String) (payload : Fields) (now : ℤ) (t : RoundTrip) (d : Database)
    {u : Unit {0}} {d' : Database}
    → insert_dead_letter run reason payload now t d ≡ ok (u, d')
    → (d'.job_runs ≡ d.job_runs)
      × (d'.dead_letters
          ≡ d.dead_letters
            ++ record {
              id = t.fresh_id;
              job_run_id = run;
              reason = reason;
              payload = payload;
              created_at = now;
            }
              ∷ [])
unfolding insert_dead_letter
insert_dead_letter_ok run reason payload now t d e = ground arith

module _ (old d : Database) (h : Retains old d) where
  pub Retains-updated :
      (p : JobRun → Bool) (f : JobRun → JobRun)
      → ((r : JobRun) → IsLater r (f r))
      → Retains old (record d { job_runs = update_where p f d.job_runs })
  Retains-updated p f grow = record {
    runs = λ r m.
        let (x, k, l) = h.runs r m in
        let (y, k', l') = updated-mem p f d.job_runs grow k in (y, k', IsLater-trans r x y l l');
    letters = h.letters;
  }

  pub Retains-same :
      (d' : Database) → d'.job_runs ≡ d.job_runs → d'.dead_letters ≡ d.dead_letters → Retains old d'
  Retains-same d' e g = record {
    runs = λ r m. let (x, k, l) = h.runs r m in (x, subst (λ rs. In x rs) (sym e) k, l);
    letters = λ l m. subst (λ ls. In l ls) (sym g) (h.letters l m);
  }

  pub insert_run-Retains :
      (job : ℕ) (priority at now : ℤ) (t : RoundTrip) (r : JobRun) (d' : Database)
      → insert_run job priority at now t d ≡ ok (r, d')
      → Retains old d'
  insert_run-Retains job priority at now t r d' e =
      let made = (insert_run_ok job priority at now t d e).3 in
      rw made (record {
        runs = λ r m. let (x, k, l) = h.runs r m in (x, mem-append_left _ k, l);
        letters = h.letters;
      })

  pub insert_dead_letter-Retains :
      (run : ℕ) (reason : String) (payload : Fields) (now : ℤ) (t : RoundTrip) (u : Unit {0})
      (d' : Database)
      → insert_dead_letter run reason payload now t d ≡ ok (u, d')
      → Retains old d'
  insert_dead_letter-Retains run reason payload now t u d' e =
      let (same, made) = insert_dead_letter_ok run reason payload now t d e in
      record {
        runs = λ r m. let (x, k, l) = h.runs r m in (x, subst (λ rs. In x rs) (sym same) k, l);
        letters = λ l m. subst (λ ls. In l ls) (sym made) (mem-append_left _ (h.letters l m));
      }

  pub insert_job-Retains :
      (input : NewJobInput) (now : ℤ) (t : RoundTrip) {r : JobRow} {d' : Database}
      → insert_job input now t d ≡ ok (r, d')
      → Retains old d'
  insert_job-Retains input now t {r} {d'} e =
      let (k, l) = insert_job_rest input now t d e in Retains-same d' k l

  pub insert_dependency-Retains :
      (job dep : ℕ) (now : ℤ) (t : RoundTrip) {u : Unit {0}} {d' : Database}
      → insert_dependency job dep now t d ≡ ok (u, d')
      → Retains old d'
  insert_dependency-Retains job dep now t {u} {d'} e =
      let (k, l) = insert_dependency_rest job dep now t d e in Retains-same d' k l

pub set_job_status_rest :
    (id : ℕ) (status : JobStatus) (now : ℤ) (t : RoundTrip) (d : Database) {n : ℕ} {d' : Database}
    → set_job_status id status now t d ≡ ok (n, d')
    → (d'.job_runs ≡ d.job_runs) × (d'.dead_letters ≡ d.dead_letters)
unfolding set_job_status
set_job_status_rest id status now t d e = ground arith

pub upsert_worker_rest :
    (id hostname : String) (now : ℤ) (t : RoundTrip) (d : Database) {u : Unit {0}} {d' : Database}
    → upsert_worker id hostname now t d ≡ ok (u, d')
    → (d'.job_runs ≡ d.job_runs) × (d'.dead_letters ≡ d.dead_letters)
unfolding upsert_worker
upsert_worker_rest id hostname now t d e = ground arith
