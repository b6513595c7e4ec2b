-- ===== src/Cache/Coherence.antt =====
-- Whether the cache answers what the store would.
use taskflow.Common.{
  ℕ, ◌≡◌, ◌≢◌, refl, sym, ap, subst, ◌∙◌, ◌⊎◌, inl, inr, Bool, true, false, Option, none, some,
  if◌then◌else◌,
}
use taskflow.Model.{Job, JobRun, JobStatus}
use taskflow.Store.Query.{Error, Result, ok, err}
use taskflow.Store.Service.{Service}
use taskflow.Cache.{
  Key, job_key, run_key, job_ttl, run_ttl, Redis, Json, and_decode, set_if, filled_job, job_or,
  get_job, filled_run, run_or, get_run, invalidated, update_job_status,
}

-- What Redis documents of GET, SET and DEL on a server that carries them out: `Held r k raw` says
-- that the server may answer `raw` for `k`. It may forget, but it answers only what was set and not
-- deleted since.
pub record Remembers {R Raw : Type 0} (redis : Redis R Raw) (Held : R → Key → Raw → Type 0)
    : Type 0 where
  pub got : (k : Key) (r : R) (raw : Raw) → (redis.get k r).0 ≡ some raw → Held r k raw
  pub get_keeps : (k j : Key) (r : R) (raw : Raw) → Held (redis.get k r).1 j raw → Held r j raw
  pub set_keeps :
      (k j : Key) (v raw : Raw) (ttl : ℕ) (r : R)
      → Held (redis.set k v ttl r) j raw
      → ((j ≡ k) × (raw ≡ v)) ⊎ Held r j raw
  pub del_keeps :
      (k j : Key) (r : R) (raw : Raw) → Held (redis.del k r) j raw → (j ≢ k) × Held r j raw

-- Decoding what was encoded.
pub record Inverts {Raw : Type 0} (json : Json Raw) : Type 0 where
  pub job : (j : Job) (raw : Raw) → json.marshal_job j ≡ some raw → json.unmarshal_job raw ≡ some j
  pub run :
      (j : JobRun) (raw : Raw) → json.marshal_run j ≡ some raw → json.unmarshal_run raw ≡ some j

-- A store whose reads change nothing, in which an update changes the answer for its own job at
-- most, and only if it succeeds, and a creation changes no answer that was given.
pub record Steady {W : Type 0} (s : Service W) (job : W → ℕ → Result Job)
    (run : W → ℕ → Result JobRun) : Type 0 where
  pub reads_job : (id : ℕ) (w : W) → s.get_job id w ≡ (job w id, w)
  pub reads_run : (id : ℕ) (w : W) → s.get_run id w ≡ (run w id, w)
  pub update_other :
      (id j : ℕ) (status : JobStatus) (w : W)
      → j ≢ id
      → job (s.update_job_status id status w).1 j ≡ job w j
  pub update_failed :
      (id j : ℕ) (status : JobStatus) (w : W) (x : Error)
      → (s.update_job_status id status w).0 ≡ err x
      → job (s.update_job_status id status w).1 j ≡ job w j
  pub update_run :
      (id j : ℕ) (status : JobStatus) (w : W) → run (s.update_job_status id status w).1 j ≡ run w j

-- What Redis may answer is what the store answers.
pub record IsCoherent {W R Raw : Type 0} (json : Json Raw) (Held : R → Key → Raw → Type 0)
    (job : W → ℕ → Result Job) (run : W → ℕ → Result JobRun) (w : W) (r : R) : Type 0 where
  pub jobs :
      (id : ℕ) (raw : Raw) (j : Job)
      → Held r (job_key id) raw
      → json.unmarshal_job raw ≡ some j
      → job w id ≡ ok j
  pub runs :
      (id : ℕ) (raw : Raw) (j : JobRun)
      → Held r (run_key id) raw
      → json.unmarshal_run raw ≡ some j
      → run w id ≡ ok j

pub decoded :
    {A Raw : Type 0} (decode : Raw → Option A) (o : Option Raw) (a : A)
    → and_decode decode o ≡ some a
    → (raw : Raw) × (o ≡ some raw) × (decode raw ≡ some a)
decoded decode none a e = cc
decoded decode (some raw) a e = (raw, refl, e)

pub same_value :
    {A Raw : Type 0} (decode : Raw → Option A) {raw v : Raw} {a b : A}
    → decode raw ≡ some b
    → raw ≡ v
    → decode v ≡ some a
    → a ≡ b
same_value decode d p e = let h = sym d ∙ ap decode p ∙ e in cc h

pub job_key-inj : (i j : ℕ) → job_key i ≡ job_key j → i ≡ j
job_key-inj i j e = cc

run_key-inj : (i j : ℕ) → run_key i ≡ run_key j → i ≡ j
run_key-inj i j e = cc

module _ {W R Raw : Type 0} (redis : Redis R Raw) (json : Json Raw) (s : Service W)
    (Held : R → Key → Raw → Type 0) (job : W → ℕ → Result Job) (run : W → ℕ → Result JobRun)
    (mem : Remembers redis Held) (inv : Inverts json) (steady : Steady s job run) where
  abbrev pub Coherent : W → R → Type 0
  Coherent w r = IsCoherent json Held job run w r

  got-Coherent : (w : W) (k : Key) (r : R) → Coherent w r → Coherent w (redis.get k r).1
  got-Coherent w k r c = record {
    jobs = λ id raw j h e. c.jobs id raw j (mem.get_keeps k (job_key id) r raw h) e;
    runs = λ id raw j h e. c.runs id raw j (mem.get_keeps k (run_key id) r raw h) e;
  }

  set_job-Coherent :
      (w : W) (r : R) (id : ℕ) (j : Job) (o : Option Raw)
      → json.marshal_job j ≡ o
      → job w id ≡ ok j
      → Coherent w r
      → Coherent w (set_if redis (job_key id) job_ttl o r)
  set_job-Coherent w r id j none m e c = c
  set_job-Coherent w r id j (some v) m e c = record {
    jobs = λ i raw k h d. elim (mem.set_keeps (job_key id) (job_key i) v raw job_ttl r h) [
      | inl (q, p) ↦
          ap (job w) (job_key-inj i id q)
          ∙ e
          ∙ ap ok (same_value json.unmarshal_job d p (inv.job j v m))
      | inr old ↦ c.jobs i raw k old d
    ];
    runs = λ i raw k h d. elim (mem.set_keeps (job_key id) (run_key i) v raw job_ttl r h) [
      | inl (q, p) ↦ cc
      | inr old ↦ c.runs i raw k old d
    ];
  }

  -- What a read leaves and answers.
  abbrev pub Reads : {A : Type 0} → (W → ℕ → Result A) → ℕ → W → Result A × (W × R) → Type 0
  Reads view id w (a, (w', r)) = (a ≡ view w id) × (w' ≡ w) × Coherent w' r

  filled_job-Reads :
      (id : ℕ) (a : Result Job) (w : W) (r : R)
      → a ≡ job w id
      → Coherent w r
      → Reads job id w (filled_job redis json s id (a, w) r)
  filled_job-Reads id (ok j) w r e c =
      (e, refl, set_job-Coherent w r id j (json.marshal_job j) refl (sym e) c)
  filled_job-Reads id (err x) w r e c = (e, refl, c)

  job_or-Reads :
      (id : ℕ) (o : Option Job) (w : W) (r : R)
      → ((j : Job) → o ≡ some j → job w id ≡ ok j)
      → Coherent w r
      → Reads job id w (job_or redis json s id o w r)
  job_or-Reads id (some j) w r h c = (sym (h j refl), refl, c)
  job_or-Reads id none w r h c =
      subst (λ x. Reads job id w (filled_job redis json s id x r)) (sym (steady.reads_job id w))
        (filled_job-Reads id (job w id) w r refl c)

  pub get_job-Reads :
      (id : ℕ) (w : W) (r : R) → Coherent w r → Reads job id w (get_job redis json s id (w, r))
  unfolding get_job
  get_job-Reads id w r c =
      job_or-Reads id (and_decode json.unmarshal_job (redis.get (job_key id) r).0) w _
        (λ j e.
          let (raw, g, d) = decoded json.unmarshal_job _ j e in
          c.jobs id raw j (mem.got (job_key id) r raw g) d)
        (got-Coherent w (job_key id) r c)

  set_run-Coherent :
      (w : W) (r : R) (id : ℕ) (j : JobRun) (o : Option Raw)
      → json.marshal_run j ≡ o
      → run w id ≡ ok j
      → Coherent w r
      → Coherent w (set_if redis (run_key id) run_ttl o r)
  set_run-Coherent w r id j none m e c = c
  set_run-Coherent w r id j (some v) m e c = record {
    jobs = λ i raw k h d. elim (mem.set_keeps (run_key id) (job_key i) v raw run_ttl r h) [
      | inl (q, p) ↦ cc
      | inr old ↦ c.jobs i raw k old d
    ];
    runs = λ i raw k h d. elim (mem.set_keeps (run_key id) (run_key i) v raw run_ttl r h) [
      | inl (q, p) ↦
          ap (run w) (run_key-inj i id q)
          ∙ e
          ∙ ap ok (same_value json.unmarshal_run d p (inv.run j v m))
      | inr old ↦ c.runs i raw k old d
    ];
  }

  if-Coherent :
      (b : Bool) (w : W) (r r' : R)
      → Coherent w r
      → Coherent w r'
      → Coherent w (if b then r else r')
  if-Coherent true w r r' c d = c
  if-Coherent false w r r' c d = d

  filled_run-Reads :
      (id : ℕ) (a : Result JobRun) (w : W) (r : R)
      → a ≡ run w id
      → Coherent w r
      → Reads run id w (filled_run redis json s id (a, w) r)
  filled_run-Reads id (ok j) w r e c = (
    e,
    refl,
    if-Coherent _ w _ r (set_run-Coherent w r id j (json.marshal_run j) refl (sym e) c) c,
  )
  filled_run-Reads id (err x) w r e c = (e, refl, c)

  run_or-Reads :
      (id : ℕ) (o : Option JobRun) (w : W) (r : R)
      → ((j : JobRun) → o ≡ some j → run w id ≡ ok j)
      → Coherent w r
      → Reads run id w (run_or redis json s id o w r)
  run_or-Reads id (some j) w r h c = (sym (h j refl), refl, c)
  run_or-Reads id none w r h c =
      subst (λ x. Reads run id w (filled_run redis json s id x r)) (sym (steady.reads_run id w))
        (filled_run-Reads id (run w id) w r refl c)

  pub get_run-Reads :
      (id : ℕ) (w : W) (r : R) → Coherent w r → Reads run id w (get_run redis json s id (w, r))
  unfolding get_run
  get_run-Reads id w r c =
      run_or-Reads id (and_decode json.unmarshal_run (redis.get (run_key id) r).0) w _
        (λ j e.
          let (raw, g, d) = decoded json.unmarshal_run _ j e in
          c.runs id raw j (mem.got (run_key id) r raw g) d)
        (got-Coherent w (run_key id) r c)

  -- What an update leaves and answers.
  abbrev pub Updates : Result (Unit {0}) × W → Result (Unit {0}) × (W × R) → Type 0
  Updates (b, v) (a, (w', r')) = (a ≡ b) × (w' ≡ v) × Coherent w' r'

  invalidated-Updates :
      (id : ℕ) (a : Result (Unit {0})) (w w' : W) (r : R)
      → ((j : ℕ) → j ≢ id → job w' j ≡ job w j)
      → ((j : ℕ) (x : Error) → a ≡ err x → job w' j ≡ job w j)
      → ((j : ℕ) → run w' j ≡ run w j)
      → Coherent w r
      → Updates (a, w') (invalidated redis json s id (a, w') r)
  invalidated-Updates id (ok u) w w' r other failed same c = (
    refl,
    refl,
    record {
      jobs = λ i raw j h d.
          let (n, old) = mem.del_keeps (job_key id) (job_key i) r raw h in
          other i (λ q. n (ap job_key q)) ∙ c.jobs i raw j old d;
      runs = λ i raw j h d.
          same i ∙ c.runs i raw j (mem.del_keeps (job_key id) (run_key i) r raw h).1 d;
    },
  )
  invalidated-Updates id (err x) w w' r other failed same c = (
    refl,
    refl,
    record {
      jobs = λ i raw j h d. failed i x refl ∙ c.jobs i raw j h d;
      runs = λ i raw j h d. same i ∙ c.runs i raw j h d;
    },
  )

  pub update_job_status-Updates :
      (id : ℕ) (status : JobStatus) (w : W) (r : R)
      → Coherent w r
      → Updates (s.update_job_status id status w) (update_job_status redis json s id status (w, r))
  unfolding update_job_status
  update_job_status-Updates id status w r c =
      invalidated-Updates id (s.update_job_status id status w).0 w
        (s.update_job_status id status w).1 r (λ j. steady.update_other id j status w)
        (λ j x. steady.update_failed id j status w x) (λ j. steady.update_run id j status w) c
