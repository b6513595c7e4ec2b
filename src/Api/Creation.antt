-- ===== src/Api/Creation.antt =====
-- What createJob answers and stores.
use taskflow.Common.{
  ℕ, ℤ, pos, ◌≤ℤ◌, negsuc, zero, suc, String, ◌≡◌, refl, sym, ap, subst, ◌∙◌, not, ◌+◌, ◌⊎◌, inl,
  inr, Bool, true, false, Option, none, some, arith, Bool-cases, if◌then◌else◌,
}
use taskflow.Model.{Job, NewJobInput}
use taskflow.Store.Tables.{Database}
use taskflow.Store.Query.{
  Error, not_found, idempotency_conflict, Result, ok, err, World, began, drawn,
}
use taskflow.Store.Creation.{CreatedAt, CreationFails, Conflict, create_job-Creates}
use taskflow.Store.Post.{Post}
use taskflow.Store.Jobs
use taskflow.Store.Jobs.{get_job_by_idempotency_key}
use taskflow.Store.Reads.{get_job_by_idempotency_key-Keeps}
use taskflow.Store.Service.{Service, postgres}
use taskflow.Scheduler.Schedule.{Cron}
use taskflow.Api.Text.{trim_space, is_empty}
use taskflow.Api.Http.{Request, Response, Body, write_json, write_error, server_error}
use taskflow.Api.Handlers.{
  parses, at_least_one, with_timeout, with_attempts, Checked, accepted, rejected, validate, created,
  creation_error, existing_or, create_if, reply, submit, create_checked, create_decoded, create_job,
  max_create_job_body_bytes,
}
use taskflow.Api.Contract.{Responds-reply, called, HasReplica}

-- What is stored of a request: the name is not blank, the cron expression parses, and the numbers
-- are at least one, whatever the request says.
pub record IsSound (c : Cron) (input : NewJobInput) : Type 0 where
  pub named : is_empty (trim_space input.name) ≡ false
  pub scheduled : parses c input.cron_expr ≡ true
  pub attempts : pos 1 ≤ℤ input.max_attempts
  pub timeout : pos 1 ≤ℤ input.timeout_seconds

-- `input` is the request's, but for the defaults.
pub record IsFilled (raw input : NewJobInput) : Type 0 where
  pub attempts : at_least_one 5 raw.max_attempts ≡ some input.max_attempts
  pub timeout : at_least_one 300 raw.timeout_seconds ≡ some input.timeout_seconds
  pub rest :
      input
      ≡ record raw { max_attempts = input.max_attempts; timeout_seconds = input.timeout_seconds }

at_least_one-ge : (default : ℕ) (v n : ℤ) → at_least_one (1 + default) v ≡ some n → pos 1 ≤ℤ n
at_least_one-ge default (pos zero) n e = ground arith
at_least_one-ge default (pos (suc k)) n e = ground arith
at_least_one-ge default (negsuc k) n e = ground arith

with_timeout_accepted :
    (input from : NewJobInput) (n : Option ℤ)
    → with_timeout from n ≡ accepted input
    → (n ≡ some input.timeout_seconds)
      × (input ≡ record from { timeout_seconds = input.timeout_seconds })
with_timeout_accepted input from none e = ground arith
with_timeout_accepted input from (some t) e = ground arith

with_attempts_accepted :
    (raw input : NewJobInput) (n : Option ℤ)
    → with_attempts raw n ≡ accepted input
    → (n ≡ some input.max_attempts)
      × (at_least_one 300 raw.timeout_seconds ≡ some input.timeout_seconds)
      × (input ≡ record raw {
        max_attempts = input.max_attempts;
        timeout_seconds = input.timeout_seconds;
      })
with_attempts_accepted raw input none e = ground arith
with_attempts_accepted raw input (some n) e =
    let (t, r) = with_timeout_accepted input (record raw { max_attempts = n }) _ e in
    let m = ap {A = NewJobInput} (λ i. i.max_attempts) r in (ap some (sym m), t, cc (r, m))

if_accepted :
    (blank scheduled : Bool) (checked : Checked) (input : NewJobInput)
    → (if blank
        then rejected "name is required"
        else if not scheduled
        then rejected "invalid cron_expr"
        else checked)
      ≡ accepted input
    → (blank ≡ false) × (scheduled ≡ true) × (checked ≡ accepted input)
if_accepted true scheduled checked input e = ground arith
if_accepted false true checked input e = (refl, refl, e)
if_accepted false false checked input e = ground arith

pub validate-IsSound :
    (c : Cron) (raw input : NewJobInput)
    → validate c raw ≡ accepted input
    → IsSound c input × IsFilled raw input
unfolding validate
validate-IsSound c raw input e =
    let (n, p, h) = if_accepted _ _ _ input e in
    let (a, t, r) = with_attempts_accepted raw input _ h in
    (
      record {
        named = ap {A = NewJobInput} (λ i. is_empty (trim_space i.name)) r ∙ n;
        scheduled = ap {A = NewJobInput} (λ i. parses c i.cron_expr) r ∙ p;
        attempts = at_least_one-ge 4 raw.max_attempts _ a;
        timeout = at_least_one-ge 299 raw.timeout_seconds _ t;
      },
      record { attempts = a; timeout = t; rest = r },
    )

creation_error_cases : (x : Error) → (x ≡ idempotency_conflict) ⊎ (creation_error x ≡ server_error)
creation_error_cases x = ground arith

lookup_error_cases :
    (s : Service World) (input : NewJobInput) (x : Error)
    → (x ≡ not_found) ⊎ (existing_or s input (err x) ≡ reply server_error)
lookup_error_cases s input not_found = inl refl
lookup_error_cases s input x = inr refl

module _ (c : Cron) (raw : NewJobInput) (old : Database) (id : ℕ) (now : ℤ) where
  -- What a request for `raw` is answered, and what is then stored, where the server draws `id` for
  -- the job at the time `now`.
  pub data CreateAnswer : Response → Database → Type 0 where
    stored :
        (input : NewJobInput) (job : Job) (d : Database)
        → IsSound c input
        → IsFilled raw input
        → CreatedAt id now input old job d
        → CreateAnswer (write_json 201 (Body.job job)) d
    existing : (job : Job) → CreateAnswer (write_json 200 (Body.job job)) old
    invalid : (text : String) → CreateAnswer (write_error 400 text) old
    conflicting :
        (input : NewJobInput)
        → IsFilled raw input
        → Conflict input id old
        → CreateAnswer (write_error 409 "idempotency key already used") old
    failed : CreateAnswer server_error old
    -- The reply to COMMIT was lost.
    unheard :
        (input : NewJobInput) (job : Job) (d : Database)
        → IsSound c input
        → IsFilled raw input
        → CreatedAt id now input old job d
        → CreateAnswer server_error d

-- The world in which CreateJob is called, after the lookup of the key.
abbrev pub submitted : Option String → World → World
submitted none w = w
submitted (some key) w = if is_empty key then w else (get_job_by_idempotency_key key w).1

module _ (collates_before : String → String → Bool) (c : Cron) (raw : NewJobInput) (old : Database)
    (R : Option Database) (id : ℕ) (now : ℤ) where
  refused-CreateAnswer :
      (x : Error) (input : NewJobInput) (d : Database)
      → IsSound c input
      → IsFilled raw input
      → CreationFails id now input old x d
      → CreateAnswer c raw old id now (creation_error x) d
  refused-CreateAnswer x input d s f (inl (e, h)) = elim (creation_error_cases x) [
    | inl k ↦
        subst (λ y. CreateAnswer c raw old id now (creation_error y) d) (sym k)
          (subst (CreateAnswer c raw old id now (creation_error idempotency_conflict)) (sym e)
            (conflicting input f (h k)))
    | inr k ↦
        subst (λ y. CreateAnswer c raw old id now y d) (sym k)
          (subst (CreateAnswer c raw old id now server_error) (sym e) failed)
  ]
  refused-CreateAnswer x input d s f (inr (e, (job, h))) =
      subst (λ y. CreateAnswer c raw old id now (creation_error y) d) (sym e)
        (unheard input job d s f h)

  abbrev Answers : Response × World → Type 0
  Answers (answer, w) = HasReplica R w × CreateAnswer c raw old id now answer w.db

  -- A world in which CreateJob draws `id` at `now`, from the tables `old`.
  abbrev Stands : World → Type 0
  Stands w = (w.replica ≡ R) × (w.db ≡ old) × (drawn w ≡ id) × (began w ≡ now)

  creates :
      (input : NewJobInput) (w : World)
      → Stands w
      → Post R
          (CreatedAt id now input old)
          (CreationFails id now input old)
          (Jobs.create_job input w)
  creates input w (k, e, i, n) = rw (← k, ← e, ← i, ← n) (create_job-Creates input w)

  submit-Answers :
      (input : NewJobInput) (w : World)
      → IsSound c input
      → IsFilled raw input
      → Stands w
      → Answers (submit (postgres collates_before) input w)
  unfolding submit
  submit-Answers input w s f h =
      called {R = R} {Qa = CreatedAt id now input old} {E = CreationFails id now input old}
        {Q = CreateAnswer c raw old id now} created (Jobs.create_job input w)
        (λ job. Responds-reply _ (λ d h. stored input job d s f h))
        (λ x. Responds-reply _ (λ d h. refused-CreateAnswer x input d s f h)) (creates input w h)

  existing_or-Answers :
      (input : NewJobInput) (r : Result Job × World)
      → IsSound c input
      → IsFilled raw input
      → Stands r.1
      → Answers (existing_or (postgres collates_before) input r.0 r.1)
  existing_or-Answers input (ok job, w) s f (k, e, h, n) =
      (k, subst (CreateAnswer c raw old id now _) (sym e) (existing job))
  existing_or-Answers input (err x, w) s f (k, e, h, n) =
      elim (lookup_error_cases (postgres collates_before) input x) [
        | inl m ↦ rw m (submit-Answers input w s f (k, e, h, n))
        | inr m ↦ rw m (k, subst (CreateAnswer c raw old id now _) (sym e) failed)
      ]

  create_checked-Answers :
      (input : NewJobInput) (key : Option String) (w : World)
      → IsSound c input
      → IsFilled raw input
      → Stands (submitted key w)
      → w.replica ≡ R
      → w.db ≡ old
      → Answers (create_checked (postgres collates_before) input key w)
  unfolding create_checked
  create_checked-Answers input none w s f h k e = submit-Answers input w s f h
  create_checked-Answers input (some key) w s f h k e = elim (Bool-cases (is_empty key)) [
    | inl m ↦ rw m (submit-Answers input w s f (rw m at h))
    | inr m ↦ rw m (existing_or-Answers input (get_job_by_idempotency_key key w) s f (rw m at h))
  ]

  create_if-Answers :
      (checked : Checked) (w : World)
      → validate c raw ≡ checked
      → Stands (submitted raw.idempotency_key w)
      → w.replica ≡ R
      → w.db ≡ old
      → Answers (create_if (postgres collates_before) checked w)
  create_if-Answers (accepted input) w v h k e =
      let (s, f) = validate-IsSound c raw input v in
      let same : raw.idempotency_key ≡ input.idempotency_key =
        sym (ap {A = NewJobInput} (λ i. i.idempotency_key) f.rest) in
      create_checked-Answers input input.idempotency_key w s f
        (subst (λ o. Stands (submitted o w)) same h) k e
  create_if-Answers (rejected text) w v h k e =
      (k, subst (CreateAnswer c raw old id now _) (sym e) (invalid text))

-- The lookup of the key leaves the tables and the replica.
submitted_same :
    (key : Option String) (w : World)
    → ((submitted key w).replica ≡ w.replica) × ((submitted key w).db ≡ w.db)
submitted_same none w = (refl, refl)
submitted_same (some key) w = elim (Bool-cases (is_empty key)) [
  | inl m ↦ rw m (refl, refl)
  | inr m ↦ rw m (
      left (get_job_by_idempotency_key key w)
        ((get_job_by_idempotency_key-Keeps {R = w.replica} {P = λ d. d ≡ w.db} key).at w refl refl))
]
  where
    left :
        (r : Result Job × World)
        → Post w.replica (λ _ d. d ≡ w.db) (λ _ d. d ≡ w.db) r
        → (r.1.replica ≡ w.replica) × (r.1.db ≡ w.db)
    left (ok job, w') p = p
    left (err x, w') p = p

-- Whatever the network loses, with or without a replica, a create request that decodes to `raw` is
-- answered 201 with the job that it stored, which is sound and `raw` but for the defaults, under the
-- id that the server draws for it, or leaves the tables as they were, or is answered 500 and has
-- stored such a job, since the reply to COMMIT was lost. It is answered 409 only if a job has the
-- key, or the id that the server draws for this job.
pub create_job-Answers :
    (collates_before : String → String → Bool) (c : Cron) (raw : NewJobInput)
    (decode : ℕ → String → Option NewJobInput) (r : Request) (w : World)
    → decode max_create_job_body_bytes r.body ≡ some raw
    → let (answer, w') = create_job (postgres collates_before) c decode r w in
      let s = submitted raw.idempotency_key w in
      CreateAnswer c raw w.db (drawn s) (began s) answer w'.db
unfolding create_job create_decoded
create_job-Answers collates_before c raw decode r w e =
    let s = submitted raw.idempotency_key w in
    let (k, d) = submitted_same raw.idempotency_key w in
    rw e (
      (create_if-Answers collates_before c raw w.db w.replica (drawn s) (began s) (validate c raw) w
        refl (k, d, refl, refl) refl refl).1)
