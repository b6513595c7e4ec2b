-- ===== src/Api/Retry.antt =====
-- Sending a request with an idempotency key again.
use taskflow.Common.{
  ℕ, ℤ, String, ◌≡◌, ◌≢◌, refl, sym, ap, subst, ◌∙◌, ◌⊎◌, inl, inr, Bool, false, Option, some,
}
use taskflow.Model.{Job, NewJobInput}
use taskflow.Store.Tables.{Database}
use taskflow.Store.Query.{Result, ok, err, World}
use taskflow.Store.Valid.{IsValid}
use taskflow.Store.Creation.{Created}
use taskflow.Store.Lookup.{get_job_by_idempotency_key-Created}
use taskflow.Store.Reliably.{Reliable}
use taskflow.Store.Service.{postgres}
use taskflow.Scheduler.Schedule.{Cron}
use taskflow.Api.Text.{is_empty}
use taskflow.Api.Http.{Request, Response, Body, write_json, server_error}
use taskflow.Api.Handlers.{
  Checked, accepted, rejected, validate, existing_or, create_checked, create_if, create_decoded,
  create_job, max_create_job_body_bytes,
}
use taskflow.Api.Contract.{Responds, Responds-reply, Responds-call-Reliable}
use taskflow.Api.Creation.{
  IsFilled, validate-IsSound, CreateAnswer, stored, existing, invalid, conflicting, failed, unheard,
  create_job-Answers,
}

-- The job that a request stored, and what it and the same request, sent again, are answered.
abbrev pub Retried : Response × World → Response × World → Type 0
Retried (first, w') (second, end) =
    (job : Job) × ((first ≡ write_json 201 (Body.job job)) ⊎ (first ≡ server_error))
    × (second ≡ write_json 200 (Body.job job))
    × (end.db ≡ w'.db)

module _ (collates_before : String → String → Bool) (c : Cron) (raw : NewJobInput) (key : String)
    (keyed : raw.idempotency_key ≡ some key) (full : is_empty key ≡ false) where
  IsFilled-keyed : (input : NewJobInput) → IsFilled raw input → input.idempotency_key ≡ some key
  IsFilled-keyed input f = ap {A = NewJobInput} (λ i. i.idempotency_key) f.rest ∙ keyed

  -- Who changes the tables has stored a job.
  changed :
      (old d : Database) (id : ℕ) (now : ℤ) (first : Response)
      → CreateAnswer c raw old id now first d
      → d ≢ old
      → (input : NewJobInput) × (job : Job) × Created input old job d
        × IsFilled raw input
        × ((first ≡ write_json 201 (Body.job job)) ⊎ (first ≡ server_error))
  changed old d id now first (stored input job _ s f h) n = (input, job, h.0, f, inl refl)
  changed old d id now first (unheard input job _ s f h) n = (input, job, h.0, f, inr refl)
  changed old d id now first (existing _) n = absurd (n refl)
  changed old d id now first (invalid _) n = absurd (n refl)
  changed old d id now first (conflicting _ _ _) n = absurd (n refl)
  changed old d id now first failed n = absurd (n refl)

  -- The job is answered and nothing changes.
  abbrev Repeats : Database → Job → Response → Database → Type 0
  Repeats d job a x = (a ≡ write_json 200 (Body.job job)) × (x ≡ d)

  module _ (old d : Database) (input : NewJobInput) (job : Job) (v : IsValid old)
      (made : Created input old job d) (f : IsFilled raw input) where
    existing_or-Repeats :
        (again : NewJobInput) (r : Result Job)
        → Responds Reliable
            (λ x. (r ≡ ok job) × (x ≡ d))
            (existing_or (postgres collates_before) again r)
            (Repeats d job)
    existing_or-Repeats again (ok j) =
        Responds-reply _ (λ x p.
          let same : j ≡ job = cc (p.0) in (ap (λ i. write_json 200 (Body.job i)) same, p.1))
    existing_or-Repeats again (err e) = record { at = λ w k p. cc }

    create_checked-Repeats :
        (again : NewJobInput)
        → Responds Reliable
            (λ x. x ≡ d)
            (create_checked (postgres collates_before) again (some key))
            (Repeats d job)
    unfolding create_checked
    create_checked-Repeats again = rw full (
        Responds-call-Reliable _ (existing_or (postgres collates_before) again)
          (get_job_by_idempotency_key-Created input key old d job v made (IsFilled-keyed input f))
          (existing_or-Repeats again))

    create_if-Repeats :
        (checked : Checked) (w : World)
        → validate c raw ≡ checked
        → (create_if (postgres collates_before) checked w).1.db ≢ w.db
        → Responds Reliable
            (λ x. x ≡ d)
            (create_if (postgres collates_before) checked)
            (Repeats d job)
    create_if-Repeats (rejected text) w e n = absurd (n refl)
    create_if-Repeats (accepted again) w e n =
        let filled = (validate-IsSound c raw again e).1 in
        subst
          (λ k.
            Responds Reliable (λ x. x ≡ d) (create_checked (postgres collates_before) again k)
              (Repeats d job))
          (sym (IsFilled-keyed again filled)) (create_checked-Repeats again)

    create_job-Repeats :
        (decode : ℕ → String → Option NewJobInput) (r : Request) (w : World)
        → decode max_create_job_body_bytes r.body ≡ some raw
        → (create_job (postgres collates_before) c decode r w).1.db ≢ w.db
        → Responds Reliable
            (λ x. x ≡ d)
            (create_job (postgres collates_before) c decode r)
            (Repeats d job)
    unfolding create_job create_decoded
    create_job-Repeats decode r w e n = rw e (create_if-Repeats (validate c raw) w refl (rw e at n))

  -- A create request with an idempotency key that changed valid tables has stored a job, even if its
  -- answer was 500. Sent again once no reply is lost, on those tables and without a read replica, it
  -- is answered 200 with that job and changes nothing.
  pub create_job-retry :
      (decode : ℕ → String → Option NewJobInput) (r : Request) (w again : World)
      → decode max_create_job_body_bytes r.body ≡ some raw
      → IsValid w.db
      → (create_job (postgres collates_before) c decode r w).1.db ≢ w.db
      → Reliable again
      → again.db ≡ (create_job (postgres collates_before) c decode r w).1.db
      → Retried
          (create_job (postgres collates_before) c decode r w)
          (create_job (postgres collates_before) c decode r again)
  create_job-retry decode r w again e v n reliable same =
      let (first, w') = create_job (postgres collates_before) c decode r w in
      let answer = create_job-Answers collates_before c raw decode r w e in
      let (input, job, made, f, heard) = changed w.db w'.db _ _ first answer n in
      let repeats = create_job-Repeats w.db w'.db input job v made f decode r w e n in
      let (_, (a, x)) = repeats.at again reliable same in (job, heard, a, x)
