-- ===== src/Store/Tests.antt =====
-- Concrete tables on which the theorems about the store are applied.
use taskflow.Common.{ℕ, pos, ℤ, false, ◌≡◌, List, [], ◌∷◌, none, some}
use taskflow.Store.Reliably.{Reliably}
use taskflow.Store.Jobs
use taskflow.Store.Reclaim.{mark_running-never_reclaimed}
use taskflow.Store.Creation.{CreatedAt, CreationFails, create_job-Creates}
use taskflow.Store.Effects.{row}
use taskflow.Model.{running, JobRun, NewJobInput, empty}
use taskflow.Store.Query.{ok, began, drawn, skipped, World, RoundTrip, delivered}
use taskflow.Store.Post.{Post}
use taskflow.Store.Runs
use taskflow.Store.Valid.{IsValid}
use taskflow.Store.History.{Call, run, run-IsValid, empty_database, empty_database-IsValid}
use taskflow.Store.Ledger.{run-Retains}
use taskflow.Store.Ledger.Statements.{Retains}
use taskflow.Store.Lease.{LeasedAt, LeaseFailsAt, lease_next_run-Leases}

abbrev pub sample_input : NewJobInput
sample_input = record {
  name = "echo";
  payload = empty;
  cron_expr = none;
  priority = pos 0;
  max_attempts = pos 3;
  timeout_seconds = pos 30;
  idempotency_key = some "k";
  depends_on = [];
}

abbrev trip : ℕ → RoundTrip
trip id = record { reply = delivered; elapsed = 1; fresh_id = id; locked = [] }

abbrev start : World
start = record {
  db = empty_database;
  replica = none;
  now = pos 0;
  script = trip 0 ∷ trip 7 ∷ trip 0 ∷ trip 9 ∷ [];
}

abbrev calls : List Call
calls =
    Call.create_job sample_input
    ∷ Call.create_run 7 (pos 0) (pos 2)
    ∷ Call.lease_next_run "w" (pos 10)
    ∷ Call.mark_running 9
    ∷ Call.mark_dead 9 "no handler"
    ∷ []

run-IsValid_example : IsValid (run start calls).db
run-IsValid_example = run-IsValid start calls empty_database-IsValid

abbrev queued : List Call
queued = Call.create_job sample_input ∷ Call.create_run 7 (pos 0) (pos 0) ∷ []

lease_next_run-Leases_example :
    let w = run start queued in
    Post w.replica
      (LeasedAt (began w) (skipped w) "w" (pos 10) w.db)
      (LeaseFailsAt (began w) (skipped w) "w" (pos 10) w.db)
      (Runs.lease_next_run "w" (pos 10) w)
lease_next_run-Leases_example =
    lease_next_run-Leases "w" (pos 10) (run start queued)
      (run-IsValid start queued empty_database-IsValid)

abbrev leased_nine : JobRun
leased_nine = Runs.leased_run "w" (pos 10) (pos 1) (Runs.new_run 7 (pos 0) (pos 0) 9 (pos 0))

abbrev dependent : NewJobInput
dependent = record sample_input { idempotency_key = some "l"; depends_on = 7 ∷ [] }

mark_running-never_reclaimed_example :
    Reliably
      (λ d. row 9 d ≡ some (Runs.reclaimed_run (pos 20) leased_nine))
      (Runs.mark_running 9)
      (λ a d.
        (a ≡ ok tt)
        × ((x : JobRun) × (row 9 d ≡ some x)
            × (x.status ≡ running)
            × ((now : ℤ) → Runs.is_reclaimable now x ≡ false)))
mark_running-never_reclaimed_example = mark_running-never_reclaimed 9 leased_nine (pos 20)

create_job-Creates_example :
    let w = run start queued in
    Post w.replica
      (CreatedAt (drawn w) (began w) dependent w.db)
      (CreationFails (drawn w) (began w) dependent w.db)
      (Jobs.create_job dependent w)
create_job-Creates_example = create_job-Creates dependent (run start queued)

run-Retains_example : Retains (run start queued).db (run (run start queued) calls).db
run-Retains_example = run-Retains (run start queued) calls
