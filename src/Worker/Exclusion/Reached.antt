-- ===== src/Worker/Exclusion/Reached.antt =====
-- What the loops have in hand after any calls.
use taskflow.Common.{ℕ, ◌≡◌, ◌≢◌, refl, true, false, some}
use taskflow.Store.Tables.{Database}
use taskflow.Store.Runs.{lease_next_run}
use taskflow.Store.Valid.{IsValid}
use taskflow.Store.Valid.Calls.{
  lease_next_run-Keeps, mark_running-Keeps, complete_run-Keeps, fail_run-Keeps, mark_dead-Keeps,
  reclaim_expired_leases-Keeps,
}
use taskflow.Store.Lease.{lease_next_run-Ensures}
use taskflow.Worker.Pool.{Pool}
use taskflow.Worker.Exclusion.{
  idle, started, given_up, System, held, seen, Step, leases, starts, finds_no_handler, completes,
  requeues, gives_up, buries, elsewhere, reclaims, Steps, stop, step, start,
}
use taskflow.Worker.Exclusion.Taken.{
  IsTaken, mark_running-IsTaken, complete_run-IsTaken, fail_run-IsTaken, requeue-IsTaken,
  mark_dead-IsTaken, reclaim_expired_leases-IsTaken,
}
use taskflow.Store.History.{perform-Keeps}
use taskflow.Worker.Exclusion.Outside.{perform-IsTaken}
use taskflow.Worker.Exclusion.Alone.{
  IsSound, kept-db, call-IsSound, dropped, others-apart, lease-IsSound,
}

module _ {p : ℕ → Pool} where
  step-IsSound : {s t : System} → Step p s t → IsSound s → IsSound t
  step-IsSound (leases {s} i w free) h =
      let worker = (p i).worker_id in
      let duration = (p i).lease_duration in
      lease-IsSound s h i free worker duration w.replica (lease_next_run worker duration (seen s w))
        (kept-db w.replica IsValid _
          ((lease_next_run-Keeps worker duration).at (seen s w) refl h.valid))
        ((lease_next_run-Ensures w.replica worker duration s.db h.valid).at (seen s w) refl refl)
  step-IsSound (starts {s} i w run job e) h =
      call-IsSound s h i (started run job) _ w (λ id x. rw e x) (mark_running-Keeps run.id)
        (λ j id a b. mark_running-IsTaken w.replica id run.id)
  step-IsSound (finds_no_handler {s} i w run job message e) h =
      call-IsSound s h i (given_up run) _ w (λ id x. rw e x) (fail_run-Keeps run.id message false _)
        (λ j id a b. fail_run-IsTaken w.replica id run.id message)
  step-IsSound (completes {s} i w run job result e) h =
      call-IsSound s h i idle _ w (dropped s h i) (complete_run-Keeps run.id result)
        (λ j id a b. complete_run-IsTaken w.replica id run.id result)
  step-IsSound (requeues {s} i w run job message e less) h =
      call-IsSound s h i idle _ w (dropped s h i) (fail_run-Keeps run.id message true _)
        (λ j id a b.
          requeue-IsTaken w.replica id run.id message _
            (others-apart s h i run.id (rw e refl) j id a b))
  step-IsSound (gives_up {s} i w run job message e more) h =
      call-IsSound s h i (given_up run) _ w (λ id x. rw e x) (fail_run-Keeps run.id message false _)
        (λ j id a b. fail_run-IsTaken w.replica id run.id message)
  step-IsSound (buries {s} i w run reason e) h =
      call-IsSound s h i idle _ w (dropped s h i) (mark_dead-Keeps run.id reason)
        (λ j id a b. mark_dead-IsTaken w.replica id run.id reason)
  step-IsSound (elsewhere {s} w c outside) h = record {
    valid = kept-db w.replica IsValid _ ((perform-Keeps c).at (seen s w) refl h.valid);
    taken = λ i id e.
        kept-db w.replica (IsTaken id) _
          ((perform-IsTaken w.replica id c outside).at (seen s w) refl (h.taken i id e));
    alone = h.alone;
  }
  step-IsSound (reclaims {s} w early) h = record {
    valid = kept-db w.replica IsValid _ (reclaim_expired_leases-Keeps.at (seen s w) refl h.valid);
    taken = λ i id e. reclaim_expired_leases-IsTaken id (seen s w) (early i id e) (h.taken i id e);
    alone = h.alone;
  }

  steps-IsSound : {s t : System} → Steps p s t → IsSound s → IsSound t
  steps-IsSound stop h = h
  steps-IsSound (step a b) h = steps-IsSound b (step-IsSound a h)

start-IsSound : (d : Database) → IsValid d → IsSound (start d)
start-IsSound d v = record { valid = v; taken = λ i id e. cc; alone = λ i j id e f. cc }

-- From valid tables and loops that have nothing in hand, however the calls of any number of lease
-- loops interleave with each other, with what the other processes call and with
-- ReclaimExpiredLeases, and whatever the network makes of each call: no two loops have the same run
-- in hand, if no lease of a run in hand has expired whenever ReclaimExpiredLeases is called.
pub one_executor :
    (p : ℕ → Pool) (d : Database)
    → IsValid d
    → (s : System) → Steps p (start d) s
    → (i j id : ℕ) → i ≢ j
    → held (s.loops i) ≡ some id
    → held (s.loops j) ≢ some id
one_executor p d v s steps i j id other e f =
    other ((steps-IsSound steps (start-IsSound d v)).alone i j id e f)
