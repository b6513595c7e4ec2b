-- ===== src/Worker/Handlers/Sleeping.antt =====
-- What a run of SleepHandler comes to, by how long it sleeps and when its context is done.
use taskflow.Common.{
  ℕ, ℤ, pos, negsuc, ltb, Bool, true, false, ltb→lt, arith, Bool-cases, Option, none, some, leb_ℤ,
  ◌≡◌, refl, sym, ap, ◌∙◌, ◌⊎◌, inl, inr, String, ◌<◌, ◌≤◌,
}
use taskflow.Model.{Job, JobRun, Fields, number, empty, field}
use taskflow.Worker.Pool.{Outcome, returns, fails, Answer, in_nanoseconds, context_error, settled}
use taskflow.Worker.Handlers.{Clock, at_once, context_done, selected, seconds_of, sleep_handler}

abbrev pub IsFailure : Outcome → Type 0
IsFailure (returns r) = ⊥
IsFailure (fails m) = Unit

-- The time at which the run's context is done: the deadline, or an earlier cancellation.
abbrev pub ends_after : Clock → Job → ℤ → ℕ
ends_after clock job start =
    (context_done (at_once (in_nanoseconds job.timeout_seconds)) (clock.cancelled_after start)).0

abbrev pub sleeps_for : Clock → Job → ℕ
sleeps_for clock job = at_once (clock.lasts (seconds_of clock job))

not_less : (a b : ℕ) → ltb a b ≡ false → b ≤ a
not_less a b h = ground arith

deadline_passed : (t : ℤ) (n : ℕ) → at_once t ≤ n → leb_ℤ t (pos n) ≡ true
deadline_passed (pos t) n h = ground arith
deadline_passed (negsuc t) n h = ground arith

deadline_ahead : (t : ℤ) (n : ℕ) → n < at_once t → leb_ℤ t (pos n) ≡ false
deadline_ahead (pos t) n h = ground arith
deadline_ahead (negsuc t) n h = ground arith

context_done-le : (t : ℕ) (c : Option ℕ) → (context_done t c).0 ≤ t
context_done-le t none = omega arith
context_done-le t (some c) = ground arith

context_done_cases :
    (t : ℕ) (c : Option ℕ) → ((context_done t c).1 ≡ true) ⊎ ((context_done t c).0 ≡ t)
context_done_cases t none = inr refl
context_done_cases t (some c) = elim (Bool-cases (ltb c t)) [
  | inl h ↦ rw h (inl refl)
  | inr h ↦ rw h (inr refl)
]

outcome_cases :
    (o : Outcome) → ((r : Option Fields) × (o ≡ returns r)) ⊎ ((m : String) × (o ≡ fails m))
outcome_cases (returns r) = inl (r, refl)
outcome_cases (fails m) = inr (m, refl)

context_late :
    (job : Job) (a : Answer)
    → (a.cancelled ≡ true) ⊎ (at_once (in_nanoseconds job.timeout_seconds) ≤ a.elapsed)
    → (m : String) × (context_error job a ≡ some m)
context_late job a h = elim (Bool-cases a.cancelled) [
  | inl c ↦ rw c (_, refl)
  | inr c ↦ elim h [
    | inl c' ↦ absurd (cc)
    | inr l ↦ rw (c, deadline_passed (in_nanoseconds job.timeout_seconds) a.elapsed l) (_, refl)
  ]
]

settled_late :
    (job : Job) (a : Answer)
    → (a.cancelled ≡ true) ⊎ (at_once (in_nanoseconds job.timeout_seconds) ≤ a.elapsed)
    → IsFailure (settled job a)
unfolding settled
settled_late job a h = elim (outcome_cases a.outcome) [
  | inl (r, e) ↦ let (m, f) = context_late job a h in rw (e, f) tt
  | inr (m, e) ↦ rw e tt
]

settled_early :
    (job : Job) (a : Answer)
    → a.cancelled ≡ false
    → a.elapsed < at_once (in_nanoseconds job.timeout_seconds)
    → settled job a ≡ a.outcome
unfolding settled
settled_early job a c h = elim (outcome_cases a.outcome) [
  | inl (r, e) ↦ rw (e, c, deadline_ahead (in_nanoseconds job.timeout_seconds) a.elapsed h) refl
  | inr (m, e) ↦ rw e refl
]

abbrev slept : String → ℕ → Answer
slept s d = record {
  outcome = returns (some (field "slept_seconds" (number s) empty));
  elapsed = d;
  cancelled = false;
}

selected_short :
    (picks : Bool) (d : ℕ) (ends : ℕ × Bool) (s : String)
    → d < ends.0
    → selected picks d ends s ≡ slept s d
selected_short picks d (e, c) s h = ground arith

abbrev IsLate : ℕ → Answer → Type 0
IsLate deadline a = (a.cancelled ≡ true) ⊎ (deadline ≤ a.elapsed)

selected-elapsed :
    (picks : Bool) (d e : ℕ) (c : Bool) (s : String)
    → e ≤ d
    → e ≤ (selected picks d (e, c) s).elapsed
selected-elapsed picks d e c s h = ground arith

selected-cancelled :
    (picks : Bool) (d e : ℕ) (s : String) → e ≤ d → (selected picks d (e, true) s).cancelled ≡ true
selected-cancelled picks d e s h = ground arith

selected-IsLate :
    (picks : Bool) (d t : ℕ) (ends : ℕ × Bool) (s : String)
    → (ends.1 ≡ true) ⊎ (ends.0 ≡ t)
    → ends.0 ≤ d
    → IsLate t (selected picks d ends s)
selected-IsLate picks d t (e, c) s (inl p) h = inl (rw p (selected-cancelled picks d e s h))
selected-IsLate picks d t (e, c) s (inr p) h = inr (rw (sym p) (selected-elapsed picks d e c s h))

-- By whether it sleeps for less than the time until its context is done.
abbrev pub Sleeps : Bool → Clock → Job → Answer → Type 0
Sleeps true clock job a =
    (settled job a ≡ returns (some (field "slept_seconds" (number (seconds_of clock job)) empty)))
    × (a.elapsed ≡ sleeps_for clock job)
Sleeps false clock job a = IsFailure (settled job a)

module _ (clock : Clock) (job : Job) (run : JobRun) (start : ℤ) where
  at_end :
      sleeps_for clock job < ends_after clock job start
      → Sleeps true clock job (sleep_handler clock job run start)
  unfolding sleep_handler
  at_end h =
      let t = at_once (in_nanoseconds job.timeout_seconds) in
      let c = clock.cancelled_after start in
      let d = sleeps_for clock job in
      let s = seconds_of clock job in
      let e = selected_short (clock.picks_timer start) d (context_done t c) s h in
      (
        ap (settled job) e
            ∙ settled_early job (slept s d) refl (omega (arith, h, context_done-le t c)),
        ap (λ a. a.elapsed) e,
      )

  cut_off :
      ends_after clock job start ≤ sleeps_for clock job
      → Sleeps false clock job (sleep_handler clock job run start)
  unfolding sleep_handler
  cut_off h =
      let t = at_once (in_nanoseconds job.timeout_seconds) in
      let c = clock.cancelled_after start in
      let d = sleeps_for clock job in
      let s = seconds_of clock job in
      let picks = clock.picks_timer start in
      settled_late job (selected picks d (context_done t c) s)
        (selected-IsLate picks d t (context_done t c) s (context_done_cases t c) h)

  -- A run of SleepHandler succeeds if it sleeps for less than the time until its context is done, by
  -- the job's timeout or an earlier cancellation of the worker, and it sleeps for as long as it was
  -- asked to. Otherwise it fails, also where the timer and the context are ready at once.
  pub sleep_handler-Sleeps :
      Sleeps
        (ltb (sleeps_for clock job) (ends_after clock job start))
        clock
        job
        (sleep_handler clock job run start)
  sleep_handler-Sleeps =
      elim (Bool-cases (ltb (sleeps_for clock job) (ends_after clock job start))) [
        | inl h ↦ rw h (at_end (ltb→lt (sleeps_for clock job) (ends_after clock job start) h))
        | inr h ↦ rw h (cut_off (not_less (sleeps_for clock job) (ends_after clock job start) h))
      ]
