-- ===== src/Worker/Exclusion/Rounds.antt =====
-- The rounds of leaseLoop as steps of one loop.
use Prim.Native.String.{◌++◌ as concat}
use taskflow.Common.{
  ℕ, zero, suc, pos, ltb_ℤ, ◌≡◌, refl, sym, subst, ◌∙◌, ◌==◌, ==_iff, Bool, true, false, Bool-cases,
  inl, inr, [], ◌∷◌, Option, none, some,
}
use taskflow.Model.{Job, JobRun, RunStatus, Fields}
use taskflow.Store.Json.{fits_jsonb}
use taskflow.Store.Query.{
  Result, ok, err, refused, World, return, raise, ◌>>=◌, attempt, and_then, time_now, transaction,
  exec, on_error, round_trip,
}
use taskflow.Store.Runs.{lease_next_run, mark_running, complete_run, fail_run, mark_dead}
use taskflow.Worker.Pool.{
  Outcome, returns, fails, Handler, Pool, handler_of, settled, bury, finish, execute_with,
  execute_one, wait,
}
use taskflow.Worker.Loops.{after_lease, lease_round, lease_loop}
use taskflow.Worker.Exclusion.{
  Phase, idle, fetched, started, given_up, System, with_loop, leased_by, Step, leases, starts,
  finds_no_handler, completes, requeues, gives_up, buries, elsewhere, reclaims, Steps, stop, step,
}

abbrev pub standing : World → (ℕ → Phase) → System
standing w loops = record { db = w.db; loops = loops }

-- A network on which nothing is sent.
abbrev unheard : World → World
unheard w = record w {
  script = record { reply = refused; elapsed = 0; fresh_id = 0; locked = [] } ∷ [];
}

complete_unheard :
    (id : ℕ) (result : Option Fields) (w : World) → (complete_run id result (unheard w)).1.db ≡ w.db
unfolding complete_run exec round_trip ◌>>=◌
complete_unheard id result w = elim (Bool-cases (fits_jsonb result)) [
  | inl e ↦ rw e refl
  | inr e ↦ rw e refl
]

world_after :
    {A B : Type 0} (r : Result A × World) (f : A → B) → (and_then r (λ a. return (f a))).1 ≡ r.1
unfolding return
world_after (ok a, w) f = refl
world_after (err e, w) f = refl

-- The loop whose call a step is; the calls of other processes and the janitors are of none.
abbrev pub loop_of : {p : ℕ → Pool} {s t : System} → Step p s t → Option ℕ
loop_of (leases i w e) = some i
loop_of (starts i w run job e) = some i
loop_of (finds_no_handler i w run job message e) = some i
loop_of (completes i w run job result e) = some i
loop_of (requeues i w run job message e less) = some i
loop_of (gives_up i w run job message e more) = some i
loop_of (buries i w run reason e) = some i
loop_of (elsewhere w c e) = none
loop_of (reclaims w e) = none

-- All of the steps are calls of loop `i`.
unfoldable pub AreOf : {p : ℕ → Pool} {s t : System} → ℕ → Steps p s t → Type 0
AreOf i stop = Unit {0}
AreOf i (step a b) = (loop_of a ≡ some i) × AreOf i b

append : {p : ℕ → Pool} {s t u : System} → Steps p s t → Steps p t u → Steps p s u
append stop b = b
append (step x a) b = step x (append a b)

append-AreOf :
    {p : ℕ → Pool} {s t u : System} (i : ℕ) (a : Steps p s t) (b : Steps p t u)
    → AreOf i a
    → AreOf i b
    → AreOf i (append a b)
unfolding append AreOf
append-AreOf i stop b h k = k
append-AreOf i (step x a) b h k = (h.0, append-AreOf i a b h.1 k)

-- No loop but `i` has moved.
abbrev pub OthersStand : ℕ → (ℕ → Phase) → (ℕ → Phase) → Type 0
OthersStand i before after = (j : ℕ) → (i == j) ≡ false → after j ≡ before j

module _ (p : ℕ → Pool) (i : ℕ) where
  -- From `w` the steps of a loop lead to `w'`, where it is idle again.
  pub record Ends (w : World) (loops : ℕ → Phase) (w' : World) : Type 0 where
    pub left : ℕ → Phase
    pub idles : left i ≡ idle
    pub steps : Steps p (standing w loops) (standing w' left)
    pub own : AreOf i steps
    pub others : OthersStand i loops left

  set_here : (ph : Phase) (loops : ℕ → Phase) → with_loop i ph loops i ≡ ph
  set_here ph loops = rw ((==_iff i i).1 refl) refl

  others_here : (ph : Phase) (loops : ℕ → Phase) → OthersStand i loops (with_loop i ph loops)
  others_here ph loops j e = rw e refl

  first_step :
      {w w'' : World} {loops : ℕ → Phase} (ph : Phase) (w' : World)
      (a : Step p (standing w loops) (standing w' (with_loop i ph loops)))
      → loop_of a ≡ some i
      → Ends w' (with_loop i ph loops) w''
      → Ends w loops w''
  unfolding AreOf
  first_step {loops} ph w' a o e = record {
    left = e.left;
    idles = e.idles;
    steps = step a e.steps;
    own = (o, e.own);
    others = λ j n. e.others j n ∙ others_here ph loops j n;
  }

  last_step :
      {w w' : World} {loops : ℕ → Phase}
      (a : Step p (standing w loops) (standing w' (with_loop i idle loops)))
      → loop_of a ≡ some i
      → Ends w loops w'
  unfolding AreOf
  last_step {loops} a o = record {
    left = with_loop i idle loops;
    idles = set_here idle loops;
    steps = step a stop;
    own = (o, tt);
    others = others_here idle loops;
  }

  module _ (run : JobRun) (job : Job) where
    -- A call that is not sent has the effect of one that is refused.
    finish-Steps :
        (cancelled : Bool) (o : Outcome) (w : World) (loops : ℕ → Phase)
        → loops i ≡ started run job
        → Ends w loops (finish job run cancelled o w).1
    unfolding finish bury ◌>>=◌ attempt return raise complete_run fail_run mark_dead transaction
        exec on_error round_trip
    finish-Steps true (returns result) w loops e =
        subst (λ d. Ends w loops (record w { db = d })) (complete_unheard run.id result w)
          (last_step (completes i (unheard w) run job result e) refl)
    finish-Steps true (fails message) w loops e =
        elim (Bool-cases (ltb_ℤ (pos run.attempt) job.max_attempts)) [
          | inl less ↦ rw less (last_step (requeues i (unheard w) run job message e less) refl)
          | inr more ↦ rw more (
              first_step (given_up run) w (gives_up i (unheard w) run job message e more) refl (
                last_step
                  (buries i (unheard w) run "max attempts exceeded" (set_here (given_up run) loops))
                  refl))
        ]
    finish-Steps false (returns result) w loops e = last_step (completes i w run job result e) refl
    finish-Steps false (fails message) w loops e =
        elim (Bool-cases (ltb_ℤ (pos run.attempt) job.max_attempts)) [
          | inl less ↦ rw less (last_step (requeues i w run job message e less) refl)
          | inr more ↦
              let next = (fail_run run.id message false (pos 0) w).1 in
              rw more (
                first_step (given_up run) next (gives_up i w run job message e more) refl (
                  last_step
                    (buries i next run "max attempts exceeded" (set_here (given_up run) loops))
                    refl))
        ]

    execute_with-Steps :
        (h : Option Handler) (w : World) (loops : ℕ → Phase)
        → loops i ≡ fetched run job
        → Ends w loops (execute_with h run job w).1
    unfolding execute_with bury ◌>>=◌ attempt return wait time_now
    execute_with-Steps none w loops e =
        let message = concat "no handler registered for job: " job.name in
        let next = (fail_run run.id message false (pos 0) w).1 in
        first_step (given_up run) next (finds_no_handler i w run job message e) refl
          (last_step (buries i next run "no handler" (set_here (given_up run) loops)) refl)
    execute_with-Steps (some h) w loops e =
        let next = (mark_running run.id w).1 in
        let answer = h job run next.now in
        first_step (started run job) (wait answer.elapsed next).1 (starts i w run job e) refl (
          finish-Steps answer.cancelled (settled job answer) _ _ (set_here (started run job) loops))

  -- What follows LeaseNextRun.
  leased-Steps :
      (out : Result (Option (JobRun × Job)) × World) (w : World) (loops : ℕ → Phase)
      (a : Step p (standing w loops) (leased_by (standing w loops) i out))
      → loop_of a ≡ some i
      → Ends w loops (after_lease (p i) out.0 out.1).1
  unfolding after_lease wait execute_one ◌>>=◌ return
  leased-Steps (ok none, w') w loops a o = last_step a o
  leased-Steps (err e, w') w loops a o = last_step a o
  leased-Steps (ok (some (run, job)), w') w loops a o =
      let h = handler_of job.name (p i).handlers in
      first_step (fetched run job) w' a o (
        subst (Ends w' (with_loop i (fetched run job) loops))
          (sym (world_after (execute_with h run job w') some))
          (execute_with-Steps run job h w' _ (set_here (fetched run job) loops)))

  lease_round-Steps :
      (w : World) (loops : ℕ → Phase) → loops i ≡ idle → Ends w loops (lease_round (p i) w).1
  unfolding lease_round ◌>>=◌ attempt
  lease_round-Steps w loops e =
      leased-Steps (lease_next_run (p i).worker_id (p i).lease_duration w) w loops (leases i w e)
        refl

  round-Steps :
      (rounds : ℕ) (out : Result (Option RunStatus) × World) (w : World) (loops : ℕ → Phase)
      → Ends w loops out.1
      → ((w' : World) (next : ℕ → Phase)
          → next i ≡ idle
          → Ends w' next (lease_loop rounds (p i) w').1)
      → Ends w loops (and_then out (λ _. lease_loop rounds (p i))).1
  round-Steps rounds (err e, w') w loops a go = a
  round-Steps rounds (ok status, w') w loops a go =
      let b = go w' a.left a.idles in
      record {
        left = b.left;
        idles = b.idles;
        steps = append a.steps b.steps;
        own = append-AreOf i a.steps b.steps a.own b.own;
        others = λ j n. b.others j n ∙ a.others j n;
      }

  -- So many rounds of leaseLoop, alone, are steps of the system, each of which is a call of their own
  -- loop. They lead from where this loop is idle to where it is idle again, leave every other loop
  -- where it stands, and lead to the tables that leaseLoop leaves, whatever the network makes of each
  -- call and whatever the handlers answer.
  pub lease_loop-Steps :
      (rounds : ℕ) (w : World) (loops : ℕ → Phase)
      → loops i ≡ idle
      → Ends w loops (lease_loop rounds (p i) w).1
  unfolding lease_loop ◌>>=◌ return AreOf
  lease_loop-Steps zero w loops e = record {
    left = loops;
    idles = e;
    steps = stop;
    own = tt;
    others = λ j n. refl;
  }
  lease_loop-Steps (suc rounds) w loops e =
      round-Steps rounds (lease_round (p i) w) w loops (lease_round-Steps w loops e)
        (lease_loop-Steps rounds)
