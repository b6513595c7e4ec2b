-- ===== src/Lock/Tests.antt =====
-- Two electors, of which the first gets the lock on the first session.
use taskflow.Common.{ℕ, ◌≡◌, ◌≢◌, refl, subst, true, none, some, arith}
use taskflow.Store.Query.{delivered}
use taskflow.Lock.{Attempt, try_acquire}
use taskflow.Lock.Cluster.{
  Cluster, Free, Steps, stop, step, opens, acquires, start, opened, moved, after,
}
use taskflow.Lock.Exclusion.{LeadsNow, one_leader}

abbrev one_session : Cluster
one_session = record start { sessions = opened start.sessions }

abbrev first_attempt : Attempt
first_attempt = record { dial = some 0; reachable = true; redial = none; reply = delivered }

abbrev led : Cluster
led =
    moved one_session 0
      (after (try_acquire first_attempt one_session.sessions (one_session.electors 0)))

dial-Free : Free one_session 0 first_attempt.dial
dial-Free s e =
    let same : 0 ≡ s = cc e in
    subst
      (λ x.
        (one_session.sessions.live x ≡ true)
        × ((j : ℕ) → 0 ≢ j → (one_session.electors j).conn ≢ some x))
      same (refl, λ j d k. cc)

redial-Free : Free one_session 0 first_attempt.redial
redial-Free s e = cc

steps : Steps start led
steps = step opens (step (acquires 0 first_attempt dial-Free redial-Free) stop)

one_leader_example : ¬ (LeadsNow led 0 × LeadsNow led 1)
one_leader_example = one_leader led 0 1 steps (omega arith)
