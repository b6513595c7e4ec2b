-- ===== src/Scheduler/Run.antt =====
-- Promoter.Run of internal/scheduler/promoter.go: a pass on every tick on which this replica leads.
use taskflow.Common.{
  ℕ, ◌≡◌, ◌≢◌, refl, Bool, true, false, List, [], ◌∷◌, Option, none, some, is_some,
}
use taskflow.Store.Query.{Reply, World}
use taskflow.Scheduler.Schedule.{Cron}
use taskflow.Scheduler.Promoter.{promote_once}
use taskflow.Lock.{Sessions, Elector, Attempt, try_acquire, release}
use taskflow.Lock.Acquiring.{Holds, Leads, Offered, try_acquire-Acquired}

-- The replica's elector, beside the database and its sessions.
pub record Replica : Type 0 where
  pub world : World
  pub sessions : Sessions
  pub elector : Elector

-- `none` is an error of TryAcquire. An error of the pass is logged.
abbrev pub pass_if : Cron → Option Bool → World → World
pass_if c (some true) w = (promote_once c w).1
pass_if c _ w = w

-- `case <-ticker.C`
unfoldable pub tick : Cron → Attempt → Replica → Replica
unfolding try_acquire promote_once
tick c a st =
    let (leads, sessions, elector) = try_acquire a st.sessions st.elector in
    record { world = pass_if c leads st.world; sessions = sessions; elector = elector }

-- The ticks until the context is cancelled, and then Release, of which `r` is the reply.
unfoldable pub run : Cron → List Attempt → (r : Reply) → Replica → Replica
unfolding tick release
run c [] r st =
    let (sessions, elector) = release r st.sessions st.elector in
    record st { sessions = sessions; elector = elector }
run c (a ∷ attempts) r st = run c attempts r (tick c a st)

pass_if-leads :
    (c : Cron) (leads : Option Bool) (w : World) → pass_if c leads w ≢ w → leads ≡ some true
pass_if-leads c none w n = absurd (n refl)
pass_if-leads c (some true) w n = refl
pass_if-leads c (some false) w n = absurd (n refl)

-- A tick that does anything to the database or its clock is one of a replica whose session is open
-- and has the lock, if what the replica believed before was so and the pool gives open sessions.
pub tick-Holds :
    (c : Cron) (a : Attempt) (st : Replica)
    → Leads st.sessions st.elector
    → (st.elector.is_leader ≡ true → is_some st.elector.conn ≡ true)
    → Offered (λ s. Unit) st.sessions a.dial
    → Offered (λ s. Unit) st.sessions a.redial
    → (tick c a st).world ≢ st.world
    → let st' = tick c a st in
      (s : ℕ) × (st'.elector.conn ≡ some s) × (st'.sessions.live s ≡ true) × Holds st'.sessions s
unfolding tick
tick-Holds c a st leads conn f g n =
    let (answer, srv, e) = try_acquire a st.sessions st.elector in
    let yes = pass_if-leads c answer st.world n in
    let done =
      try_acquire-Acquired (λ s. Unit) st.sessions a g st.elector f (λ s k. tt) conn leads in
    let (s, k, up) = done.session yes in (s, k, up, done.kept.leads s (done.says true yes) k up)
