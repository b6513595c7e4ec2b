-- ===== src/Commands/Shutdown.antt =====
-- The end of a scheduler, by what its last attempt to lead has answered.
use taskflow.Common.{
  ℕ, ◌≡◌, refl, sym, ap, subst, ◌∙◌, Bool, true, false, Bool-cases, inl, inr, ◌&&◌, List, [], ◌∷◌,
  ◌++◌, Option, none, some, is_some,
}
use taskflow.Store.Query.{Reply, delivered, refused, lost}
use taskflow.Store.Connecting.Closing.{Owns, AreNumbered, close-Owns}
use taskflow.Config.{Config, load}
use taskflow.Lock.{
  Sessions, Elector, Attempt, Answer, new_elector, queried, ask, reached, try_lock, redialled,
  pinged, dialled, try_acquire, release, release_conn,
}
use taskflow.Lock
use taskflow.Scheduler.Schedule.{Cron}
use taskflow.Scheduler.Run as Promoter
use taskflow.Commands.Process.{
  Host, Process, Reason, Step, goes, exits, Exit, exited, panicked, hangs, returned, finished,
  stopped, loaded, or_fatal, load_config, and_then,
}
use taskflow.Commands.Mains.{
  Scheduling, Life, scheduler_start, scheduler_main, promoted, replica_of, closed_with, cannot_tick,
}
use taskflow.Commands.Process as Command
use taskflow.Commands.Startup.{Led, Led-then, Led-weaken, Primary, connected-Led}

-- An answer of TryAcquire is what the elector believes, and it has a connection then.
abbrev Says : Answer → Type 0
Says (none, srv, e) = Unit
Says (some leads, srv, e) = (e.is_leader ≡ leads) × (is_some e.conn ≡ true)

queried-Says :
    (r : Reply) (x : Bool × Sessions) (before : Sessions) (e : Elector)
    → is_some e.conn ≡ true
    → Says (queried r x before e)
queried-Says delivered (acquired, srv) before e k = (refl, k)
queried-Says lost (acquired, srv) before e k = tt
queried-Says refused x before e k = tt

ask-Says :
    (a : Attempt) (s : ℕ) (srv : Sessions) (e : Elector)
    → is_some e.conn ≡ true
    → Says (ask a s srv e)
ask-Says a s srv e k = elim (Bool-cases e.is_leader) [
  | inl l ↦ rw l (refl, k)
  | inr l ↦ rw l (
      queried-Says (reached a.reply (srv.live s)) (try_lock s srv) srv
        (record { conn = e.conn; is_leader = false }) k)
]

redialled-Says : (a : Attempt) (o : Option ℕ) (srv : Sessions) → Says (redialled a o srv)
redialled-Says a none srv = tt
redialled-Says a (some s) srv = ask-Says a s srv (record { conn = some s; is_leader = false }) refl

pinged-Says :
    (a : Attempt) (s : ℕ) (srv : Sessions) (e : Elector)
    → is_some e.conn ≡ true
    → Says (pinged a s srv e)
unfolding pinged
pinged-Says a s srv e k = elim (Bool-cases (a.reachable && srv.live s)) [
  | inl h ↦ rw h (ask-Says a s srv e k)
  | inr h ↦ rw h (redialled-Says a a.redial srv)
]

dialled-Says :
    (a : Attempt) (o : Option ℕ) (srv : Sessions) (e : Elector) → Says (dialled a o srv e)
dialled-Says a none srv e = tt
dialled-Says a (some s) srv e = pinged-Says a s srv (record e { conn = some s }) refl

connected-Says :
    (a : Attempt) (o : Option ℕ) (srv : Sessions) (e : Elector)
    → e.conn ≡ o
    → Says (Lock.connected a o srv e)
connected-Says a none srv e k = dialled-Says a a.dial srv e
connected-Says a (some s) srv e k = pinged-Says a s srv e (ap is_some k)

try_acquire-Says : (a : Attempt) (srv : Sessions) (e : Elector) → Says (try_acquire a srv e)
unfolding try_acquire
try_acquire-Says a srv e = connected-Says a e.conn srv e refl

-- The ticks alone.
abbrev pub after_ticks : Cron → List Attempt → Promoter.Replica → Promoter.Replica
after_ticks c [] st = st
after_ticks c (a ∷ attempts) st = after_ticks c attempts (Promoter.tick c a st)

run-last :
    (c : Cron) (ts : List Attempt) (a : Attempt) (r : Reply) (st : Promoter.Replica)
    → let last = after_ticks c ts st in
      let (answer, srv, e) = try_acquire a last.sessions last.elector in
      (Promoter.run c (ts ++ a ∷ []) r st).elector ≡ (release r srv e).1
unfolding Promoter.run
run-last c [] a r st = refl
run-last c (t ∷ ts) a r st = run-last c ts a r (Promoter.tick c t st)

-- What Release leaves checked out.
abbrev Kept : Bool → Elector → Type 0
Kept true e = e.conn ≡ none
Kept false e = is_some e.conn ≡ true

release_conn-Kept :
    (r : Reply) (o : Option ℕ) (srv : Sessions) (e : Elector)
    → e.conn ≡ o
    → is_some o ≡ true
    → Kept e.is_leader (release_conn r o srv e).1
release_conn-Kept r none srv e k h = cc
release_conn-Kept r (some s) srv e k h = elim (Bool-cases e.is_leader) [
  | inl l ↦ rw l refl
  | inr l ↦ rw l (ap is_some k)
]

release-Kept :
    (r : Reply) (leads : Bool) (x : Answer)
    → x.0 ≡ some leads
    → Says x
    → Kept leads (release r x.1 x.2).1
unfolding release
release-Kept r leads (none, srv, e) k h = cc
release-Kept r leads (some b, srv, e) k h =
    subst (λ l. Kept l (release_conn r e.conn srv e).1) (h.0 ∙ (cc))
      (release_conn-Kept r e.conn srv e refl h.1)

module _ {F D : Type 0} (host : Host F D) (p : Process D) (n : AreNumbered p.pools) where
  abbrev Started : Scheduling → Process D → Type 0
  Started s q = Owns p.pools s.store q.pools × (s.elector ≡ new_elector)

  scheduled-Led :
      (cfg : Config F)
      → Led Started
          (λ r q. Unit)
          (and_then (Command.connected host cfg p) (λ st q.
            goes (record { interval = cfg.poll_interval; store = st; elector = new_elector }) q))
  scheduled-Led cfg =
      Led-then (Primary host cfg p n) Started (λ r q. Unit) (Command.connected host cfg p) _
        (Led-weaken (Primary host cfg p n) _ (λ r q. Unit) (λ r q h. tt)
          (Command.connected host cfg p) (connected-Led host cfg p n))
        (λ st q w. (w.1.pools, refl))

  start-Led :
      (x : Option (Config F))
      → Led Started
          (λ r q. Unit)
          (and_then (or_fatal load_config x p) (λ cfg q.
            and_then (Command.connected host cfg q) (λ st q'.
              goes
                (record { interval = cfg.poll_interval; store = st; elector = new_elector })
                q')))
  start-Led none = tt
  start-Led (some cfg) = scheduled-Led cfg

  scheduler_start-Led : Led Started (λ r q. Unit) (scheduler_start host p)
  unfolding scheduler_start loaded
  scheduler_start-Led = start-Led (load host.env)

-- How a scheduler stops that led at its last tick, or did not.
abbrev pub Stops : {D : Type 0} → Process D → Bool → Exit D Scheduling → Type 0
Stops p true (returned s q) = (s.elector.conn ≡ none) × (q.pools.live ≡ p.pools.live)
Stops p false (hangs s q) = is_some s.elector.conn ≡ true
Stops p _ _ = ⊥

module _ {F D : Type 0} (host : Host F D) (life : Life D) (p : Process D)
    (n : AreNumbered p.pools) where
  closed-Stops :
      (leads : Bool) (o : Option ℕ) (s : Scheduling) (q : Process D)
      → s.elector.conn ≡ o
      → Kept leads s.elector
      → Owns p.pools s.store q.pools
      → Stops p leads (closed_with o s s.store q)
  unfolding stopped
  closed-Stops true none s q e k w = (e, close-Owns p.pools s.store q.pools n w)
  closed-Stops true (some c) s q e k w = cc
  closed-Stops false none s q e k w = cc
  closed-Stops false (some c) s q e k w = k

  module _ (ts : List Attempt) (a : Attempt) (leads : Bool) (s : Scheduling) (q : Process D) where
    -- The replica before its last tick.
    abbrev pub last_tick : Promoter.Replica
    last_tick = after_ticks life.cron ts (replica_of life s.elector q)

    abbrev pub answer : Answer
    answer = try_acquire a last_tick.sessions last_tick.elector

    final-Kept :
        life.ticks ≡ ts ++ a ∷ []
        → answer.0 ≡ some leads
        → Kept leads
            (Promoter.run life.cron life.ticks life.release (replica_of life s.elector q)).elector
    final-Kept e k =
        subst (Kept leads)
          (sym (
            ap (λ l. (Promoter.run life.cron l life.release (replica_of life s.elector q)).elector)
              e
            ∙ run-last life.cron ts a life.release (replica_of life s.elector q)))
          (release-Kept life.release leads answer k
            (try_acquire-Says a last_tick.sessions last_tick.elector))

    -- A scheduler that has started and is stopped by a signal after some ticks, the last of which got
    -- an answer from TryAcquire: if it leads then, it returns, and every pool that it opened is
    -- closed; if it does not lead, it never ends, since Close waits for the connection that its
    -- elector keeps.
    pub scheduler_main-Stops :
        scheduler_start host p ≡ goes s q
        → cannot_tick s.interval ≡ false
        → life.ticks ≡ ts ++ a ∷ []
        → answer.0 ≡ some leads
        → Stops p leads (scheduler_main host life p)
    unfolding scheduler_main
    scheduler_main-Stops start positive ticks answered =
        let final =
          (Promoter.run life.cron life.ticks life.release (replica_of life s.elector q)).elector in
        subst (λ x. Stops p leads (finished x (promoted life))) (sym start)
          (rw positive (
            closed-Stops leads final.conn (record s { elector = final }) q refl
              (final-Kept ticks answered)
              (subst (λ x. Led (Started host p n) (λ r y. Unit) x) start
                (scheduler_start-Led host p n)).0))
