-- ===== src/Cache/Overlap/Tests.antt =====
-- A flight that reads job 7 before it is paused, and sets it after the update has deleted the key.
use taskflow.Common.{
  rows_where, update_where, count_where, String, Bool, false, ℕ, ◌+◌, ◌*◌, ◌<◌, ◌≤◌, ltb, ltb→lt,
  ◌≡◌, ◌≢◌, refl, ◌⊎◌, inl, inr, ◌&&◌, ◌==◌, ==_iff, Bool-cases, if◌then◌else◌, Option, none, some,
  arith,
}
use taskflow.Model.{Job, active, paused}
use taskflow.Store.Query.{
  World, ok, select, source, read_pool, round_trip, exec, on_error, ◌>>=◌, return, raise,
}
use taskflow.Store.Jobs
use taskflow.Cache.{Key, job_key, run_key, Redis}
use taskflow.Cache.Samples.{sample, sample_world, plain, plain-Inverts}
use taskflow.Cache.Overlap.{
  Expires, Flight, with_flight, asked, Shared, misses, reads, lands, updates, deletes, passes,
  Steps, stop, step, by_hit,
}
use taskflow.Cache.Overlap.Ages.{Until}
use taskflow.Cache.Overlap.Recent.{start, answers-Until}
use taskflow.Cache.Overlap.Stored.{stored_job, postgres-ReadsJobs}
use taskflow.Store.Service.{postgres}

-- One entry, with the time at which it expires, and the clock.
record Server : Type 0 where
  entry : Option (ℕ × Job × ℕ)
  clock : ℕ

abbrev live : ℕ → ℕ → Option (ℕ × Job × ℕ) → Option Job
live id now none = none
live id now (some (i, j, e)) = if (i == id) && ltb now e then some j else none

abbrev get : Key → Server → Option Job
get (job_key id) r = live id r.clock r.entry
get (run_key id) r = none

abbrev put : Key → Job → ℕ → Server → Server
put (job_key id) j ttl r = record r { entry = some (id, j, r.clock + ttl * 1000) }
put (run_key id) j ttl r = r

abbrev small : Redis Server Job
small = record { get = λ k r. (get k r, r); set = put; del = λ k r. record r { entry = none } }

abbrev later : ℕ → Server → Server
later d r = record r { clock = r.clock + d }

abbrev Held : Server → Key → Job → ℕ → Type 0
Held r (job_key id) j e = r.entry ≡ some (id, j, e)
Held r (run_key id) j e = ⊥

got_live :
    (id now : ℕ) (o : Option (ℕ × Job × ℕ)) (raw : Job)
    → live id now o ≡ some raw
    → (e : ℕ) × (o ≡ some (id, raw, e)) × (now < e)
got_live id now none raw h = cc
got_live id now (some (i, j, e)) raw h = elim (Bool-cases ((i == id) && ltb now e)) [
  | inl held ↦
      let same : j ≡ raw = cc (rw held at h) in
      let key = (==_iff i id).0 (ground arith) in
      (e, rw (same, key) refl, ltb→lt now e (ground arith))
  | inr gone ↦ absurd (cc (rw gone at h))
]

got :
    (k : Key) (r : Server) (raw : Job)
    → get k r ≡ some raw
    → (e : ℕ) × Held r k raw e × (r.clock < e)
got (job_key id) r raw h = got_live id r.clock r.entry raw h
got (run_key id) r raw h = cc

put_keeps :
    (k j : Key) (v raw : Job) (ttl : ℕ) (r : Server) (e : ℕ)
    → Held (put k v ttl r) j raw e
    → ((j ≡ k) × (raw ≡ v) × (e ≤ r.clock + ttl * 1000)) ⊎ Held r j raw e
put_keeps (run_key id) j v raw ttl r e h = inr h
put_keeps (job_key id) (run_key i) v raw ttl r e h = absurd h
put_keeps (job_key id) (job_key i) v raw ttl r e h =
    let at : r.clock + ttl * 1000 ≡ e = cc in inl (cc, cc, omega (arith, at))

none-Held :
    (j : Key) (raw : Job) (e now : ℕ) → ¬ Held (record { entry = none; clock = now }) j raw e
none-Held (job_key id) raw e now h = cc
none-Held (run_key id) raw e now h = h

set_clock : (k : Key) (v : Job) (ttl : ℕ) (r : Server) → (put k v ttl r).clock ≡ r.clock
set_clock (job_key id) v ttl r = refl
set_clock (run_key id) v ttl r = refl

pass_keeps :
    (d : ℕ) (j : Key) (r : Server) (raw : Job) (e : ℕ) → Held (later d r) j raw e → Held r j raw e
pass_keeps d (job_key id) r raw e h = h
pass_keeps d (run_key id) r raw e h = h

small-Expires : Expires small (λ r. r.clock) later Held
small-Expires = record {
  got = got;
  get_keeps = λ k j r raw e h. h;
  set_keeps = put_keeps;
  del_keeps = λ k j r raw e h. absurd (none-Held j raw e r.clock h);
  pass_keeps = pass_keeps;
  get_clock = λ k r. refl;
  set_clock = set_clock;
  del_clock = λ k r. refl;
  pass_clock = λ d r. refl;
}

abbrev unordered : String → String → Bool
unordered a b = false

abbrev calm : Server
calm = record { entry = none; clock = 0 }

abbrev Reach : Shared World Server → Shared World Server → Type 0
Reach c d = Steps small plain (postgres unordered) (λ r. r.clock) later 500 c d

no_flight :
    (f g : Flight) (i id : ℕ) (x : Flight)
    → with_flight 0 7 none (with_flight 0 7 (some g) (with_flight 0 7 (some f) (λ i id. none))) i id
      ≢ some x
no_flight f g i id x e = elim (Bool-cases ((0 == i) && (7 == id))) [
  | inl here ↦ cc (rw here at e)
  | inr there ↦ cc (rw there at e)
]

-- The read takes 200 milliseconds to land; a second after that the key is still there.
abbrev stale : (c : Shared World Server) × Reach (start (sample_world active) calm) c
unfolding Jobs.get_job Jobs.fetch_job Jobs.scan_job_row Jobs.fetch_dependencies
    Jobs.update_job_status Jobs.set_job_status select source read_pool round_trip exec on_error
    ◌>>=◌ return raise rows_where update_where count_where
stale = (
  _,
  step (misses 0 7 refl) (
      step (reads 0 7 refl) (
        step (updates 3 7 paused refl) (
          step (deletes 3 7 refl) (
            step (passes 200 (λ i id a t e. omega arith)) (
              step (lands 0 7 (ok (sample active)) 0 refl)
                (step (passes 1000 (λ i id a t e. absurd (no_flight asked _ i id _ e))) stop)))))),
)

answers-Until_example :
    Until stored_job stale.0.world stale.0.past 7 (sample active) stale.0.server.clock 30500
unfolding Jobs.get_job Jobs.fetch_job Jobs.scan_job_row Jobs.fetch_dependencies
    Jobs.update_job_status Jobs.set_job_status select source read_pool round_trip exec on_error
    ◌>>=◌ return raise rows_where update_where count_where
answers-Until_example =
    answers-Until small plain (postgres unordered) (λ r. r.clock) later 500 Held small-Expires
      plain-Inverts stored_job (postgres-ReadsJobs unordered) (sample_world active) calm
      (λ k raw e. none-Held k raw e 0) stale.0 stale.1 7 (sample active) (by_hit refl)
