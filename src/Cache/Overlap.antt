-- ===== src/Cache/Overlap.antt =====
-- GetJob and UpdateJobStatus of internal/cache/cache.go in any interleaving, on any number of API
-- servers that share a Redis: one step a request to Redis or to the store.
--
-- Time is in milliseconds. `flights` is the singleflight group of each server: a caller that misses
-- while a flight is under way gets what the flight gets.
pub mod Ages
pub mod Recent
pub mod Stored
mod Tests
use taskflow.Common.{
  ℕ, ◌+◌, ◌*◌, ◌≤◌, ◌<◌, ◌≡◌, ◌⊎◌, Bool, true, false, ◌&&◌, ◌==◌, if◌then◌else◌, List, [], ◌∷◌,
  Option, none, some, In,
}
use taskflow.Model.{Job, JobStatus}
use taskflow.Store.Query.{Result, ok, err}
use taskflow.Store.Service.{Service}
use taskflow.Cache.{Key, job_key, Redis, Json, and_decode, filled_job, invalidated}

-- What Redis documents of keys that expire, on a server with a clock: `Held r k raw e` says that
-- the server may answer `raw` for `k` until `e`.
pub record Expires {R Raw : Type 0} (redis : Redis R Raw) (clock : R → ℕ) (pass : ℕ → R → R)
    (Held : R → Key → Raw → ℕ → Type 0) : Type 0 where
  pub got :
      (k : Key) (r : R) (raw : Raw)
      → (redis.get k r).0 ≡ some raw
      → (e : ℕ) × Held r k raw e × (clock r < e)
  pub get_keeps :
      (k j : Key) (r : R) (raw : Raw) (e : ℕ) → Held (redis.get k r).1 j raw e → Held r j raw e
  pub set_keeps :
      (k j : Key) (v raw : Raw) (ttl : ℕ) (r : R) (e : ℕ)
      → Held (redis.set k v ttl r) j raw e
      → ((j ≡ k) × (raw ≡ v) × (e ≤ clock r + ttl * 1000)) ⊎ Held r j raw e
  pub del_keeps :
      (k j : Key) (r : R) (raw : Raw) (e : ℕ) → Held (redis.del k r) j raw e → Held r j raw e
  pub pass_keeps :
      (d : ℕ) (j : Key) (r : R) (raw : Raw) (e : ℕ) → Held (pass d r) j raw e → Held r j raw e
  pub get_clock : (k : Key) (r : R) → clock (redis.get k r).1 ≡ clock r
  pub set_clock : (k : Key) (v : Raw) (ttl : ℕ) (r : R) → clock (redis.set k v ttl r) ≡ clock r
  pub del_clock : (k : Key) (r : R) → clock (redis.del k r) ≡ clock r
  pub pass_clock : (d : ℕ) (r : R) → clock (pass d r) ≡ clock r + d

-- A call of group.Do: before and after the store has answered, and when it did.
pub data Flight : Type 0 where
  asked : Flight
  answered : Result Job → ℕ → Flight

-- What was in the tables, and until when; the flights of each server, by the job's id; and the jobs
-- of the updates that have yet to delete their key.
pub record Shared (W R : Type 0) : Type 0 where
  pub world : W
  pub past : List (W × ℕ)
  pub server : R
  pub flights : ℕ → ℕ → Option Flight
  pub updates : ℕ → Option ℕ

abbrev pub with_flight : ℕ → ℕ → Option Flight → (ℕ → ℕ → Option Flight) → ℕ → ℕ → Option Flight
with_flight i id f flights j k = if (i == j) && (id == k) then f else flights j k

abbrev pub with_update : ℕ → Option ℕ → (ℕ → Option ℕ) → ℕ → Option ℕ
with_update n u updates m = if n == m then u else updates m

-- The first to miss makes the call.
abbrev pub joined : Option Flight → Flight
joined none = asked
joined (some f) = f

module _ {W R Raw : Type 0} (redis : Redis R Raw) (json : Json Raw) (s : Service W) (clock : R → ℕ)
    (pass : ℕ → R → R) (longest : ℕ) where
  -- The tables change at the time that Redis' clock shows.
  abbrev pub replaced : Shared W R → W → Shared W R
  replaced c w = record c { world = w; past = (c.world, clock c.server) ∷ c.past }

  -- Redis.Get of a call of GetJob, decoded.
  abbrev pub hit_of : ℕ → R → Option Job
  hit_of id r = and_decode json.unmarshal_job (redis.get (job_key id) r).0

  abbrev pub landed : Shared W R → ℕ → ℕ → Result Job × (W × R) → Shared W R
  landed c i id (answer, (w, r)) = record c {
    world = w;
    server = r;
    flights = with_flight i id none c.flights;
  }

  abbrev pub to_delete : ℕ → Result (Unit {0}) → Option ℕ
  to_delete id (ok u) = some id
  to_delete id (err e) = none

  -- The time between the store's answer and the end of the flight is at most `longest`.
  abbrev pub InTime : Shared W R → ℕ → Type 0
  InTime c now =
      (i id : ℕ) (a : Result Job) (t : ℕ) → c.flights i id ≡ some (answered a t) → now ≤ t + longest

  pub data Step : Shared W R → Shared W R → Type 0 where
    hits :
        {c : Shared W R} (id : ℕ) (job : Job)
        → hit_of id c.server ≡ some job
        → Step c (record c { server = (redis.get (job_key id) c.server).1 })
    misses :
        {c : Shared W R} (i id : ℕ)
        → hit_of id c.server ≡ none
        → Step c (record c {
          server = (redis.get (job_key id) c.server).1;
          flights = with_flight i id (some (joined (c.flights i id))) c.flights;
        })
    reads :
        {c : Shared W R} (i id : ℕ)
        → c.flights i id ≡ some asked
        → Step c (record c {
          world = (s.get_job id c.world).1;
          flights =
              with_flight i id
                (some (answered (s.get_job id c.world).0 (clock c.server)))
                c.flights;
        })
    lands :
        {c : Shared W R} (i id : ℕ) (a : Result Job) (t : ℕ)
        → c.flights i id ≡ some (answered a t)
        → Step c (landed c i id (filled_job redis json s id (a, c.world) c.server))
    updates :
        {c : Shared W R} (n id : ℕ) (status : JobStatus)
        → c.updates n ≡ none
        → Step c (record (replaced c (s.update_job_status id status c.world).1) {
          updates =
              with_update n (to_delete id (s.update_job_status id status c.world).0) c.updates;
        })
    deletes :
        {c : Shared W R} (n id : ℕ)
        → c.updates n ≡ some id
        → Step c (record c {
          server = redis.del (job_key id) c.server;
          updates = with_update n none c.updates;
        })
    elsewhere : {c : Shared W R} (w : W) → Step c (replaced c w)
    passes :
        {c : Shared W R} (d : ℕ)
        → InTime c (clock c.server + d)
        → Step c (record c { server = pass d c.server })

  pub data Steps : Shared W R → Shared W R → Type 0 where
    stop : {c : Shared W R} → Steps c c
    step : {c d e : Shared W R} → Step c d → Steps d e → Steps c e

  -- What a call of GetJob may answer now: what Redis has, or what a flight brings.
  pub data Answers (c : Shared W R) (id : ℕ) (job : Job) : Type 0 where
    by_hit : hit_of id c.server ≡ some job → Answers c id job
    by_flight : (i t : ℕ) → c.flights i id ≡ some (answered (ok job) t) → Answers c id job
