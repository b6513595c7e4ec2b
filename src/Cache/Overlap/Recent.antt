-- ===== src/Cache/Overlap/Recent.antt =====
-- How old an answer of GetJob may be.
use mathlib.Core.Option.{some-injective}
use taskflow.Common.{
  ℕ, ◌+◌, ◌*◌, ◌≤◌, ◌≡◌, refl, sym, subst, ◌∙◌, inl, inr, [], Option, none, some, arith,
}
use taskflow.Model.{Job}
use taskflow.Store.Query.{Result, ok, err}
use taskflow.Store.Service.{Service}
use taskflow.Cache.{Key, job_key, job_ttl, Redis, Json, set_if, filled_job}
use taskflow.Cache.Coherence.{Inverts, decoded, same_value, job_key-inj}
use taskflow.Cache.Overlap.{
  Expires, Flight, answered, Shared, with_flight, joined, replaced, landed, InTime, Step, hits,
  misses, reads, lands, updates, deletes, elsewhere, passes, Steps, stop, step, Answers, by_hit,
  by_flight,
}
use taskflow.Cache.Overlap.Ages.{
  with_flight-cases, answered-inj, joined-answered, Until, replaced-Until, moved-Until, aged-Until,
  sooner-Until,
}

-- What GetJob answers is what the store holds, and it changes nothing of that. It may fail.
pub record ReadsJobs {W : Type 0} (s : Service W) (job : W → ℕ → Result Job) : Type 0 where
  pub answers : (id : ℕ) (w : W) (j : Job) → (s.get_job id w).0 ≡ ok j → job w id ≡ ok j
  pub keeps : (id k : ℕ) (w : W) → job (s.get_job id w).1 k ≡ job w k

-- Redis has nothing, and no call is under way.
abbrev pub start : {W R : Type 0} → W → R → Shared W R
start w r = record { world = w; past = []; server = r; flights = λ i id. none; updates = λ n. none }

module _ {W R Raw : Type 0} (redis : Redis R Raw) (json : Json Raw) (s : Service W) (clock : R → ℕ)
    (pass : ℕ → R → R) (longest : ℕ) (Held : R → Key → Raw → ℕ → Type 0)
    (expires : Expires redis clock pass Held) (inverts : Inverts json) (job : W → ℕ → Result Job)
    (reads_jobs : ReadsJobs s job) where
  abbrev oldest : ℕ
  oldest = longest + job_ttl * 1000

  record IsBounded (c : Shared W R) : Type 0 where
    flown :
        (i id t : ℕ) (j : Job)
        → c.flights i id ≡ some (answered (ok j) t)
        → (t ≤ clock c.server) × Until job c.world c.past id j t 0
    timely : InTime redis json s clock pass longest c (clock c.server)
    held :
        (id e : ℕ) (raw : Raw) (j : Job)
        → Held c.server (job_key id) raw e
        → json.unmarshal_job raw ≡ some j
        → (e ≤ clock c.server + job_ttl * 1000) × Until job c.world c.past id j e oldest

  -- Redis forgets, flights begin or end, and no time passes.
  kept-IsBounded :
      (c : Shared W R) (r : R) (fs : ℕ → ℕ → Option Flight) (us : ℕ → Option ℕ)
      → clock r ≡ clock c.server
      → ((k : Key) (raw : Raw) (e : ℕ) → Held r k raw e → Held c.server k raw e)
      → ((i id t : ℕ) (a : Result Job)
          → fs i id ≡ some (answered a t)
          → c.flights i id ≡ some (answered a t))
      → IsBounded c
      → IsBounded (record c { server = r; flights = fs; updates = us })
  kept-IsBounded c r fs us same keep old h = record {
    flown = λ i id t j e. rw same (h.flown i id t j (old i id t (ok j) e));
    timely = λ i id a t e. rw same (h.timely i id a t (old i id t a e));
    held = λ id e raw j m d. rw same (h.held id e raw j (keep (job_key id) raw e m) d);
  }

  replaced-IsBounded :
      (c : Shared W R) (w : W) (us : ℕ → Option ℕ)
      → IsBounded c
      → IsBounded (record (replaced redis json s clock pass longest c w) { updates = us })
  replaced-IsBounded c w us h = record {
    flown = λ i id t j e.
        let (le, seen) = h.flown i id t j e in
        (
          le,
          replaced-Until job c.world w c.past id j t 0 (clock c.server) (omega (arith, le)) seen,
        );
    timely = h.timely;
    held = λ id e raw j m d.
        let (le, seen) = h.held id e raw j m d in
        (
          le,
          replaced-Until job c.world w c.past id j e oldest (clock c.server) (omega (arith, le))
              seen,
        );
  }

  passes-IsBounded :
      (c : Shared W R) (d : ℕ)
      → InTime redis json s clock pass longest c (clock c.server + d)
      → IsBounded c
      → IsBounded (record c { server = pass d c.server })
  passes-IsBounded c d early h =
      let now = expires.pass_clock d c.server in
      record {
        flown = λ i id t j e. let (le, seen) = h.flown i id t j e in (omega (arith, le, now), seen);
        timely = λ i id a t e. rw now (early i id a t e);
        held = λ id e raw j m x.
            let (le, seen) =
              h.held id e raw j (expires.pass_keeps d (job_key id) c.server raw e m) x in
            (omega (arith, le, now), seen);
      }

  reads-IsBounded :
      (c : Shared W R) (i id : ℕ)
      → IsBounded c
      → IsBounded (record c {
        world = (s.get_job id c.world).1;
        flights =
            with_flight i id (some (answered (s.get_job id c.world).0 (clock c.server))) c.flights;
      })
  reads-IsBounded c i id h = record {
    flown = λ k x t j e. elim (with_flight-cases i id k x _ c.flights _ e) [
      | inl (new, _, same) ↦
          let (got, at) = answered-inj _ _ _ _ new in
          (
            omega (arith, at),
            inl (
                subst (λ y. job (s.get_job id c.world).1 y ≡ ok j) same
                  (reads_jobs.keeps id id c.world ∙ reads_jobs.answers id c.world j got)),
          )
      | inr old ↦
          let (le, seen) = h.flown k x t j old in
          (le, moved-Until job c.world _ c.past x j t 0 (reads_jobs.keeps id x c.world) seen)
    ];
    timely = λ k x a t e. elim (with_flight-cases i id k x _ c.flights _ e) [
      | inl (new, _, same) ↦ let (got, at) = answered-inj _ _ _ _ new in omega (arith, at)
      | inr old ↦ h.timely k x a t old
    ];
    held = λ k e raw x m d.
        let (le, seen) = h.held k e raw x m d in
        (le, moved-Until job c.world _ c.past k x e oldest (reads_jobs.keeps id k c.world) seen);
  }

  -- A flight that has ended is no flight.
  ended :
      (c : Shared W R) (i id k x t : ℕ) (a : Result Job)
      → with_flight i id none c.flights k x ≡ some (answered a t)
      → c.flights k x ≡ some (answered a t)
  ended c i id k x t a e = elim (with_flight-cases i id k x none c.flights _ e) [
    | inl (new, _, same) ↦ cc
    | inr old ↦ old
  ]

  -- What the Set of a flight has left.
  set_value :
      (c : Shared W R) {id k t e : ℕ} {j x : Job} {v raw : Raw}
      → job_key k ≡ job_key id
      → raw ≡ v
      → json.marshal_job j ≡ some v
      → json.unmarshal_job raw ≡ some x
      → clock c.server ≤ t + longest
      → e ≤ clock c.server + job_ttl * 1000
      → Until job c.world c.past id j t 0
      → Until job c.world c.past k x e oldest
  set_value c {id} {k} {t} {e} {j} {x} {v} key value m d late le seen =
      let same : j ≡ x = same_value json.unmarshal_job d value (inverts.job j v m) in
      subst (λ y. Until job c.world c.past k y e oldest) same
        (subst (λ y. Until job c.world c.past y j e oldest) (sym (job_key-inj k id key))
          (aged-Until job c.world c.past id j t e oldest (omega (arith, late, le)) seen))

  -- The Set of a flight that got `j` at `t`.
  set-IsBounded :
      (c : Shared W R) (id t : ℕ) (j : Job) (o : Option Raw)
      → json.marshal_job j ≡ o
      → clock c.server ≤ t + longest
      → Until job c.world c.past id j t 0
      → IsBounded c
      → IsBounded (record c { server = set_if redis (job_key id) job_ttl o c.server })
  set-IsBounded c id t j none m late seen h = h
  set-IsBounded c id t j (some v) m late seen h =
      let same = expires.set_clock (job_key id) v job_ttl c.server in
      record {
        flown = λ i k u x e. rw same (h.flown i k u x e);
        timely = λ i k a u e. rw same (h.timely i k a u e);
        held = λ k e raw x q d.
            elim (expires.set_keeps (job_key id) (job_key k) v raw job_ttl c.server e q) [
              | inl (key, value, le) ↦ rw same (le, set_value c key value m d late le seen)
              | inr old ↦ rw same (h.held k e raw x old d)
            ];
      }

  lands-IsBounded :
      (c : Shared W R) (i id t : ℕ) (a : Result Job)
      → c.flights i id ≡ some (answered a t)
      → IsBounded c
      → IsBounded (
          landed redis json s clock pass longest c i id
            (filled_job redis json s id (a, c.world) c.server))
  lands-IsBounded c i id t (err x) e h =
      kept-IsBounded c c.server (with_flight i id none c.flights) c.updates refl (λ k raw n q. q)
        (ended c i id) h
  lands-IsBounded c i id t (ok j) e h =
      let (le, seen) = h.flown i id t j e in
      let next =
        set-IsBounded c id t j (json.marshal_job j) refl (h.timely i id (ok j) t e) seen h in
      let r = set_if redis (job_key id) job_ttl (json.marshal_job j) c.server in
      kept-IsBounded (record c { server = r }) r (with_flight i id none c.flights) c.updates refl
        (λ k raw n q. q) (ended c i id) next

  -- A caller that misses joins a flight or begins one.
  joined-same :
      (c : Shared W R) (i id k x t : ℕ) (a : Result Job)
      → with_flight i id (some (joined (c.flights i id))) c.flights k x ≡ some (answered a t)
      → c.flights k x ≡ some (answered a t)
  joined-same c i id k x t a e =
      elim (with_flight-cases i id k x (some (joined (c.flights i id))) c.flights _ e) [
        | inl (new, at, same) ↦
            subst (λ y. c.flights y x ≡ some (answered a t)) at
              (subst (λ y. c.flights i y ≡ some (answered a t)) same
                (joined-answered (c.flights i id) a t (some-injective _ _ new)))
        | inr old ↦ old
      ]

  step-IsBounded :
      {c d : Shared W R} → Step redis json s clock pass longest c d → IsBounded c → IsBounded d
  step-IsBounded (hits {c} id j e) h =
      kept-IsBounded c _ c.flights c.updates (expires.get_clock (job_key id) c.server)
        (λ k raw n q. expires.get_keeps (job_key id) k c.server raw n q) (λ i k t a q. q) h
  step-IsBounded (misses {c} i id e) h =
      kept-IsBounded c _ _ c.updates (expires.get_clock (job_key id) c.server)
        (λ k raw n q. expires.get_keeps (job_key id) k c.server raw n q) (joined-same c i id) h
  step-IsBounded (reads {c} i id e) h = reads-IsBounded c i id h
  step-IsBounded (lands {c} i id a t e) h = lands-IsBounded c i id t a e h
  step-IsBounded (updates {c} n id status e) h = replaced-IsBounded c _ _ h
  step-IsBounded (deletes {c} n id e) h =
      kept-IsBounded c _ c.flights _ (expires.del_clock (job_key id) c.server)
        (λ k raw n q. expires.del_keeps (job_key id) k c.server raw n q) (λ i k t a q. q) h
  step-IsBounded (elsewhere {c} w) h = replaced-IsBounded c w c.updates h
  step-IsBounded (passes {c} d early) h = passes-IsBounded c d early h

  steps-IsBounded :
      {c d : Shared W R} → Steps redis json s clock pass longest c d → IsBounded c → IsBounded d
  steps-IsBounded stop h = h
  steps-IsBounded (step a b) h = steps-IsBounded b (step-IsBounded a h)

  start-IsBounded :
      (w : W) (r : R) → ((k : Key) (raw : Raw) (e : ℕ) → ¬ Held r k raw e) → IsBounded (start w r)
  start-IsBounded w r nothing = record {
    flown = λ i id t j e. cc;
    timely = λ i id a t e. cc;
    held = λ id e raw j q d. absurd (nothing (job_key id) raw e q);
  }

  answer-Until :
      (c : Shared W R) (id : ℕ) (j : Job)
      → IsBounded c
      → Answers redis json s clock pass longest c id j
      → Until job c.world c.past id j (clock c.server) oldest
  answer-Until c id j h (by_hit e) =
      let (raw, found, decodes) = decoded json.unmarshal_job _ j e in
      let (n, q, before) = expires.got (job_key id) c.server raw found in
      sooner-Until job c.world c.past id j (clock c.server) n oldest (omega (arith, before))
        (h.held id n raw j q decodes).1
  answer-Until c id j h (by_flight i t e) =
      let (le, seen) = h.flown i id t j e in
      aged-Until job c.world c.past id j t (clock c.server) oldest
        (omega (arith, h.timely i id (ok j) t e)) seen

  -- However the calls of GetJob and UpdateJobStatus on any number of API servers overlap, with each
  -- other and with what the other processes write, from a Redis with nothing: what a call of GetJob
  -- may answer is the job as the store answers it now, or did at some time that is no longer ago
  -- than the 30 seconds of jobTTL and the longest time from the store's answer to a flight to the
  -- end of the flight. Redis answers only what was set, until it expires; decoding undoes encoding;
  -- the store's GetJob answers what it holds, if it does not fail, and changes nothing of that.
  pub answers-Until :
      (w : W) (r : R)
      → ((k : Key) (raw : Raw) (e : ℕ) → ¬ Held r k raw e)
      → (c : Shared W R) → Steps redis json s clock pass longest (start w r) c
      → (id : ℕ) (j : Job) → Answers redis json s clock pass longest c id j
      → Until job c.world c.past id j (clock c.server) (longest + job_ttl * 1000)
  answers-Until w r nothing c steps id j a =
      answer-Until c id j (steps-IsBounded steps (start-IsBounded w r nothing)) a
