-- ===== src/Store/Lease/Progress.antt =====
-- LeaseNextRun where a run is due, on a network that delivers every reply.
use taskflow.Common.{
  ℕ, ◌<◌, ltb, ℤ, pos, ◌+ℤ◌, +ℤ_parts, leb_ℤ, String, ◌≡◌, refl, sym, subst, exists_where, true,
  false, List, [], ◌∷◌, Option, some, arith, All, All-mem, In,
}
use taskflow.Model.{Job, JobRun, pending, status_eq}
use taskflow.Store.Tables.{Database}
use taskflow.Store.Query.{
  Result, ok, RoundTrip, World, advance, round_trip, exec_at, attempt, ◌>>=◌, transaction,
}
use taskflow.Store.Reliably.{
  Reliable, StatementLeads, Reliably-mono, Outcome, Answered, Settled, round_trip-Delivery,
  applied-Outcome, begun-Outcome, and_then-Outcome,
}
use taskflow.Store.Runs.{
  is_locked, leased_before, is_eligible, leased_run, max_smallint, claim, next_pending, lease_found,
  lease_body, lease_next_run,
}
use taskflow.Store.Valid.{IsValid, IsRecorded, job_ids, letter_runs}
use taskflow.Store.Lease.Claiming.{Best, next_pending-Best, claim-Reliably}

-- No other transaction locks the run while the script lasts.
abbrev pub Unlocked : ℕ → World → Type 0
Unlocked id w = All (λ (t : RoundTrip). is_locked id t.locked ≡ false) w.script

advance-Unlocked :
    (id : ℕ) (w : World) (ts : List RoundTrip)
    → All (λ (t : RoundTrip). is_locked id t.locked ≡ false) ts
    → (is_locked id (advance w ts).0.locked ≡ false)
      × (All (λ (t : RoundTrip). is_locked id t.locked ≡ false) w.script
          → Unlocked id (advance w ts).1)
unfolding exists_where
advance-Unlocked id w [] h = (refl, λ u. u)
advance-Unlocked id w (t ∷ ts) h = (h.0, λ u. h.1)

pub round_trip-Unlocked :
    (id : ℕ) (w : World)
    → Unlocked id w
    → (is_locked id (round_trip w).0.locked ≡ false) × Unlocked id (round_trip w).1
unfolding round_trip
round_trip-Unlocked id w h = let (a, b) = advance-Unlocked id w w.script h in (a, b h)

pub due_later : (s a : ℤ) (n : ℕ) → leb_ℤ s a ≡ true → leb_ℤ s (a +ℤ pos n) ≡ true
due_later s a n h = ground (arith, +ℤ_parts a (pos n))

advance_later :
    (s : ℤ) (w : World) (ts : List RoundTrip)
    → leb_ℤ s w.now ≡ true
    → leb_ℤ s (advance w ts).1.now ≡ true
advance_later s w [] h = h
advance_later s w (t ∷ ts) h = due_later s w.now t.elapsed h

-- What was due is due later.
pub round_trip_later :
    (s : ℤ) (w : World) → leb_ℤ s w.now ≡ true → leb_ℤ s (round_trip w).1.now ≡ true
unfolding round_trip
round_trip_later s w h = advance_later s w w.script h

-- A lease adds to the attempts of a pending run, in a column of type SMALLINT.
abbrev pub HasRoom : JobRun → Type 0
HasRoom x = status_eq x.status pending ≡ true → x.attempt < max_smallint

-- An answer that leases a run of the tables that `r` does not come before.
abbrev pub Leases : String → ℤ → JobRun → Database → Result (Option (JobRun × Job)) → Type 0
Leases worker duration r old a =
    (before : JobRun) × (now : ℤ) × (job : Job) × In before old.job_runs
    × (leased_before r before ≡ false)
    × (a ≡ ok (some (leased_run worker duration now before, job)))

pub eligible-pending :
    (now : ℤ) (locked : List ℕ) (x : JobRun)
    → is_eligible now locked x ≡ true
    → status_eq x.status pending ≡ true
eligible-pending now locked x e = ground arith

pending-eligible :
    (now : ℤ) (locked : List ℕ) (r : JobRun)
    → r.status ≡ pending
    → leb_ℤ r.scheduled_at now ≡ true
    → is_locked r.id locked ≡ false
    → is_eligible now locked r ≡ true
pending-eligible now locked r p d u = rw (p, d, u) refl

room-ltb : (n : ℕ) → n < max_smallint → ltb n max_smallint ≡ true
room-ltb n h = ground arith

module _ (worker : String) (duration : ℤ) (r : JobRun) where
  -- The rest of the transaction, from the row that the SELECT has given.
  claimed-Outcome :
      (w u : World) (v : IsValid w.db) (room : All HasRoom w.db.job_runs) {locked : List ℕ}
      (b : Best w.now locked r w.db)
      → Reliable u
      → u.db ≡ w.db
      → Outcome
          (Settled (λ a d. Leases worker duration r w.db a) w.db)
          (claim worker duration w.now b.before u)
  claimed-Outcome w u v room {locked} b k e =
      let ready = eligible-pending w.now locked b.before b.eligible in
      let fits = room-ltb _ (All-mem HasRoom w.db.job_runs room b.found ready) in
      let recorded =
        All-mem (IsRecorded (job_ids w.db) (letter_runs w.db)) w.db.job_runs v.runs b.found in
      (Reliably-mono (λ d h. h)
          (λ a d h.
            subst (λ z. Settled (λ a d. Leases worker duration r w.db a) w.db z d) (sym h.1)
              (b.before, w.now, h.0, b.found, b.best, refl))
          (claim-Reliably worker duration w.now w.db v b.before b.found fits recorded.job)).at
        u k e

  lease_body-Outcome :
      (w : World)
      → Reliable w
      → Unlocked r.id w
      → IsValid w.db
      → All HasRoom w.db.job_runs
      → In r w.db.job_runs
      → r.status ≡ pending
      → leb_ℤ r.scheduled_at w.now ≡ true
      → Outcome
          (Settled (λ a d. Leases worker duration r w.db a) w.db)
          (lease_body worker duration w.now w)
  unfolding lease_body lease_found exec_at attempt ◌>>=◌
  lease_body-Outcome w k u v room m p due =
      let (y, k', e, n) = round_trip-Delivery w k in
      let free = (round_trip-Unlocked r.id w u).0 in
      let (t, w') = round_trip w in
      let (b, found) =
        next_pending-Best w.now t w.db r m (pending-eligible w.now t.locked r p due free) in
      let Picked : Result JobRun → Database → Type 0 = λ a d. (a ≡ ok b.before) × (d ≡ w.db) in
      let Q = Settled (λ a d. Leases worker duration r w.db a) w.db in
      and_then-Outcome (Answered Picked) Q (lease_found worker duration w.now)
        (attempt (exec_at w.now next_pending) w)
        (λ a. record {
          at = λ w2 k2 h.
              subst (λ x. Outcome Q (lease_found worker duration w.now x w2)) (sym h.0)
                (claimed-Outcome w w2 v room b k2 h.1);
        })
        (λ x d h. absurd h)
        (applied-Outcome Picked t.reply (next_pending w.now t w'.db) w' y k' (
          subst (λ d. StatementLeads Picked d (next_pending w.now t d)) (sym e)
            (rw found (refl, refl))))

  -- LeaseNextRun on a network that delivers every reply and without a read replica, where `r` is
  -- pending and due and no other transaction locks it, and the attempts of the pending runs leave
  -- room in their column: it leases a run, `r` or one that `r` does not come before.
  pub lease_next_run-Leases :
      (w : World)
      → Reliable w
      → Unlocked r.id w
      → IsValid w.db
      → All HasRoom w.db.job_runs
      → In r w.db.job_runs
      → r.status ≡ pending
      → leb_ℤ r.scheduled_at w.now ≡ true
      → Outcome (λ a d. Leases worker duration r w.db a) (lease_next_run worker duration w)
  unfolding lease_next_run transaction
  lease_next_run-Leases w k u v room m p due =
      let (y, k', e, n) = round_trip-Delivery w k in
      let (t, w') = round_trip w in
      let back = sym e in
      let Q : Result (Option (JobRun × Job)) → Database → Type 0 =
        λ a d. Leases worker duration r w.db a in
      begun-Outcome Q t.reply (lease_body worker duration) w' y (
        subst
          (λ o.
            Outcome (Settled (λ a d. Leases worker duration r o a) w'.db)
              (lease_body worker duration w'.now w'))
          e
          (lease_body-Outcome w' k' (round_trip-Unlocked r.id w u).1 (subst IsValid back v)
            (subst (λ d. All HasRoom d.job_runs) back room)
            (subst (λ (d : Database). In r d.job_runs) back m) p
            (round_trip_later r.scheduled_at w due)))
