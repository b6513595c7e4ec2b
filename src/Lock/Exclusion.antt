-- ===== src/Lock/Exclusion.antt =====
-- How many electors of one lock lead.
use taskflow.Common.{
  ℕ, ◌+◌, ◌<◌, ◌≡◌, ◌≢◌, refl, sym, ap, subst, ◌∙◌, ◌⊎◌, inl, inr, true, false, Bool-cases, ◌==◌,
  ==_iff, Option, none, some, is_some, arith,
}
use taskflow.Lock.{Sessions, Elector, Attempt, try_acquire}
use taskflow.Lock.Acquiring.{Holds, Leads, Kept, Offered, try_acquire-Acquired}
use taskflow.Lock.Releasing.{release-Released}
use taskflow.Lock.Cluster.{
  Cluster, with_elector, moved, after, opened, without, closed, Free, Step, acquires, releases,
  opens, ends, Steps, stop, step, start,
}

pub record IsExclusive (c : Cluster) : Type 0 where
  pub leads : (i : ℕ) → Leads c.sessions (c.electors i)
  pub connected : (i : ℕ) → (c.electors i).is_leader ≡ true → is_some (c.electors i).conn ≡ true
  pub apart : (i j s : ℕ) → i ≢ j → (c.electors i).conn ≡ some s → (c.electors j).conn ≢ some s
  pub known : (i s : ℕ) → (c.electors i).conn ≡ some s → s < c.sessions.opened
  pub live_known : (s : ℕ) → c.sessions.live s ≡ true → s < c.sessions.opened

start-IsExclusive : IsExclusive start
start-IsExclusive = record {
  leads = λ i s l c u. cc;
  connected = λ i l. cc;
  apart = λ i j s d c e. cc;
  known = λ i s c. cc;
  live_known = λ s u. cc;
}

-- A session that is the elector's own, or nobody's.
abbrev Own : Cluster → ℕ → ℕ → Type 0
Own c i s = (s < c.sessions.opened) × ((j : ℕ) → i ≢ j → (c.electors j).conn ≢ some s)

module _ (P : Elector → Type 0) (i j : ℕ) (e : Elector) (es : ℕ → Elector) where
  with_elector-elim : (i ≡ j → P e) → (i ≢ j → P (es j)) → P (with_elector i e es j)
  with_elector-elim p q = elim (Bool-cases (i == j)) [
    | inl k ↦ rw k (p ((==_iff i j).0 k))
    | inr k ↦ rw k (q (λ h. ground (arith, k, h)))
  ]

without_stays :
    (t s n : ℕ) (o : Option (ℕ × ℕ)) → s ≢ t → o ≡ some (s, n) → without t o ≡ some (s, n)
without_stays t s n none d e = cc
without_stays t s n (some (k, m)) d e = elim (Bool-cases (k == t)) [
  | inl i ↦ absurd (d (ground (arith, i, e, ==_iff k t)))
  | inr i ↦ rw i e
]

module _ (c : Cluster) (x : IsExclusive c) where
  old-Own : (i s : ℕ) → (c.electors i).conn ≡ some s → Own c i s
  old-Own i s k = (x.known i s k, λ j d. x.apart i j s d k)

  Free-Own : (i : ℕ) (o : Option ℕ) → Free c i o → Offered (Own c i) c.sessions o
  Free-Own i o f s k = let (up, alone) = f s k in ((x.live_known s up, alone), up)

  live_before :
      (s : ℕ) → s < c.sessions.opened → (opened c.sessions).live s ≡ true → c.sessions.live s ≡ true
  live_before s h u = ground arith

  still : (s t : ℕ) → (closed t c.sessions).live s ≡ true → (c.sessions.live s ≡ true) × (s ≢ t)
  still s t u = ground arith

  moved-IsExclusive :
      (i : ℕ) (srv : Sessions) (e : Elector)
      → Kept (Own c i) c.sessions srv e
      → ((j s : ℕ) → i ≢ j → (c.electors j).conn ≡ some s → Holds c.sessions s → Holds srv s)
      → IsExclusive (moved c i (srv, e))
  moved-IsExclusive i srv e k stays = record {
    leads = λ j.
        with_elector-elim (Leads srv) i j e c.electors (λ h. k.leads)
          (λ d s l q u. stays j s d q (x.leads j s l q (subst (λ f. f s ≡ true) k.live u)));
    connected = λ j.
        with_elector-elim (λ y. y.is_leader ≡ true → is_some y.conn ≡ true) i j e c.electors
          (λ h. k.connected) (λ d. x.connected j);
    apart = λ j m s.
        with_elector-elim
          (λ y. j ≢ m → y.conn ≡ some s → (with_elector i e c.electors m).conn ≢ some s) i j e
          c.electors
          (λ h d q.
            with_elector-elim (λ z. z.conn ≢ some s) i m e c.electors
              (λ h'. absurd (d (sym h ∙ h'))) (λ d'. (k.source s q).1 m d'))
          (λ d' d q.
            with_elector-elim (λ z. z.conn ≢ some s) i m e c.electors
              (λ h r. (k.source s r).1 j d' q) (λ _. x.apart j m s d q));
    known = λ j s.
        with_elector-elim (λ y. y.conn ≡ some s → s < srv.opened) i j e c.electors
          (λ h q. subst (λ n. s < n) (sym k.opened) (k.source s q).0)
          (λ d q. subst (λ n. s < n) (sym k.opened) (x.known j s q));
    live_known = λ s u.
        subst (λ n. s < n) (sym k.opened) (x.live_known s (subst (λ f. f s ≡ true) k.live u));
  }

  opened_known :
      (s : ℕ)
      → ((s == c.sessions.opened) ≡ true) ⊎ ((s == c.sessions.opened) ≡ false)
      → (opened c.sessions).live s ≡ true
      → s < c.sessions.opened + 1
  opened_known s (inl e) u = ground (arith, e, ==_iff s c.sessions.opened)
  opened_known s (inr e) u = let h = x.live_known s (rw e at u) in omega arith

  opened-IsExclusive : IsExclusive (record c { sessions = opened c.sessions })
  opened-IsExclusive = record {
    leads = λ i s l q u. x.leads i s l q (live_before s (x.known i s q) u);
    connected = x.connected;
    apart = x.apart;
    known = λ i s q. let h = x.known i s q in omega arith;
    live_known = λ s u. opened_known s (Bool-cases (s == c.sessions.opened)) u;
  }

  closed-IsExclusive : (t : ℕ) → IsExclusive (record c { sessions = closed t c.sessions })
  closed-IsExclusive t = record {
    leads = λ i s l q u.
        let (up, d) = still s t u in
        let (n, p) = x.leads i s l q up in (n, without_stays t s n c.sessions.holder d p);
    connected = x.connected;
    apart = x.apart;
    known = x.known;
    live_known = λ s u. x.live_known s (still s t u).0;
  }

Step-IsExclusive : {c d : Cluster} → Step c d → IsExclusive c → IsExclusive d
Step-IsExclusive (acquires {c = c} i a f g) x =
    let done =
      try_acquire-Acquired (Own c i) c.sessions a (Free-Own c x i a.redial g) (c.electors i)
        (Free-Own c x i a.dial f) (old-Own c x i) (x.connected i) (x.leads i) in
    moved-IsExclusive c x i _ _ done.kept (λ j s d q h. done.stays s h)
Step-IsExclusive (releases {c = c} i r) x =
    let done =
      release-Released (Own c i) c.sessions (c.electors i) (old-Own c x i) (x.connected i)
        (x.leads i) r in
    moved-IsExclusive c x i _ _ done.kept
      (λ j s d q h. done.stays s (λ own. x.apart i j s d own q) h)
Step-IsExclusive (opens {c = c}) x = opened-IsExclusive c x
Step-IsExclusive (ends {c = c} s) x = closed-IsExclusive c x s

Steps-IsExclusive : {c d : Cluster} → Steps c d → IsExclusive c → IsExclusive d
Steps-IsExclusive stop x = x
Steps-IsExclusive (step s t) x = Steps-IsExclusive t (Step-IsExclusive s x)

one_more : {c d e : Cluster} → Steps c d → Step d e → Steps c e
one_more stop s = step s stop
one_more (step r t) s = step r (one_more t s)

-- The elector believes that it leads, and its session is open.
abbrev pub LeadsNow : Cluster → ℕ → Type 0
LeadsNow c i =
    ((c.electors i).is_leader ≡ true)
    × ((s : ℕ) × ((c.electors i).conn ≡ some s) × (c.sessions.live s ≡ true))

same_session : (o : Option (ℕ × ℕ)) (s r n m : ℕ) → o ≡ some (s, n) → o ≡ some (r, m) → s ≡ r
same_session o s r n m p q = cc

one_session :
    (c : Cluster) (i j : ℕ)
    → IsExclusive c
    → LeadsNow c i
    → LeadsNow c j
    → (s : ℕ) × ((c.electors i).conn ≡ some s) × ((c.electors j).conn ≡ some s)
one_session c i j x (l, (s, p, u)) (m, (r, q, v)) =
    let (n, h) = x.leads i s l p u in
    let (k, g) = x.leads j r m q v in
    (s, p, q ∙ ap some (sym (same_session c.sessions.holder s r n k h g)))

one_leader_is : (c : Cluster) → Steps start c → (i j : ℕ) → LeadsNow c i → LeadsNow c j → i ≡ j
one_leader_is c t i j p q =
    let x = Steps-IsExclusive t start-IsExclusive in
    let (s, a, b) = one_session c i j x p q in
    elim (Bool-cases (i == j)) [
      | inl e ↦ (==_iff i j).0 e
      | inr e ↦ absurd (x.apart i j s (λ h. ground (arith, e, h)) a b)
    ]

-- Whatever the electors do, and whatever becomes of connections, queries and sessions, of two
-- electors at most one believes that it leads and has an open session.
pub one_leader : (c : Cluster) (i j : ℕ) → Steps start c → i ≢ j → ¬ (LeadsNow c i × LeadsNow c j)
one_leader c i j t d (p, q) = d (one_leader_is c t i j p q)

try_acquire-LeadsNow :
    (c : Cluster) (i : ℕ) (a : Attempt)
    → IsExclusive c
    → Free c i a.dial
    → Free c i a.redial
    → (try_acquire a c.sessions (c.electors i)).0 ≡ some true
    → LeadsNow (moved c i (after (try_acquire a c.sessions (c.electors i)))) i
try_acquire-LeadsNow c i a x f g e =
    let (answer, srv, after) = try_acquire a c.sessions (c.electors i) in
    let done =
      try_acquire-Acquired (Own c i) c.sessions a (Free-Own c x i a.redial g) (c.electors i)
        (Free-Own c x i a.dial f) (old-Own c x i) (x.connected i) (x.leads i) in
    with_elector-elim
      (λ y. (y.is_leader ≡ true) × ((s : ℕ) × (y.conn ≡ some s) × (srv.live s ≡ true))) i i after
      c.electors (λ _. (done.says true e, done.session e)) (λ d. absurd (d refl))

-- Where TryAcquire answers true, the session of its elector is open, and no other elector both
-- believes that it leads and has an open session.
try_acquire-leads :
    (c : Cluster) (i j : ℕ) (a : Attempt)
    → Steps start c
    → Free c i a.dial
    → Free c i a.redial
    → (try_acquire a c.sessions (c.electors i)).0 ≡ some true
    → i ≢ j
    → let now = moved c i (after (try_acquire a c.sessions (c.electors i))) in
      LeadsNow now i × ¬ LeadsNow now j
try_acquire-leads c i j a t f g e d =
    let mine = try_acquire-LeadsNow c i a (Steps-IsExclusive t start-IsExclusive) f g e in
    (mine, λ theirs. d (one_leader_is _ (one_more t (acquires i a f g)) i j mine theirs))
