-- ===== src/Lock/Acquiring.antt =====
-- What one call of TryAcquire does to the lock.
use taskflow.Common.{
  ℕ, ◌+◌, ◌≡◌, refl, sym, ap, subst, inl, inr, Bool, true, false, Bool-cases, ◌==◌, ==_iff, ◌&&◌,
  if◌then◌else◌, Option, none, some, is_some, arith,
}
use taskflow.Store.Query.{Reply, delivered, refused, lost}
use taskflow.Lock.{
  Sessions, Elector, Attempt, Answer, locked_by, try_lock, reached, queried, ask, redialled, pinged,
  dialled, connected, try_acquire,
}

-- The session has the lock, once or more.
abbrev pub Holds : Sessions → ℕ → Type 0
Holds srv s = (n : ℕ) × (srv.holder ≡ some (s, n))

-- A leader whose session is open has the lock.
abbrev pub Leads : Sessions → Elector → Type 0
Leads srv e = (s : ℕ) → e.is_leader ≡ true → e.conn ≡ some s → srv.live s ≡ true → Holds srv s

-- What a call leaves of the lock and of the elector, whose connection is one of `From`.
pub record Kept (From : ℕ → Type 0) (srv srv' : Sessions) (e : Elector) : Type 0 where
  pub live : srv'.live ≡ srv.live
  pub opened : srv'.opened ≡ srv.opened
  pub leads : Leads srv' e
  pub connected : e.is_leader ≡ true → is_some e.conn ≡ true
  pub source : (s : ℕ) → e.conn ≡ some s → From s

-- And what it says of it. Nobody loses the lock by another's TryAcquire.
pub record Acquired (From : ℕ → Type 0) (srv : Sessions) (ans : Answer) : Type 0 where
  pub kept : Kept From srv ans.1 ans.2
  pub stays : (h : ℕ) → Holds srv h → Holds ans.1 h
  pub says : (b : Bool) → ans.0 ≡ some b → ans.2.is_leader ≡ b
  pub session : ans.0 ≡ some true → (s : ℕ) × (ans.2.conn ≡ some s) × (ans.1.live s ≡ true)

locked_by-Holds :
    (s : ℕ) (o : Option (ℕ × ℕ))
    → (locked_by s o).0 ≡ true
    → (n : ℕ) × ((locked_by s o).1 ≡ some (s, n))
locked_by-Holds s none h = (1, refl)
locked_by-Holds s (some (k, n)) h = elim (Bool-cases (k == s)) [
  | inl e ↦ (n + 1, ground (arith, e, ==_iff k s))
  | inr e ↦ ground (arith, e, h)
]

locked_by-stays :
    (s k : ℕ) (o : Option (ℕ × ℕ)) (n : ℕ)
    → o ≡ some (k, n)
    → (m : ℕ) × ((locked_by s o).1 ≡ some (k, m))
locked_by-stays s k none n h = cc
locked_by-stays s k (some (j, m)) n h = elim (Bool-cases (j == s)) [
  | inl e ↦ (m + 1, ground (arith, e, h))
  | inr e ↦ (m, ground (arith, e, h))
]

same_conn : (e : Elector) (s t : ℕ) → e.conn ≡ some s → e.conn ≡ some t → s ≡ t
same_conn e s t c k = cc

module _ (From : ℕ → Type 0) (srv srv' : Sessions) (live : srv'.live ≡ srv.live)
    (opened : srv'.opened ≡ srv.opened) (stays : (h : ℕ) → Holds srv h → Holds srv' h) where
  -- A call that fails, of an elector that does not lead.
  failed-Acquired :
      (e : Elector)
      → e.is_leader ≡ false
      → ((t : ℕ) → e.conn ≡ some t → From t)
      → Acquired From srv (none, srv', e)
  failed-Acquired e l from = record {
    kept = record {
      live = live;
      opened = opened;
      leads = λ t lead k u. cc;
      connected = λ lead. cc;
      source = from;
    };
    stays = stays;
    says = λ b k. cc;
    session = λ k. cc;
  }

pub follower-Leads : (srv : Sessions) (e : Elector) → e.is_leader ≡ false → Leads srv e
follower-Leads srv e l t lead c u = cc

if-Acquired :
    {From : ℕ → Type 0} {srv : Sessions} {x y : Answer} (b : Bool)
    → (b ≡ true → Acquired From srv x)
    → (b ≡ false → Acquired From srv y)
    → Acquired From srv (if b then x else y)
if-Acquired true p q = p refl
if-Acquired false p q = q refl

module _ (From : ℕ → Type 0) (s : ℕ) (from : From s) (srv : Sessions) where
  source_of : (e : Elector) → e.conn ≡ some s → (t : ℕ) → e.conn ≡ some t → From t
  source_of e c t k = subst From (same_conn e s t c k) from

  queried-Acquired :
      (r : Reply) (e : Elector)
      → srv.live s ≡ true
      → e.conn ≡ some s
      → e.is_leader ≡ false
      → Acquired From srv (queried r (try_lock s srv) srv e)
  unfolding try_lock
  queried-Acquired delivered e up c l = record {
    kept = record {
      live = refl;
      opened = refl;
      leads = λ t lead k u.
          subst (λ x. (n : ℕ) × ((locked_by s srv.holder).1 ≡ some (x, n))) (same_conn e s t c k)
            (locked_by-Holds s srv.holder lead);
      connected = λ lead. ap is_some c;
      source = source_of e c;
    };
    stays = λ h p. locked_by-stays s h srv.holder p.0 p.1;
    says = λ b k. cc;
    session = λ k. (s, c, up);
  }
  queried-Acquired lost e up c l =
      failed-Acquired From srv _ refl refl (λ h p. locked_by-stays s h srv.holder p.0 p.1) e l
        (source_of e c)
  queried-Acquired refused e up c l =
      failed-Acquired From srv srv refl refl (λ h p. p) e l (source_of e c)

  -- A leader says so without a query.
  leader-Acquired :
      (e : Elector)
      → srv.live s ≡ true
      → e.conn ≡ some s
      → e.is_leader ≡ true
      → Leads srv e
      → Acquired From srv (some true, srv, e)
  leader-Acquired e up c l leads = record {
    kept = record {
      live = refl;
      opened = refl;
      leads = leads;
      connected = λ lead. ap is_some c;
      source = source_of e c;
    };
    stays = λ h p. p;
    says = λ b k. cc;
    session = λ k. (s, c, up);
  }

  ask-Acquired :
      (a : Attempt) (e : Elector)
      → srv.live s ≡ true
      → e.conn ≡ some s
      → Leads srv e
      → Acquired From srv (ask a s srv e)
  ask-Acquired a e up c leads =
      if-Acquired e.is_leader (λ l. leader-Acquired e up c l leads)
        (λ l. queried-Acquired (reached a.reply (srv.live s)) e up c l)

-- What the pool gives is a session that is open.
abbrev pub Offered : (ℕ → Type 0) → Sessions → Option ℕ → Type 0
Offered From srv o = (s : ℕ) → o ≡ some s → From s × (srv.live s ≡ true)

module _ (From : ℕ → Type 0) (srv : Sessions) (a : Attempt)
    (again : Offered From srv a.redial) where
  redialled-Acquired : (o : Option ℕ) → o ≡ a.redial → Acquired From srv (redialled a o srv)
  redialled-Acquired none k = failed-Acquired From srv srv refl refl (λ h p. p) _ refl (λ t e. cc)
  redialled-Acquired (some s) k =
      let (from, up) = again s (sym k) in
      ask-Acquired From s from srv a _ up refl (follower-Leads srv _ refl)

  pinged-Acquired :
      (s : ℕ) (e : Elector)
      → From s
      → e.conn ≡ some s
      → Leads srv e
      → Acquired From srv (pinged a s srv e)
  unfolding pinged
  pinged-Acquired s e from c leads =
      if-Acquired (a.reachable && srv.live s)
        (λ up. ask-Acquired From s from srv a e (ground (arith, up)) c leads)
        (λ down. redialled-Acquired a.redial refl)

  dialled-Acquired :
      (o : Option ℕ) (e : Elector)
      → Offered From srv o
      → e.is_leader ≡ false
      → e.conn ≡ none
      → Acquired From srv (dialled a o srv e)
  dialled-Acquired none e first l c =
      failed-Acquired From srv srv refl refl (λ h p. p) e l (λ t k. cc)
  dialled-Acquired (some s) e first l c =
      pinged-Acquired s _ (first s refl).0 refl (follower-Leads srv _ l)

  connected-Acquired :
      (o : Option ℕ) (e : Elector)
      → e.conn ≡ o
      → Offered From srv a.dial
      → ((s : ℕ) → o ≡ some s → From s)
      → (e.is_leader ≡ true → is_some o ≡ true)
      → Leads srv e
      → Acquired From srv (connected a o srv e)
  connected-Acquired none e c first from conn leads = elim (Bool-cases e.is_leader) [
    | inl l ↦ absurd (cc (conn l))
    | inr l ↦ dialled-Acquired a.dial e first l c
  ]
  connected-Acquired (some s) e c first from conn leads = pinged-Acquired s e (from s refl) c leads

  -- TryAcquire, if the pool gives sessions that are open.
  pub try_acquire-Acquired :
      (e : Elector)
      → Offered From srv a.dial
      → ((s : ℕ) → e.conn ≡ some s → From s)
      → (e.is_leader ≡ true → is_some e.conn ≡ true)
      → Leads srv e
      → Acquired From srv (try_acquire a srv e)
  unfolding try_acquire
  try_acquire-Acquired e first from conn leads =
      connected-Acquired e.conn e refl first from conn leads
