-- ===== src/Store/Connecting/Closing.antt =====
-- Which pools New, EnableReadReplica and Close leave open.
use taskflow.Common.{
  ℕ, ◌+◌, ◌<◌, String, ◌≡◌, refl, sym, ◌∙◌, ap, subst, true, not, ◌==◌, Bool-cases, inl, inr, Bool,
  false, ◌&&◌, List, [], ◌∷◌, Option, none, some, rows_where, All, All-mono, arith, is_some,
}
use taskflow.Store.Connecting.{
  Pgx, Pools, PostgresStore, close_pool, made_pool, connect, new_store, open_store, with_replica,
  enable_read_replica, close,
}

-- No number is given out twice.
abbrev pub AreNumbered : Pools → Type 0
AreNumbered ps = All (λ i. i < ps.made) ps.live

numbered_apart :
    (n : ℕ) (is : List ℕ) → All (λ i. i < n) is → rows_where (λ i. not (i == n)) is ≡ is
unfolding rows_where
numbered_apart n [] h = refl
numbered_apart n (i ∷ is) h = ground (arith, numbered_apart n is h.1)

next_apart :
    (n : ℕ) (is : List ℕ) → All (λ i. i < n) is → rows_where (λ i. not (i == n + 1)) is ≡ is
unfolding rows_where
next_apart n [] h = refl
next_apart n (i ∷ is) h = ground (arith, next_apart n is h.1)

-- What `connect` leaves open.
abbrev pub Connected : Pools → Option ℕ × Pools → Type 0
Connected old (none, ps) = ps.live ≡ old.live
Connected old (some id, ps) =
    (id ≡ old.made) × (ps.made ≡ old.made + 1) × (ps.live ≡ old.made ∷ old.live)

closed_again : (ps : Pools) → AreNumbered ps → (close_pool ps.made (made_pool ps)).live ≡ ps.live
unfolding rows_where
closed_again ps h = ground (arith, numbered_apart ps.made ps.live h)

pub connect-Connected :
    (pgx : Pgx) (url : String) (ps : Pools) → AreNumbered ps → Connected ps (connect pgx url ps)
unfolding connect
connect-Connected pgx url ps h = elim (Bool-cases (pgx.parses url)) [
  | inr e ↦ rw e refl
  | inl e ↦ elim (Bool-cases (pgx.makes url)) [
    | inr f ↦ rw (e, f) refl
    | inl f ↦ elim (Bool-cases (pgx.answers url)) [
      | inl g ↦ rw (e, f, g) (refl, refl, refl)
      | inr g ↦ rw (e, f, g) (closed_again ps h)
    ]
  ]
]

-- The pools of a store that was opened after `old`.
abbrev pub held : PostgresStore → List ℕ → List ℕ
held st is = elim st.replica_pool [ none ↦ st.pool ∷ is | some id ↦ id ∷ st.pool ∷ is ]

abbrev NextIs : ℕ → Option ℕ → Type 0
NextIs n none = Unit
NextIs n (some id) = id ≡ n + 1

pub record Owns (old : Pools) (st : PostgresStore) (ps : Pools) : Type 0 where
  pub live : ps.live ≡ held st old.live
  pub first : st.pool ≡ old.made
  pub next : NextIs old.made st.replica_pool

module _ (n : ℕ) (is : List ℕ) (h : All (λ i. i < n) is) where
  drop_last : rows_where (λ i. not (i == n)) (n ∷ is) ≡ is
  unfolding rows_where
  drop_last = ground (arith, numbered_apart n is h)

  drop_both :
      rows_where (λ i. not (i == n + 1)) (rows_where (λ i. not (i == n)) ((n + 1) ∷ n ∷ is)) ≡ is
  unfolding rows_where
  drop_both = ap (rows_where (λ i. not (i == n + 1))) kept ∙ ground (arith, next_apart n is h)
    where
      kept : rows_where (λ i. not (i == n)) ((n + 1) ∷ n ∷ is) ≡ (n + 1) ∷ is
      kept = ground (arith, numbered_apart n is h)

  drops_its_pools :
      (r : Option ℕ) (id : ℕ) (ps : Pools)
      → id ≡ n
      → NextIs n r
      → ps.live ≡ held (record { pool = id; replica_pool = r }) is
      → (close (record { pool = id; replica_pool = r }) ps).live ≡ is
  unfolding close
  drops_its_pools none id ps f k e =
      subst (λ x. rows_where (λ i. not (i == x)) ps.live ≡ is) (sym f)
        (ap (rows_where (λ i. not (i == n))) (e ∙ ap (λ x. x ∷ is) f) ∙ drop_last)
  drops_its_pools (some q) id ps f k e =
      subst (λ x. rows_where (λ i. not (i == q)) (rows_where (λ i. not (i == x)) ps.live) ≡ is)
        (sym f)
        (subst (λ y. rows_where (λ i. not (i == y)) (rows_where (λ i. not (i == n)) ps.live) ≡ is)
          (sym k)
          (ap (λ l. rows_where (λ i. not (i == n + 1)) (rows_where (λ i. not (i == n)) l))
              (e ∙ ap (λ x. q ∷ x ∷ is) f ∙ ap (λ y. y ∷ n ∷ is) k)
            ∙ drop_both))

-- Close leaves no pool of the store open.
pub close-Owns :
    (old : Pools) (st : PostgresStore) (ps : Pools)
    → AreNumbered old
    → Owns old st ps
    → (close st ps).live ≡ old.live
close-Owns old st ps h o =
    drops_its_pools old.made old.live h st.replica_pool st.pool ps o.first o.next o.live

-- What New leaves open.
abbrev pub Opened : Pools → Option PostgresStore × Pools → Type 0
Opened old (none, ps) = ps.live ≡ old.live
Opened old (some st, ps) =
    Owns old st ps × (st.replica_pool ≡ none) × AreNumbered ps × (ps.made ≡ old.made + 1)

weaken : (n : ℕ) (is : List ℕ) → All (λ i. i < n) is → All (λ i. i < n + 1) is
weaken n is h = All-mono (λ i. i < n) is (λ i p. omega arith) h

new_store-Opened :
    (old : Pools) (x : Option ℕ × Pools)
    → AreNumbered old
    → Connected old x
    → Opened old (new_store x)
new_store-Opened old (none, ps) h c = c
new_store-Opened old (some id, ps) h c = (
  record { live = c.2 ∙ ap (λ i. i ∷ old.live) (sym c.0); first = c.0; next = tt },
  refl,
  subst (λ l. All (λ i. i < ps.made) l) (sym c.2)
      (subst (λ m. All (λ i. i < m) (old.made ∷ old.live)) (sym c.1)
        (omega arith, weaken old.made old.live h)),
  c.1,
)

pub open_store-Opened :
    (pgx : Pgx) (url : String) (old : Pools) → AreNumbered old → Opened old (open_store pgx url old)
unfolding open_store
open_store-Opened pgx url old h =
    new_store-Opened old (connect pgx url old) h (connect-Connected pgx url old h)

-- The URL parses, a pool can be made for it, and its server answers.
abbrev pub reachable : Pgx → String → Bool
reachable pgx url = pgx.parses url && pgx.makes url && pgx.answers url

connect_fails :
    (pgx : Pgx) (url : String) (ps : Pools)
    → (connect pgx url ps).0 ≡ none
    → reachable pgx url ≡ false
unfolding connect
connect_fails pgx url ps e = ground arith

with_replica_fails :
    (st : PostgresStore) (x : Option ℕ × Pools) → (with_replica st x).0 ≡ none → x.0 ≡ none
with_replica_fails st (none, ps) e = refl
with_replica_fails st (some id, ps) e = cc

-- EnableReadReplica fails only where the replica cannot be reached.
pub enable_read_replica_fails :
    (pgx : Pgx) (url : String) (st : PostgresStore) (ps : Pools)
    → (enable_read_replica pgx url st ps).0 ≡ none
    → reachable pgx url ≡ false
unfolding enable_read_replica
enable_read_replica_fails pgx url st ps e =
    connect_fails pgx url ps (with_replica_fails st (connect pgx url ps) e)

-- What EnableReadReplica leaves, if it returns no error.
abbrev pub Replicated : Pools → Option PostgresStore × Pools → Type 0
Replicated old (none, ps) = Unit
Replicated old (some st, ps) = Owns old st ps × (is_some st.replica_pool ≡ true)

module _ (old : Pools) (st : PostgresStore) (ps : Pools) (h : AreNumbered old)
    (o : Opened old (some st, ps)) where
  with_replica-Replicated :
      (x : Option ℕ × Pools) → Connected ps x → Replicated old (with_replica st x)
  with_replica-Replicated (none, ps') c = tt
  with_replica-Replicated (some id, ps') c = (
    record {
      live = c.2 ∙ ap (λ i. i ∷ ps.live) (sym c.0) ∙ ap (λ l. id ∷ l) (o.0.live ∙ (rw o.1 refl));
      first = o.0.first;
      next = c.0 ∙ o.3;
    },
    refl,
  )

  pub enable_read_replica-Replicated :
      (pgx : Pgx) (url : String) → Replicated old (enable_read_replica pgx url st ps)
  unfolding enable_read_replica
  enable_read_replica-Replicated pgx url =
      with_replica-Replicated (connect pgx url ps) (connect-Connected pgx url ps o.2)
