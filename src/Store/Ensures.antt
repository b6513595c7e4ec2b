-- ===== src/Store/Ensures.antt =====
-- Contracts of queries: what the primary database satisfies when a query returns and when it
-- fails, whatever the network does. One rule for each way to build a query.
use taskflow.Common.{ℤ, ◌≡◌, refl, sym, ap, ◌∙◌, Option, none, arith}
use taskflow.Store.Tables.{Database}
use taskflow.Store.Query.{
  Error, unavailable, Result, ok, err, RoundTrip, World, Query, return, raise, ◌>>=◌, on_error,
  attempt, round_trip, Statement, exec_at, exec, Querier, primary, reader, select, source, Ending,
  transaction,
}
use taskflow.Store.Post.{
  Post, round_trip_db, round_trip_replica, Ended, Either, Post-applied, Post-answered, Post-begun,
  Post-and_then, Post-handle, Post-attempt, Post-mono, Post-both,
}

-- From `P`, the query returns some `a` with `Q a`, or fails with `E`.
pub record Ensures {A : Type 0} (R : Option Database) (P : Database → Type 0) (q : Query A)
    (Q : A → Database → Type 0) (E : Error → Database → Type 0) : Type 0 where
  pub at : (w : World) → w.replica ≡ R → P w.db → Post R Q E (q w)

-- The query keeps `P`, whether it returns or fails.
abbrev pub Keeps : {A : Type 0} → Option Database → (Database → Type 0) → Query A → Type 0
Keeps R P q = Ensures R P q (λ _. P) (λ _. P)

module _ {A : Type 0} {R : Option Database} {P : Database → Type 0} {Q : A → Database → Type 0}
    {E : Error → Database → Type 0} where
  pub Ensures-return : (a : A) → ((d : Database) → P d → Q a d) → Ensures R P (return a) Q E
  unfolding return
  Ensures-return a h = record { at = λ w k p. (k, h w.db p) }

  pub Ensures-raise : (e : Error) → ((d : Database) → P d → E e d) → Ensures R P (raise e) Q E
  unfolding raise
  Ensures-raise e h = record { at = λ w k p. (k, h w.db p) }

  pub Ensures-on_error :
      {F : Error → Database → Type 0} (q : Query A) (f : Error → Query A)
      → Ensures R P q Q F
      → ((e : Error) → Ensures R (F e) (f e) Q E)
      → Ensures R P (on_error q f) Q E
  unfolding on_error
  Ensures-on_error {F} q f hq hf = record {
    at = λ w k p. Post-handle R Q E F f (q w) (λ e w' k' x. (hf e).at w' k' x) (hq.at w k p);
  }

  -- A statement outside a transaction may have been carried out although its caller sees an error.
  pub Ensures-exec :
      (stmt : Statement A)
      → ((now : ℤ) (t : RoundTrip) (d : Database) (a : A) (d' : Database)
          → P d
          → stmt now t d ≡ ok (a, d')
          → Q a d')
      → ((a : A) (d : Database) → Q a d → E unavailable d)
      → ((now : ℤ) (t : RoundTrip) (d : Database) (x : Error) → P d → stmt now t d ≡ err x → E x d)
      → ((d : Database) → P d → E unavailable d)
      → Ensures R P (exec stmt) Q E
  unfolding exec
  Ensures-exec stmt h g e u = record {
    at = λ w k p.
        let k' = round_trip_replica w ∙ k in
        let p' = rw (← round_trip_db w) at p in
        let (t, w') = round_trip w in
        Post-applied R Q E t.reply (stmt w'.now t w'.db) w' k' (λ a d x. h w'.now t w'.db a d p' x)
          g (λ x r. e w'.now t w'.db x p' r) (u w'.db p');
  }

  pub Ensures-exec_at :
      (now : ℤ) (stmt : Statement A)
      → ((t : RoundTrip) (d : Database) (a : A) (d' : Database)
          → P d
          → stmt now t d ≡ ok (a, d')
          → Q a d')
      → ((a : A) (d : Database) → Q a d → E unavailable d)
      → ((t : RoundTrip) (d : Database) (x : Error) → P d → stmt now t d ≡ err x → E x d)
      → ((d : Database) → P d → E unavailable d)
      → Ensures R P (exec_at now stmt) Q E
  unfolding exec_at
  Ensures-exec_at now stmt h g e u = record {
    at = λ w k p.
        let k' = round_trip_replica w ∙ k in
        let p' = rw (← round_trip_db w) at p in
        let (t, w') = round_trip w in
        Post-applied R Q E t.reply (stmt now t w'.db) w' k' (λ a d x. h t w'.db a d p' x) g
          (λ x r. e t w'.db x p' r) (u w'.db p');
  }

  -- A read of the primary sees what the query's `P` speaks of.
  pub Ensures-select_primary :
      (read : Database → Result A)
      → ((d : Database) (a : A) → P d → read d ≡ ok a → Q a d)
      → ((d : Database) (x : Error) → P d → read d ≡ err x → E x d)
      → ((d : Database) → P d → E unavailable d)
      → Ensures R P (select primary read) Q E
  unfolding select source
  Ensures-select_primary read h e u = record {
    at = λ w k p.
        let k' = round_trip_replica w ∙ k in
        let p' = rw (← round_trip_db w) at p in
        let (t, w') = round_trip w in
        Post-answered R Q E t.reply (read w'.db) w' k' (λ a x. h w'.db a p' x)
          (λ x r. e w'.db x p' r) (u w'.db p');
  }

  -- A read of the pool that readPool() picks may see a stale replica.
  pub Ensures-select :
      (q : Querier) (read : Database → Result A)
      → ((d : Database) (a : A) → P d → Q a d)
      → ((d : Database) (x : Error) → P d → E x d)
      → Ensures R P (select q read) Q E
  unfolding select
  Ensures-select q read h e = record {
    at = λ w k p.
        let k' = round_trip_replica w ∙ k in
        let p' = rw (← round_trip_db w) at p in
        let (t, w') = round_trip w in
        Post-answered R Q E t.reply (read (source q w')) w' k' (λ a x. h w'.db a p')
          (λ x r. e w'.db x p') (e w'.db unavailable p');
  }

  -- What a read gives whatever it sees, a stale replica too.
  pub Ensures-select_any :
      (q : Querier) (read : Database → Result A)
      → ((d seen : Database) (a : A) → P d → read seen ≡ ok a → Q a d)
      → ((d : Database) (x : Error) → P d → E x d)
      → Ensures R P (select q read) Q E
  unfolding select
  Ensures-select_any q read h e = record {
    at = λ w k p.
        let k' = round_trip_replica w ∙ k in
        let p' = rw (← round_trip_db w) at p in
        let (t, w') = round_trip w in
        Post-answered R Q E t.reply (read (source q w')) w' k' (λ a x. h w'.db _ a p' x)
          (λ x r. e w'.db x p') (e w'.db unavailable p');
  }

pub source_alone : (q : Querier) (w : World) → w.replica ≡ none → source q w ≡ w.db
unfolding source
source_alone primary w k = refl
source_alone reader w k = ground arith

module _ {A : Type 0} {P : Database → Type 0} {Q : A → Database → Type 0}
    {E : Error → Database → Type 0} where
  -- Where no replica is configured every read sees the primary.
  pub Ensures-select_alone :
      (q : Querier) (read : Database → Result A)
      → ((d : Database) (a : A) → P d → read d ≡ ok a → Q a d)
      → ((d : Database) (x : Error) → P d → read d ≡ err x → E x d)
      → ((d : Database) → P d → E unavailable d)
      → Ensures none P (select q read) Q E
  unfolding select
  Ensures-select_alone q read h e u = record {
    at = λ w k p.
        let k' = round_trip_replica w ∙ k in
        let p' = rw (← round_trip_db w) at p in
        let (t, w') = round_trip w in
        let same = ap read (source_alone q w' k') in
        Post-answered none Q E t.reply (read (source q w')) w' k'
          (λ a x. h w'.db a p' (sym same ∙ x)) (λ x r. e w'.db x p' (sym same ∙ r)) (u w'.db p');
  }

module _ {A B : Type 0} {R : Option Database} {P : Database → Type 0}
    {E : Error → Database → Type 0} where
  pub Ensures-bind :
      {Q : A → Database → Type 0} {Q' : B → Database → Type 0} (q : Query A) (f : A → Query B)
      → Ensures R P q Q E
      → ((a : A) → Ensures R (Q a) (f a) Q' E)
      → Ensures R P (q >>= f) Q' E
  unfolding ◌>>=◌
  Ensures-bind {Q} {Q'} q f hq hf = record {
    at = λ w k p. Post-and_then R Q Q' E f (q w) (λ a w' k' x. (hf a).at w' k' x) (hq.at w k p);
  }

module _ {A : Type 0} {R : Option Database} {P : Database → Type 0} {Q : A → Database → Type 0}
    {E : Error → Database → Type 0} where
  -- The attempt itself never fails.
  pub Ensures-attempt :
      {F : Error → Database → Type 0} (q : Query A)
      → Ensures R P q Q E
      → Ensures R P (attempt q) (Either Q E) F
  unfolding attempt
  Ensures-attempt q h = record { at = λ w k p. Post-attempt R Q E (q w) (h.at w k p) }

  pub Ensures-mono :
      {P' : Database → Type 0} {Q' : A → Database → Type 0} {E' : Error → Database → Type 0}
      {q : Query A}
      → ((d : Database) → P' d → P d)
      → ((a : A) (d : Database) → Q a d → Q' a d)
      → ((x : Error) (d : Database) → E x d → E' x d)
      → Ensures R P q Q E
      → Ensures R P' q Q' E'
  Ensures-mono {Q'} {E'} {q} f g e h = record {
    at = λ w k p. Post-mono R Q E Q' E' (q w) g e (h.at w k (f w.db p));
  }

module _ {A : Type 0} {R : Option Database} {P : Database → Type 0} {Q : A → Database → Type 0}
    {E : Error → Database → Type 0} where
  -- A transaction that fails leaves the database as it was, or the reply to its COMMIT was lost.
  pub Ensures-transaction :
      (body : ℤ → Query (Ending A))
      → ((now : ℤ) (old : Database)
          → P old
          → Ensures R (λ d. d ≡ old) (body now) (Ended Q old) (λ x _. E x old))
      → ((a : A) (d : Database) → Q a d → E unavailable d)
      → ((d : Database) → P d → E unavailable d)
      → Ensures R P (transaction body) Q E
  unfolding transaction
  Ensures-transaction body h g e = record {
    at = λ w k p.
        let k' = round_trip_replica w ∙ k in
        let p' = rw (← round_trip_db w) at p in
        let (t, w') = round_trip w in
        Post-begun R Q E t.reply body w' k' ((h w'.now w'.db p').at w' k' refl) g (e w'.db p');
  }

  -- Two contracts at once.
  pub Ensures-both :
      {P' : Database → Type 0} {Q' : A → Database → Type 0} {E' : Error → Database → Type 0}
      (q : Query A)
      → Ensures R P q Q E
      → Ensures R P' q Q' E'
      → Ensures R (λ d. P d × P' d) q (λ a d. Q a d × Q' a d) (λ x d. E x d × E' x d)
  Ensures-both {Q'} {E'} q h h' = record {
    at = λ w k p. Post-both R Q Q' E E' (q w) (h.at w k p.0) (h'.at w k p.1);
  }
