-- ===== src/Store/Reliably.antt =====
-- Contracts for a network that delivers every reply, without a read replica: what a query answers,
-- its errors among the answers, and what the tables are then. One rule for each way to build one.
use taskflow.Common.{ℤ, ◌≡◌, refl, sym, subst, List, [], ◌∷◌, Option, none, All, In, here, there}
use taskflow.Store.Tables.{Database}
use taskflow.Store.Query.{
  Error, Result, ok, err, Reply, delivered, refused, lost, RoundTrip, World, Query, return, raise,
  quiet, ◌>>=◌, on_error, attempt, and_then, handle, advance, round_trip, applied, answered,
  Statement, exec_at, exec, Querier, select, source, Ending, commit, abandon, committed, ended,
  begun, transaction,
}
use taskflow.Store.Ensures.{source_alone}

-- Every reply of the script is delivered, and each of its entries satisfies `N`, as does the entry of
-- an empty script.
pub record Serves (N : RoundTrip → Type 0) (replica : Option Database) (script : List RoundTrip)
    : Type 0 where
  pub alone : replica ≡ none
  pub replies : All (λ (t : RoundTrip). (t.reply ≡ delivered) × N t) script
  pub rest : N quiet

abbrev pub Drawing : (RoundTrip → Type 0) → World → Type 0
Drawing N w = Serves N w.replica w.script

abbrev pub Anything : RoundTrip → Type 0
Anything t = Unit {0}

abbrev pub Reliable : World → Type 0
Reliable w = Drawing Anything w

abbrev pub OutcomeOn :
    {A : Type 0} → (RoundTrip → Type 0) → (Result A → Database → Type 0) → Result A × World → Type 0
OutcomeOn N Q (a, w) = Drawing N w × Q a w.db

abbrev pub Outcome : {A : Type 0} → (Result A → Database → Type 0) → Result A × World → Type 0
Outcome Q r = OutcomeOn Anything Q r

-- From `P`, the query answers some `a` with `Q a`, where what the server draws satisfies `N`.
pub record ReliablyOn {A : Type 0} (N : RoundTrip → Type 0) (P : Database → Type 0) (q : Query A)
    (Q : Result A → Database → Type 0) : Type 0 where
  pub at : (w : World) → Drawing N w → P w.db → OutcomeOn N Q (q w)

-- The same, whatever it draws.
abbrev pub Reliably :
    {A : Type 0} → (Database → Type 0) → Query A → (Result A → Database → Type 0) → Type 0
Reliably P q Q = ReliablyOn Anything P q Q

-- How the body of a transaction that began at `old` ends.
abbrev pub Settled :
    {A : Type 0} → (Result A → Database → Type 0) → Database → Result (Ending A) → Database → Type 0
Settled Q old (ok (commit a)) d = Q (ok a) d
Settled Q old (ok (abandon a)) d = Q (ok a) old
Settled Q old (err x) d = Q (err x) old

-- An entry of the script, or the entry of an empty one.
abbrev pub IsDrawn : World → RoundTrip → Type 0
IsDrawn w t = In t (quiet ∷ w.script)

all_drawn :
    (ts us : List RoundTrip)
    → ((t : RoundTrip) → In t ts → In t us)
    → All (λ (t : RoundTrip). (t.reply ≡ delivered) × Unit {0}) ts
    → All (λ (t : RoundTrip). (t.reply ≡ delivered) × In t us) ts
all_drawn [] us h a = tt
all_drawn (t ∷ ts) us h a = ((a.0.0, h t (here refl)), all_drawn ts us (λ x m. h x (there m)) a.1)

-- What the server draws in the course of a query is in the script.
pub Reliable-IsDrawn : (w : World) → Reliable w → Drawing (IsDrawn w) w
Reliable-IsDrawn w h = record {
  alone = h.alone;
  replies = all_drawn w.script (quiet ∷ w.script) (λ t m. there m) h.replies;
  rest = here refl;
}

-- What a statement leads to: its rows if it is carried out, its error if not.
abbrev pub StatementLeads :
    {A : Type 0} → (Result A → Database → Type 0) → Database → Result (A × Database) → Type 0
StatementLeads Q d (ok (a, d')) = Q (ok a) d'
StatementLeads Q d (err x) = Q (err x) d

abbrev Delivery : (RoundTrip → Type 0) → RoundTrip × World → Database → Type 0
Delivery N (t, w) d = (t.reply ≡ delivered) × Drawing N w × (w.db ≡ d) × N t

advance-Delivery :
    {N : RoundTrip → Type 0} (w : World) (ts : List RoundTrip)
    → Drawing N w
    → All (λ (t : RoundTrip). (t.reply ≡ delivered) × N t) ts
    → Delivery N (advance w ts) w.db
advance-Delivery w [] h a = (refl, h, refl, h.rest)
advance-Delivery w (t ∷ ts) h a =
    (a.0.0, record { alone = h.alone; replies = a.1; rest = h.rest }, refl, a.0.1)

pub round_trip-Delivery :
    {N : RoundTrip → Type 0} (w : World) → Drawing N w → Delivery N (round_trip w) w.db
unfolding round_trip
round_trip-Delivery w h = advance-Delivery w w.script h h.replies

module _ {N : RoundTrip → Type 0} {A : Type 0} (Q : Result A → Database → Type 0) where
  pub applied-Outcome :
      (y : Reply) (r : Result (A × Database)) (w : World)
      → y ≡ delivered
      → Drawing N w
      → StatementLeads Q w.db r
      → OutcomeOn N Q (applied y r w)
  applied-Outcome delivered (ok (a, d)) w e k h = (k, h)
  applied-Outcome delivered (err x) w e k h = (k, h)
  applied-Outcome refused r w e k h = cc
  applied-Outcome lost r w e k h = cc

  answered-Outcome :
      (y : Reply) (r : Result A) (w : World)
      → y ≡ delivered
      → Drawing N w
      → Q r w.db
      → OutcomeOn N Q (answered y r w)
  answered-Outcome delivered r w e k h = (k, h)
  answered-Outcome refused r w e k h = cc
  answered-Outcome lost r w e k h = cc

  committed-Outcome :
      (y : Reply) (old : Database) (a : A) (w : World)
      → y ≡ delivered
      → Drawing N w
      → Q (ok a) w.db
      → OutcomeOn N Q (committed y old a w)
  committed-Outcome delivered old a w e k h = (k, h)
  committed-Outcome refused old a w e k h = cc
  committed-Outcome lost old a w e k h = cc

  ended-Outcome :
      (old : Database) (r : Result (Ending A) × World)
      → OutcomeOn N (Settled Q old) r
      → OutcomeOn N Q (ended old r)
  ended-Outcome old (ok (commit a), w) (k, h) =
      let (y, k', e, n) = round_trip-Delivery w k in
      let (t, w') = round_trip w in
      committed-Outcome t.reply old a w' y k' (subst (Q (ok a)) (sym e) h)
  ended-Outcome old (ok (abandon a), w) (k, h) = (k, h)
  ended-Outcome old (err x, w) (k, h) = (k, h)

  pub begun-Outcome :
      (y : Reply) (body : ℤ → Query (Ending A)) (w : World)
      → y ≡ delivered
      → OutcomeOn N (Settled Q w.db) (body w.now w)
      → OutcomeOn N Q (begun y body w)
  begun-Outcome delivered body w e h = ended-Outcome w.db (body w.now w) h
  begun-Outcome refused body w e h = cc
  begun-Outcome lost body w e h = cc

module _ {N : RoundTrip → Type 0} {A : Type 0} {P : Database → Type 0}
    {Q : Result A → Database → Type 0} where
  pub Reliably-return : (a : A) → ((d : Database) → P d → Q (ok a) d) → ReliablyOn N P (return a) Q
  unfolding return
  Reliably-return a h = record { at = λ w k p. (k, h w.db p) }

  pub Reliably-raise :
      (x : Error) → ((d : Database) → P d → Q (err x) d) → ReliablyOn N P (raise x) Q
  unfolding raise
  Reliably-raise x h = record { at = λ w k p. (k, h w.db p) }

  pub ReliablyOn-exec :
      (stmt : Statement A)
      → ((now : ℤ) (t : RoundTrip) (d : Database) → N t → P d → StatementLeads Q d (stmt now t d))
      → ReliablyOn N P (exec stmt) Q
  unfolding exec
  ReliablyOn-exec stmt h = record {
    at = λ w k p.
        let (y, k', e, n) = round_trip-Delivery w k in
        let (t, w') = round_trip w in
        applied-Outcome Q t.reply (stmt w'.now t w'.db) w' y k'
          (h w'.now t w'.db n (subst P (sym e) p));
  }

  pub ReliablyOn-exec_at :
      (now : ℤ) (stmt : Statement A)
      → ((t : RoundTrip) (d : Database) → N t → P d → StatementLeads Q d (stmt now t d))
      → ReliablyOn N P (exec_at now stmt) Q
  unfolding exec_at
  ReliablyOn-exec_at now stmt h = record {
    at = λ w k p.
        let (y, k', e, n) = round_trip-Delivery w k in
        let (t, w') = round_trip w in
        applied-Outcome Q t.reply (stmt now t w'.db) w' y k' (h t w'.db n (subst P (sym e) p));
  }

  pub Reliably-exec :
      (stmt : Statement A)
      → ((now : ℤ) (t : RoundTrip) (d : Database) → P d → StatementLeads Q d (stmt now t d))
      → ReliablyOn N P (exec stmt) Q
  Reliably-exec stmt h = ReliablyOn-exec stmt (λ now t d n p. h now t d p)

  pub Reliably-exec_at :
      (now : ℤ) (stmt : Statement A)
      → ((t : RoundTrip) (d : Database) → P d → StatementLeads Q d (stmt now t d))
      → ReliablyOn N P (exec_at now stmt) Q
  Reliably-exec_at now stmt h = ReliablyOn-exec_at now stmt (λ t d n p. h t d p)

  pub Reliably-select :
      (q : Querier) (read : Database → Result A)
      → ((d : Database) → P d → Q (read d) d)
      → ReliablyOn N P (select q read) Q
  unfolding select
  Reliably-select q read h = record {
    at = λ w k p.
        let (y, k', e, n) = round_trip-Delivery w k in
        let (t, w') = round_trip w in
        answered-Outcome Q t.reply (read (source q w')) w' y k' (
          subst (λ x. Q (read x) w'.db) (sym (source_alone q w' k'.alone))
            (h w'.db (subst P (sym e) p)));
  }

  pub Reliably-transaction :
      (body : ℤ → Query (Ending A))
      → ((now : ℤ) (old : Database)
          → P old
          → ReliablyOn N (λ d. d ≡ old) (body now) (Settled Q old))
      → ReliablyOn N P (transaction body) Q
  unfolding transaction
  Reliably-transaction body h = record {
    at = λ w k p.
        let (y, k', e, n) = round_trip-Delivery w k in
        let (t, w') = round_trip w in
        begun-Outcome Q t.reply body w' y ((h w'.now w'.db (subst P (sym e) p)).at w' k' refl);
  }

module _ {N : RoundTrip → Type 0} {A B : Type 0} (Q : Result A → Database → Type 0)
    (Q' : Result B → Database → Type 0) where
  pub and_then-Outcome :
      (f : A → Query B) (r : Result A × World)
      → ((a : A) → ReliablyOn N (Q (ok a)) (f a) Q')
      → ((x : Error) (d : Database) → Q (err x) d → Q' (err x) d)
      → OutcomeOn N Q r
      → OutcomeOn N Q' (and_then r f)
  and_then-Outcome f (ok a, w) h g (k, q) = (h a).at w k q
  and_then-Outcome f (err x, w) h g (k, q) = (k, g x w.db q)

module _ {N : RoundTrip → Type 0} {A B : Type 0} {P : Database → Type 0} where
  pub Reliably-bind :
      {Q : Result A → Database → Type 0} {Q' : Result B → Database → Type 0} (q : Query A)
      (f : A → Query B)
      → ReliablyOn N P q Q
      → ((a : A) → ReliablyOn N (Q (ok a)) (f a) Q')
      → ((x : Error) (d : Database) → Q (err x) d → Q' (err x) d)
      → ReliablyOn N P (q >>= f) Q'
  unfolding ◌>>=◌
  Reliably-bind {Q} {Q'} q f hq hf g = record {
    at = λ w k p. and_then-Outcome Q Q' f (q w) hf g (hq.at w k p);
  }

module _ {N : RoundTrip → Type 0} {A : Type 0} (Q Q' : Result A → Database → Type 0) where
  handle-Outcome :
      (f : Error → Query A) (r : Result A × World)
      → ((a : A) (d : Database) → Q (ok a) d → Q' (ok a) d)
      → ((x : Error) → ReliablyOn N (Q (err x)) (f x) Q')
      → OutcomeOn N Q r
      → OutcomeOn N Q' (handle r f)
  handle-Outcome f (ok a, w) g h (k, q) = (k, g a w.db q)
  handle-Outcome f (err x, w) g h (k, q) = (h x).at w k q

module _ {N : RoundTrip → Type 0} {A : Type 0} {P : Database → Type 0}
    {Q Q' : Result A → Database → Type 0} where
  pub Reliably-on_error :
      (q : Query A) (f : Error → Query A)
      → ReliablyOn N P q Q
      → ((a : A) (d : Database) → Q (ok a) d → Q' (ok a) d)
      → ((x : Error) → ReliablyOn N (Q (err x)) (f x) Q')
      → ReliablyOn N P (on_error q f) Q'
  unfolding on_error
  Reliably-on_error q f hq g h = record {
    at = λ w k p. handle-Outcome Q Q' f (q w) g h (hq.at w k p);
  }

  pub Reliably-mono :
      {P' : Database → Type 0} {q : Query A}
      → ((d : Database) → P' d → P d)
      → ((r : Result A) (d : Database) → Q r d → Q' r d)
      → ReliablyOn N P q Q
      → ReliablyOn N P' q Q'
  Reliably-mono {q} f g h = record {
    at = λ w k p. let (k', x) = h.at w k (f w.db p) in (k', g (q w).0 (q w).1.db x);
  }

-- The answer of an attempt is what the query answers.
abbrev pub Answered :
    {A : Type 0} → (Result A → Database → Type 0) → Result (Result A) → Database → Type 0
Answered Q (ok r) d = Q r d
Answered Q (err x) d = ⊥

module _ {N : RoundTrip → Type 0} {A : Type 0} {P : Database → Type 0}
    {Q : Result A → Database → Type 0} where
  pub Reliably-attempt :
      (q : Query A) → ReliablyOn N P q Q → ReliablyOn N P (attempt q) (Answered Q)
  unfolding attempt
  Reliably-attempt q h = record { at = h.at }

module _ {N : RoundTrip → Type 0} {A B : Type 0} {P : Database → Type 0}
    {Q : Result A → Database → Type 0} where
  -- `x, err := q`, and what comes after it.
  pub Reliably-then :
      {Q' : Result B → Database → Type 0} (q : Query A) (f : Result A → Query B)
      → ReliablyOn N P q Q
      → ((r : Result A) → ReliablyOn N (Q r) (f r) Q')
      → ReliablyOn N P (attempt q >>= f) Q'
  Reliably-then q f hq hf = Reliably-bind _ f (Reliably-attempt q hq) hf (λ x d e. absurd e)

module _ {N : RoundTrip → Type 0} {A B : Type 0} {P P' : Database → Type 0}
    {Q : Result B → Database → Type 0} where
  -- Where the answer is known.
  pub Reliably-known :
      (a : Result A) (q : Query A) (f : Result A → Query B)
      → ReliablyOn N P q (λ r d. (r ≡ a) × P' d)
      → ReliablyOn N P' (f a) Q
      → ReliablyOn N P (attempt q >>= f) Q
  Reliably-known a q f hq hf =
      Reliably-then q f hq (λ r. record {
        at = λ w k h. (subst (λ x. ReliablyOn N P' (f x) Q) (sym h.0) hf).at w k h.1;
      })
