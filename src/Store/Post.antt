-- ===== src/Store/Post.antt =====
-- The outcome of a query, and what each way to carry a statement out makes of it.
use taskflow.Common.{ℤ, ◌≡◌, refl, ◌∙◌, List, [], ◌∷◌, Option}
use taskflow.Store.Tables.{Database}
use taskflow.Store.Query.{
  Error, unavailable, Query, handle, begun, Result, ok, err, Reply, delivered, refused, lost,
  RoundTrip, World, and_then, advance, round_trip, applied, answered, Ending, commit, abandon,
  committed, ended,
}

-- The query returned some `a` with `Q a`, or failed with some `e` with `E e`, as the primary
-- database now is; the replica is still `R`.
abbrev pub Post :
    {A : Type 0}
    → Option Database
    → (A → Database → Type 0)
    → (Error → Database → Type 0)
    → Result A × World
    → Type 0
Post R Q E (ok a, w) = (w.replica ≡ R) × Q a w.db
Post R Q E (err e, w) = (w.replica ≡ R) × E e w.db

advance_db : (w : World) (ts : List RoundTrip) → (advance w ts).1.db ≡ w.db
advance_db w [] = refl
advance_db w (t ∷ ts) = refl

advance_replica : (w : World) (ts : List RoundTrip) → (advance w ts).1.replica ≡ w.replica
advance_replica w [] = refl
advance_replica w (t ∷ ts) = refl

pub round_trip_db : (w : World) → (round_trip w).1.db ≡ w.db
unfolding round_trip
round_trip_db w = advance_db w w.script

pub round_trip_replica : (w : World) → (round_trip w).1.replica ≡ w.replica
unfolding round_trip
round_trip_replica w = advance_replica w w.script

-- How the body of a transaction that began at `old` ends.
abbrev pub Ended : {A : Type 0} → (A → Database → Type 0) → Database → Ending A → Database → Type 0
Ended Q old (commit a) d = Q a d
Ended Q old (abandon a) d = Q a old

-- What a caller that looks at the error itself may use.
abbrev pub Either :
    {A : Type 0}
    → (A → Database → Type 0)
    → (Error → Database → Type 0)
    → Result A
    → Database
    → Type 0
Either Q E (ok a) d = Q a d
Either Q E (err e) d = E e d

module _ {A : Type 0} (R : Option Database) (Q : A → Database → Type 0)
    (E : Error → Database → Type 0) where
  pub Post-applied :
      (y : Reply) (r : Result (A × Database)) (w : World)
      → w.replica ≡ R
      → ((a : A) (d : Database) → r ≡ ok (a, d) → Q a d)
      → ((a : A) (d : Database) → Q a d → E unavailable d)
      → ((x : Error) → r ≡ err x → E x w.db)
      → E unavailable w.db
      → Post R Q E (applied y r w)
  Post-applied delivered (ok (a, d)) w k h g e u = (k, h a d refl)
  Post-applied delivered (err x) w k h g e u = (k, e x refl)
  Post-applied lost (ok (a, d)) w k h g e u = (k, g a d (h a d refl))
  Post-applied lost (err x) w k h g e u = (k, u)
  Post-applied refused r w k h g e u = (k, u)

  pub Post-answered :
      (y : Reply) (r : Result A) (w : World)
      → w.replica ≡ R
      → ((a : A) → r ≡ ok a → Q a w.db)
      → ((x : Error) → r ≡ err x → E x w.db)
      → E unavailable w.db
      → Post R Q E (answered y r w)
  Post-answered delivered (ok a) w k h e u = (k, h a refl)
  Post-answered delivered (err x) w k h e u = (k, e x refl)
  Post-answered refused r w k h e u = (k, u)
  Post-answered lost r w k h e u = (k, u)

  pub Post-committed :
      (y : Reply) (old : Database) (a : A) (w : World)
      → w.replica ≡ R
      → ((a : A) (d : Database) → Q a d → E unavailable d)
      → E unavailable old
      → Q a w.db
      → Post R Q E (committed y old a w)
  Post-committed delivered old a w k g e q = (k, q)
  Post-committed lost old a w k g e q = (k, g a w.db q)
  Post-committed refused old a w k g e q = (k, e)

module _ {A : Type 0} (R : Option Database) (Q : A → Database → Type 0)
    (E : Error → Database → Type 0) where
  pub Post-ended :
      (old : Database) (r : Result (Ending A) × World)
      → ((a : A) (d : Database) → Q a d → E unavailable d)
      → E unavailable old
      → Post R (Ended Q old) (λ x _. E x old) r
      → Post R Q E (ended old r)
  Post-ended old (ok (commit a), w) g e p =
      let (t, w') = round_trip w in
      Post-committed R Q E t.reply old a w' (round_trip_replica w ∙ p.0) g e
        (rw (← round_trip_db w) at p.1)
  Post-ended old (ok (abandon a), w) g e p = p
  Post-ended old (err x, w) g e p = p

  pub Post-begun :
      (y : Reply) (body : ℤ → Query (Ending A)) (w : World)
      → w.replica ≡ R
      → Post R (Ended Q w.db) (λ x _. E x w.db) (body w.now w)
      → ((a : A) (d : Database) → Q a d → E unavailable d)
      → E unavailable w.db
      → Post R Q E (begun y body w)
  Post-begun delivered body w k h g e = Post-ended w.db (body w.now w) g e h
  Post-begun refused body w k h g e = (k, e)
  Post-begun lost body w k h g e = (k, e)

  pub Post-attempt :
      (r : Result A × World) → Post R Q E r → (r.1.replica ≡ R) × Either Q E r.0 r.1.db
  Post-attempt (ok a, w) p = p
  Post-attempt (err e, w) p = p

  pub Post-mono :
      (Q' : A → Database → Type 0) (E' : Error → Database → Type 0) (r : Result A × World)
      → ((a : A) (d : Database) → Q a d → Q' a d)
      → ((x : Error) (d : Database) → E x d → E' x d)
      → Post R Q E r
      → Post R Q' E' r
  Post-mono Q' E' (ok a, w) g e p = (p.0, g a w.db p.1)
  Post-mono Q' E' (err x, w) g e p = (p.0, e x w.db p.1)

module _ {A : Type 0} (R : Option Database) (Q Q' : A → Database → Type 0)
    (E E' : Error → Database → Type 0) where
  pub Post-both :
      (r : Result A × World)
      → Post R Q E r
      → Post R Q' E' r
      → Post R (λ a d. Q a d × Q' a d) (λ x d. E x d × E' x d) r
  Post-both (ok a, w) p q = (p.0, (p.1, q.1))
  Post-both (err x, w) p q = (p.0, (p.1, q.1))

module _ {A B : Type 0} (R : Option Database) (Q : A → Database → Type 0)
    (Q' : B → Database → Type 0) (E : Error → Database → Type 0) where
  pub Post-and_then :
      (f : A → Query B) (r : Result A × World)
      → ((a : A) (w : World) → w.replica ≡ R → Q a w.db → Post R Q' E (f a w))
      → Post R Q E r
      → Post R Q' E (and_then r f)
  Post-and_then f (ok a, w) h p = h a w p.0 p.1
  Post-and_then f (err e, w) h p = p

module _ {A : Type 0} (R : Option Database) (Q : A → Database → Type 0)
    (E F : Error → Database → Type 0) where
  pub Post-handle :
      (f : Error → Query A) (r : Result A × World)
      → ((e : Error) (w : World) → w.replica ≡ R → F e w.db → Post R Q E (f e w))
      → Post R Q F r
      → Post R Q E (handle r f)
  Post-handle f (ok a, w) h p = p
  Post-handle f (err e, w) h p = h e w p.0 p.1
