-- ===== src/Store/Keeps.antt =====
-- Invariants of the primary database: one rule for each way to build a query that keeps them.
use taskflow.Common.{ℤ, ◌≡◌, sym, subst, Option, Bool, true, false, if◌then◌else◌}
use taskflow.Store.Tables.{Database}
use taskflow.Store.Query.{
  Error, Result, ok, err, RoundTrip, Query, return, raise, ◌>>=◌, on_error, attempt, Statement,
  exec_at, exec, Querier, select, Ending, commit, abandon, transaction,
}
use taskflow.Store.Post.{Ended, Either}
use taskflow.Store.Ensures.{
  Ensures, Keeps, Ensures-return, Ensures-raise, Ensures-on_error, Ensures-exec, Ensures-exec_at,
  Ensures-select, Ensures-bind, Ensures-attempt, Ensures-mono, Ensures-transaction,
}

module _ {A : Type 0} (P : Database → Type 0) where
  Ended-keep :
      (old : Database) → P old → (x : Ending A) (d : Database) → P d → Ended (λ _. P) old x d
  Ended-keep old o (commit a) d p = p
  Ended-keep old o (abandon a) d p = o

  Either-keep : (x : Result A) (d : Database) → Either (λ _. P) (λ _. P) x d → P d
  Either-keep (ok a) d p = p
  Either-keep (err e) d p = p

module _ {A : Type 0} {R : Option Database} {P : Database → Type 0} where
  pub Keeps-return : (a : A) → Keeps R P (return a)
  Keeps-return a = Ensures-return a (λ d p. p)

  pub Keeps-raise : (e : Error) → Keeps R P (raise {A = A} e)
  Keeps-raise e = Ensures-raise e (λ d p. p)

  pub Keeps-select : (q : Querier) (read : Database → Result A) → Keeps R P (select q read)
  Keeps-select q read = Ensures-select q read (λ d a p. p) (λ d x p. p)

  pub Keeps-on_error :
      (q : Query A) (f : Error → Query A)
      → Keeps R P q
      → ((e : Error) → Keeps R P (f e))
      → Keeps R P (on_error q f)
  Keeps-on_error q f hq hf = Ensures-on_error q f hq hf

  pub Keeps-if :
      (b : Bool) (q r : Query A) → Keeps R P q → Keeps R P r → Keeps R P (if b then q else r)
  Keeps-if true q r hq hr = hq
  Keeps-if false q r hq hr = hr

  -- An attempt does not fail.
  pub attempt-Ensures :
      {E : Error → Database → Type 0} (q : Query A)
      → Keeps R P q
      → Ensures R P (attempt q) (λ _. P) E
  attempt-Ensures q h = Ensures-mono (λ d p. p) (Either-keep P) (λ x d p. p) (Ensures-attempt q h)

  pub Keeps-attempt : (q : Query A) → Keeps R P q → Keeps R P (attempt q)
  Keeps-attempt q h = attempt-Ensures q h

  pub Keeps-exec :
      (stmt : Statement A)
      → ((now : ℤ) (t : RoundTrip) (d : Database) (a : A) (d' : Database)
          → P d
          → stmt now t d ≡ ok (a, d')
          → P d')
      → Keeps R P (exec stmt)
  Keeps-exec stmt h = Ensures-exec stmt h (λ a d p. p) (λ now t d x p e. p) (λ d p. p)

  pub Keeps-exec_at :
      (now : ℤ) (stmt : Statement A)
      → ((t : RoundTrip) (d : Database) (a : A) (d' : Database)
          → P d
          → stmt now t d ≡ ok (a, d')
          → P d')
      → Keeps R P (exec_at now stmt)
  Keeps-exec_at now stmt h = Ensures-exec_at now stmt h (λ a d p. p) (λ t d x p e. p) (λ d p. p)

  -- A statement that is refused whatever the tables.
  pub Keeps-refused : (x : Error) → Keeps R P (exec {A = A} (λ now t d. err x))
  Keeps-refused x = Keeps-exec _ (λ now t d a d' p e. cc)

  -- The body may break the invariant where it fails, since it is rolled back.
  pub Keeps-transaction :
      (body : ℤ → Query (Ending A))
      → ((now : ℤ) → Ensures R P (body now) (λ _. P) (λ _ _. Unit {0}))
      → Keeps R P (transaction body)
  Keeps-transaction body h =
      Ensures-transaction body
        (λ now old o.
          Ensures-mono (λ d e. subst P (sym e) o) (Ended-keep P old o) (λ x d u. o) (h now))
        (λ a d p. p) (λ d p. p)

module _ {A B : Type 0} {R : Option Database} {P : Database → Type 0} where
  pub Keeps-bind :
      (q : Query A) (f : A → Query B)
      → Keeps R P q
      → ((a : A) → Keeps R P (f a))
      → Keeps R P (q >>= f)
  Keeps-bind q f hq hf = Ensures-bind q f hq hf

pub ruleset keeps_rules =
    (Keeps-return, Keeps-raise, Keeps-select, Keeps-on_error, Keeps-if, Keeps-attempt, Keeps-bind)
