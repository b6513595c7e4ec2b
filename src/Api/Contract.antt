-- ===== src/Api/Contract.antt =====
-- Contracts of handlers: what the response and the primary database satisfy together.
use taskflow.Common.{◌≡◌, Option}
use taskflow.Store.Tables.{Database}
use taskflow.Store.Query.{Error, Result, ok, err, World, Query}
use taskflow.Store.Post.{Post}
use taskflow.Store.Ensures.{Ensures}
use taskflow.Store.Reliably.{Reliable, Reliably}
use taskflow.Api.Http.{Response}
use taskflow.Api.Handlers.{Respond, call, reply}

-- `K` is what is known of the replica and the network, before and after.
pub record Responds (K : World → Type 0) (P : Database → Type 0) (h : Respond World)
    (Q : Response → Database → Type 0) : Type 0 where
  pub at : (w : World) → K w → P w.db → K (h w).1 × Q (h w).0 (h w).1.db

module _ {K : World → Type 0} {P : Database → Type 0} {Q : Response → Database → Type 0} where
  pub Responds-reply : (r : Response) → ((d : Database) → P d → Q r d) → Responds K P (reply r) Q
  Responds-reply r h = record { at = λ w k p. (k, h w.db p) }

abbrev pub HasReplica : Option Database → World → Type 0
HasReplica R w = w.replica ≡ R

module _ {A : Type 0} {R : Option Database} {Qa : A → Database → Type 0}
    {E : Error → Database → Type 0} {Q : Response → Database → Type 0} where
  pub called :
      (f : Result A → Respond World) (r : Result A × World)
      → ((a : A) → Responds (HasReplica R) (Qa a) (f (ok a)) Q)
      → ((x : Error) → Responds (HasReplica R) (E x) (f (err x)) Q)
      → Post R Qa E r
      → let (answer, w) = f r.0 r.1 in HasReplica R w × Q answer w.db
  called f (ok a, w) g h (k, q) = (g a).at w k q
  called f (err x, w) g h (k, q) = (h x).at w k q

  pub Responds-call :
      {P : Database → Type 0} (q : Query A) (f : Result A → Respond World)
      → Ensures R P q Qa E
      → ((a : A) → Responds (HasReplica R) (Qa a) (f (ok a)) Q)
      → ((x : Error) → Responds (HasReplica R) (E x) (f (err x)) Q)
      → Responds (HasReplica R) P (call q f) Q
  Responds-call q f c g h = record { at = λ w k p. called f (q w) g h (c.at w k p) }

module _ {A : Type 0} {P : Database → Type 0} {Qa : Result A → Database → Type 0}
    {Q : Response → Database → Type 0} where
  pub Responds-call-Reliable :
      (q : Query A) (f : Result A → Respond World)
      → Reliably P q Qa
      → ((r : Result A) → Responds Reliable (Qa r) (f r) Q)
      → Responds Reliable P (call q f) Q
  Responds-call-Reliable q f c g = record {
    at = λ w k p. let (k', x) = c.at w k p in (g (q w).0).at (q w).1 k' x;
  }
