-- ===== src/Lock/Cluster.antt =====
-- Electors of one lock, the steps they and Postgres take, and how many of them lead.
use taskflow.Common.{ℕ, ◌+◌, ◌≡◌, ◌≢◌, true, false, ◌==◌, if◌then◌else◌, Option, none, some}
use taskflow.Store.Query.{Reply}
use taskflow.Lock.{Sessions, Elector, Attempt, Answer, try_acquire, release, new_elector}

-- The schedulers' electors, by number, and the sessions of their database.
pub record Cluster : Type 0 where
  pub sessions : Sessions
  pub electors : ℕ → Elector

abbrev pub with_elector : ℕ → Elector → (ℕ → Elector) → ℕ → Elector
with_elector i e es j = if i == j then e else es j

abbrev pub moved : Cluster → ℕ → Sessions × Elector → Cluster
moved c i (srv, e) = record { sessions = srv; electors = with_elector i e c.electors }

abbrev pub after : Answer → Sessions × Elector
after (_, srv, e) = (srv, e)

abbrev pub opened : Sessions → Sessions
opened srv = record {
  holder = srv.holder;
  live = λ s. if s == srv.opened then true else srv.live s;
  opened = srv.opened + 1;
}

abbrev pub without : ℕ → Option (ℕ × ℕ) → Option (ℕ × ℕ)
without s none = none
without s (some (h, n)) = if h == s then none else some (h, n)

abbrev pub closed : ℕ → Sessions → Sessions
closed s srv = record {
  holder = without s srv.holder;
  live = λ t. if t == s then false else srv.live t;
  opened = srv.opened;
}

-- What the pools may give to elector `i`: an open session that no other elector has checked out.
abbrev pub Free : Cluster → ℕ → Option ℕ → Type 0
Free c i o =
    (s : ℕ)
    → o ≡ some s
    → (c.sessions.live s ≡ true) × ((j : ℕ) → i ≢ j → (c.electors j).conn ≢ some s)

-- Electors call TryAcquire and Release in any order, a session opens, or ends, whatever its
-- elector believes.
pub data Step : Cluster → Cluster → Type 0 where
  acquires :
      {c : Cluster} (i : ℕ) (a : Attempt)
      → Free c i a.dial
      → Free c i a.redial
      → Step c (moved c i (after (try_acquire a c.sessions (c.electors i))))
  releases :
      {c : Cluster} (i : ℕ) (r : Reply) → Step c (moved c i (release r c.sessions (c.electors i)))
  opens : {c : Cluster} → Step c (record c { sessions = opened c.sessions })
  ends : {c : Cluster} (s : ℕ) → Step c (record c { sessions = closed s c.sessions })

pub data Steps : Cluster → Cluster → Type 0 where
  stop : {c : Cluster} → Steps c c
  step : {c d e : Cluster} → Step c d → Steps d e → Steps c e

-- No connection is open and nobody leads.
abbrev pub start : Cluster
start = record {
  sessions = record { holder = none; live = λ s. false; opened = 0 };
  electors = λ i. new_elector;
}
