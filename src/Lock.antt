-- ===== src/Lock.antt =====
-- internal/lock: leader election by an advisory lock of Postgres.
--
-- The lock belongs to a session, that is to a connection, and Postgres lets it go when the session
-- ends. Sessions are numbered in the order in which they are opened.
pub mod Acquiring
pub mod Releasing
pub mod Cluster
pub mod Exclusion
mod Tests
use taskflow.Common.{
  ℕ, ◌+◌, ◌-◌, Bool, true, false, ◌&&◌, ◌==◌, leb, if◌then◌else◌, Option, none, some,
}
use taskflow.Store.Query.{Reply, delivered, refused, lost}

-- Postgres: the session that holds the lock and how many times, and which sessions are open.
pub record Sessions : Type 0 where
  pub holder : Option (ℕ × ℕ)
  pub live : ℕ → Bool
  pub opened : ℕ

-- postgresElector: `conn` is the session of the connection that is checked out.
pub record Elector : Type 0 where
  pub conn : Option ℕ
  pub is_leader : Bool

-- What TryAcquire meets: the connections that the pool gives, `none` for an error, whether the
-- network lets the ping through, and what becomes of the query.
pub record Attempt : Type 0 where
  pub dial : Option ℕ
  pub reachable : Bool
  pub redial : Option ℕ
  pub reply : Reply

abbrev pub new_elector : Elector
new_elector = record { conn = none; is_leader = false }

abbrev pub locked_by : ℕ → Option (ℕ × ℕ) → Bool × Option (ℕ × ℕ)
locked_by s none = (true, some (s, 1))
locked_by s (some (h, n)) = if h == s then (true, some (h, n + 1)) else (false, some (h, n))

-- SELECT pg_try_advisory_lock
unfoldable pub try_lock : ℕ → Sessions → Bool × Sessions
try_lock s srv =
    let (acquired, holder) = locked_by s srv.holder in (acquired, record srv { holder = holder })

abbrev pub unlocked_by : ℕ → Option (ℕ × ℕ) → Option (ℕ × ℕ)
unlocked_by s none = none
unlocked_by s (some (h, n)) =
    if h == s then (if leb n 1 then none else some (h, n - 1)) else some (h, n)

-- SELECT pg_advisory_unlock
unfoldable pub unlock : ℕ → Sessions → Sessions
unlock s srv = record srv { holder = unlocked_by s srv.holder }

-- A statement on a session that has ended fails.
abbrev pub reached : Reply → Bool → Reply
reached r true = r
reached r false = refused

-- What TryAcquire returns: `none` is an error.
abbrev pub Answer : Type 0
Answer = Option Bool × Sessions × Elector

abbrev pub queried : Reply → Bool × Sessions → Sessions → Elector → Answer
queried delivered (acquired, after) before e =
    (some acquired, after, record e { is_leader = acquired })
queried lost (acquired, after) before e = (none, after, e)
queried refused _ before e = (none, before, e)

-- From `if e.isLeader` on.
abbrev pub ask : Attempt → ℕ → Sessions → Elector → Answer
ask a s srv e =
    if e.is_leader
    then (some true, srv, e)
    else queried (reached a.reply (srv.live s)) (try_lock s srv) srv e

abbrev pub redialled : Attempt → Option ℕ → Sessions → Answer
redialled a none srv = (none, srv, new_elector)
redialled a (some s) srv = ask a s srv (record { conn = some s; is_leader = false })

-- The ping, and the second Acquire if it fails.
unfoldable pub pinged : Attempt → ℕ → Sessions → Elector → Answer
unfolding try_lock
pinged a s srv e = if a.reachable && srv.live s then ask a s srv e else redialled a a.redial srv

abbrev pub dialled : Attempt → Option ℕ → Sessions → Elector → Answer
dialled a none srv e = (none, srv, e)
dialled a (some s) srv e = pinged a s srv (record e { conn = some s })

abbrev pub connected : Attempt → Option ℕ → Sessions → Elector → Answer
connected a none srv e = dialled a a.dial srv e
connected a (some s) srv e = pinged a s srv e

unfoldable pub try_acquire : Attempt → Sessions → Elector → Answer
unfolding pinged
try_acquire a srv e = connected a e.conn srv e

abbrev pub released : Reply → Sessions → ℕ → Sessions
released refused srv s = srv
released _ srv s = unlock s srv

abbrev pub release_conn : Reply → Option ℕ → Sessions → Elector → Sessions × Elector
release_conn r none srv e = (srv, e)
release_conn r (some s) srv e =
    if e.is_leader then (released (reached r (srv.live s)) srv s, new_elector) else (srv, e)

-- Release. Whether the unlock has failed, it also says.
unfoldable pub release : Reply → Sessions → Elector → Sessions × Elector
unfolding unlock
release r srv e = release_conn r e.conn srv e
