-- ===== src/Lock/Releasing.antt =====
-- What one call of Release does to the lock.
use taskflow.Common.{
  ℕ, ◌≡◌, ◌≢◌, refl, ap, inl, inr, Bool, true, false, Bool-cases, ◌==◌, ==_iff, if◌then◌else◌,
  Option, none, some, is_some, arith,
}
use taskflow.Store.Query.{Reply, delivered, refused, lost}
use taskflow.Lock.{
  Sessions, Elector, unlocked_by, unlock, new_elector, released, release_conn, release,
}
use taskflow.Lock.Acquiring.{Holds, Leads, Kept, follower-Leads}

-- Release never leaves a leader, and takes the lock from no other session.
pub record Released (From : ℕ → Type 0) (srv : Sessions) (own : Option ℕ)
    (after : Sessions × Elector) : Type 0 where
  pub kept : Kept From srv after.0 after.1
  pub stays : (h : ℕ) → own ≢ some h → Holds srv h → Holds after.0 h

unlocked_by-stays :
    (s h : ℕ) (o : Option (ℕ × ℕ)) (n : ℕ) → s ≢ h → o ≡ some (h, n) → unlocked_by s o ≡ some (h, n)
unlocked_by-stays s h none n d e = cc
unlocked_by-stays s h (some (k, m)) n d e = elim (Bool-cases (k == s)) [
  | inl i ↦ absurd (d (ground (arith, i, e, ==_iff k s)))
  | inr i ↦ rw i e
]

module _ (From : ℕ → Type 0) (srv : Sessions) (e : Elector)
    (from : (s : ℕ) → e.conn ≡ some s → From s) (conn : e.is_leader ≡ true → is_some e.conn ≡ true)
    (leads : Leads srv e) where
  idle-Released : (own : Option ℕ) → Released From srv own (srv, e)
  idle-Released own = record {
    kept = record { live = refl; opened = refl; leads = leads; connected = conn; source = from };
    stays = λ h d p. p;
  }

  new-Kept :
      (srv' : Sessions)
      → srv'.live ≡ srv.live
      → srv'.opened ≡ srv.opened
      → Kept From srv srv' new_elector
  new-Kept srv' live opened = record {
    live = live;
    opened = opened;
    leads = follower-Leads srv' new_elector refl;
    connected = λ l. cc;
    source = λ t k. cc;
  }

  unlocked-Released : (s : ℕ) → Released From srv (some s) (unlock s srv, new_elector)
  unfolding unlock
  unlocked-Released s = record {
    kept = new-Kept (unlock s srv) refl refl;
    stays = λ h d p. (p.0, unlocked_by-stays s h srv.holder p.0 (λ q. d (ap some q)) p.1);
  }

  dropped-Released :
      (r : Reply) (s : ℕ) → Released From srv (some s) (released r srv s, new_elector)
  dropped-Released delivered s = unlocked-Released s
  dropped-Released lost s = unlocked-Released s
  dropped-Released refused s = record { kept = new-Kept srv refl refl; stays = λ h d p. p }

  release_conn-Released : (r : Reply) (o : Option ℕ) → Released From srv o (release_conn r o srv e)
  release_conn-Released r none = idle-Released none
  release_conn-Released r (some s) =
      if-Released e.is_leader (dropped-Released _ s) (idle-Released (some s))
    where
      if-Released :
          {x y : Sessions × Elector} (b : Bool)
          → Released From srv (some s) x
          → Released From srv (some s) y
          → Released From srv (some s) (if b then x else y)
      if-Released true p q = p
      if-Released false p q = q

  pub release-Released : (r : Reply) → Released From srv e.conn (release r srv e)
  unfolding release
  release-Released r = release_conn-Released r e.conn
