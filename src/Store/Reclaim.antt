-- ===== src/Store/Reclaim.antt =====
-- ReclaimExpiredLeases, and MarkRunning after it.
use taskflow.Common.{ℕ, ℤ, ◌≡◌, refl, false, some, All, count_where, update_where}
use taskflow.Model.{JobRun, running}
use taskflow.Store.Tables.{Database}
use taskflow.Store.Query.{ok}
use taskflow.Store.Post.{Post}
use taskflow.Store.Reliably.{Reliably, Reliably-mono}
use taskflow.Store.Runs.{is_reclaimable, reclaimed_run, mark_running}
use taskflow.Store.Effects.{row, mark_running-Reliably}

-- The tables after the runs of `old` whose leases had expired at `now` were taken back.
pub record Reclaimed (now : ℤ) (old : Database) (n : ℕ) (d : Database) : Type 0 where
  pub counted : n ≡ count_where (is_reclaimable now) old.job_runs
  pub stored :
      d
      ≡ record old { job_runs = update_where (is_reclaimable now) (reclaimed_run now) old.job_runs }
  pub freed : All (λ r. is_reclaimable now r ≡ false) d.job_runs

-- A worker whose lease was reclaimed before its MarkRunning arrives: on a network that delivers,
-- MarkRunning succeeds all the same, and the run is then running without a lease, which
-- ReclaimExpiredLeases takes back at no time.
pub mark_running-never_reclaimed :
    (id : ℕ) (r : JobRun) (reclaimed_at : ℤ)
    → Reliably
        (λ d. row id d ≡ some (reclaimed_run reclaimed_at r))
        (mark_running id)
        (λ a d.
          (a ≡ ok tt)
          × ((x : JobRun) × (row id d ≡ some x)
              × (x.status ≡ running)
              × ((now : ℤ) → is_reclaimable now x ≡ false)))
mark_running-never_reclaimed id r reclaimed_at =
    Reliably-mono (λ d p. p) (λ a d h. (h.0, (_, h.2, refl, λ now. refl)))
      (mark_running-Reliably id (reclaimed_run reclaimed_at r))
