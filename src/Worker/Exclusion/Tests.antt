-- ===== src/Worker/Exclusion/Tests.antt =====
-- Two loops, each of which leases one of two runs.
use taskflow.Common.{
  ℤ, pos, ◌≡◌, ◌≢◌, refl, order_by, rows_where, exists_where, update_where, [], none, some,
}
use taskflow.Store.Query.{World, transaction, ◌>>=◌, attempt, exec_at, select}
use taskflow.Worker.Samples.{tables, tables-IsValid, pool}
use taskflow.Worker.Exclusion.{
  idle, System, Steps, stop, step, leases, start, held, leased_by, seen,
}
use taskflow.Store.Runs.{lease_next_run, next_pending, lease_run, fetch_run}
use taskflow.Store.Jobs.{fetch_job}
use taskflow.Worker.Loops.{lease_loop}
use taskflow.Worker.Exclusion.Rounds.{Ends, lease_loop-Steps}
use taskflow.Worker.Exclusion.Reached.{one_executor}

abbrev calm : ℤ → World
calm now = record { db = tables; replica = none; now = now; script = [] }

abbrev first_leased : System
first_leased = leased_by (start tables) 0 (lease_next_run "w" (pos 30) (calm (pos 3)))

abbrev both_leased : System
both_leased =
    leased_by first_leased 1 (lease_next_run "w" (pos 30) (seen first_leased (calm (pos 4))))

reached : Steps (λ i. pool) (start tables) both_leased
reached = step (leases 0 (calm (pos 3)) refl) (step (leases 1 (calm (pos 4)) refl) stop)

first_holds : held (both_leased.loops 0) ≡ some 9
unfolding lease_next_run transaction ◌>>=◌ attempt exec_at next_pending order_by rows_where
    exists_where lease_run fetch_run select update_where fetch_job
first_holds = refl

one_executor_example : held (both_leased.loops 1) ≢ some 9
one_executor_example =
    one_executor (λ i. pool) tables tables-IsValid both_leased reached 0 1 9 (λ e. cc) first_holds

lease_loop-Steps_example :
    Ends (λ i. pool) 0 (calm (pos 3)) (λ i. idle) (lease_loop 3 pool (calm (pos 3))).1
lease_loop-Steps_example = lease_loop-Steps (λ i. pool) 0 3 (calm (pos 3)) (λ i. idle) refl
