-- ===== src/Scheduler/Schedule.antt =====
-- internal/scheduler/schedule.go: NextRunDue and DependenciesSatisfied.
use taskflow.Common.{
  ℕ, ℤ, negsuc, String, ◌≡◌, ◌⊎◌, ◌<ℤ◌, Bool, true, false, not, ltb_ℤ, if◌then◌else◌, List, [], ◌∷◌,
  Option, none, some,
}
use taskflow.Model.{JobRun, succeeded, status_eq}
use taskflow.Store.Query.{
  not_found, invalid_cron, Result, ok, err, Query, return, raise, ◌>>=◌, attempt,
}
use taskflow.Store.Jobs.{list_dependencies}
use taskflow.Store.Runs.{latest_run_for_job}

-- time.Time{}: 62135596800 seconds before 1970, in nanoseconds.
abbrev pub zero_time : ℤ
zero_time = negsuc 62135596799999999999

-- github.com/robfig/cron/v3: `Next` gives a later time, or the zero time if it finds none.
pub record Cron : Type 1 where
  pub Schedule : Type 0
  pub parse_standard : String → Option Schedule
  pub next : Schedule → ℤ → ℤ
  pub next_later : (s : Schedule) (t : ℤ) → (t <ℤ next s t) ⊎ (next s t ≡ zero_time)

abbrev pub or_else : Option ℤ → ℤ → ℤ
or_else none t = t
or_else (some s) t = s

abbrev never : Option ℤ → Bool
never none = true
never (some t) = false

module _ (c : Cron) where
  abbrev due_by : Option c.Schedule → (base now : ℤ) → Result Bool
  due_by none base now = err invalid_cron
  due_by (some s) base now = ok (not (ltb_ℤ now (c.next s base)))

  unfoldable pub next_run_due : Option String → Option ℤ → (created_at now : ℤ) → Result Bool
  next_run_due none last created_at now = ok (never last)
  next_run_due (some expr) last created_at now =
      due_by (c.parse_standard expr) (or_else last created_at) now

-- One turn of the loop over a job's dependencies; `rest` is the remaining loop.
unfoldable pub check_dependency : Result JobRun → Query Bool → Query Bool
check_dependency (ok run) rest = if status_eq run.status succeeded then rest else return false
check_dependency (err not_found) rest = return false
check_dependency (err e) rest = raise e

unfoldable pub all_succeeded : List ℕ → Query Bool
unfolding check_dependency
all_succeeded [] = return true
all_succeeded (dep ∷ deps) = do
  run ← attempt (latest_run_for_job dep)
  check_dependency run (all_succeeded deps)

unfoldable pub dependencies_satisfied : ℕ → Query Bool
unfolding all_succeeded
dependencies_satisfied job = list_dependencies job >>= all_succeeded
