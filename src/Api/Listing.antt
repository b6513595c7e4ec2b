-- ===== src/Api/Listing.antt =====
-- How many rows one request lists.
use taskflow.Common.{
  ℕ, ◌≤◌, ℤ, pos, negsuc, String, ◌≡◌, refl, sym, subst, Bool, Option, none, some, List, [], ◌∷◌,
  arith, length, take, length-take-le,
}
use taskflow.Model.{JobStatus}
use taskflow.Store.Tables.{JobRow, Database}
use taskflow.Store.Query.{ok}
use taskflow.Store.Ensures.{
  Ensures, Ensures-bind, Ensures-return, Ensures-select, Ensures-select_any, Ensures-mono,
}
use taskflow.Store.Jobs.{list_jobs, with_dependencies, fetch_dependencies}
use taskflow.Store.Runs.{list_job_runs}
use taskflow.Store.Service.{postgres}
use taskflow.Api.Http.{Request, Response, Body}
use taskflow.Api.Text.{atoi}
use taskflow.Api.Handlers
use taskflow.Api.Contract.{Responds, Responds-reply, Responds-call, HasReplica}

-- The body is a list of at most `n` rows, if it is a list.
abbrev pub FitsIn : ℕ → Body → Type 0
FitsIn n (Body.jobs js) = length js ≤ n
FitsIn n (Body.runs rs) = length rs ≤ n
FitsIn n _ = Unit

abbrev pub Always : Database → Type 0
Always d = Unit

fits :
    {A : Type 0} (limit : ℕ) (rows answer : List A)
    → ok (take limit rows) ≡ ok answer
    → length answer ≤ limit
fits limit rows answer e =
    let same : take limit rows ≡ answer = cc e in
    subst (λ l. length l ≤ limit) same (length-take-le limit rows)

module _ {R : Option Database} where
  with_dependencies-length :
      (rows : List JobRow)
      → Ensures R Always (with_dependencies rows) (λ js _. length js ≡ length rows) (λ _. Always)
  unfolding with_dependencies fetch_dependencies
  with_dependencies-length [] = Ensures-return [] (λ d u. refl)
  with_dependencies-length (r ∷ rows) =
      Ensures-bind {Q = λ _. Always} _ _ (Ensures-select _ _ (λ d a u. u) (λ d x u. u)) (λ deps.
        Ensures-bind _ _ (with_dependencies-length rows)
          (λ jobs. Ensures-return _ (λ d e. omega arith)))

  list_jobs-length :
      (status : Option JobStatus) (limit offset : ℕ)
      → Ensures R Always (list_jobs status limit offset) (λ js _. length js ≤ limit) (λ _. Always)
  unfolding list_jobs
  list_jobs-length status limit offset =
      Ensures-bind {Q = λ rows _. length rows ≤ limit} _ _
        (Ensures-select_any _ _ (λ d seen rows u e. fits limit _ rows e) (λ d x u. u))
        (λ rows. record {
          at = λ w k p.
              (Ensures-mono (λ d q. q) (λ js d e. subst (λ n. n ≤ limit) (sym e) p) (λ x d u. u)
                  (with_dependencies-length rows)).at
                w k tt;
        })

  list_job_runs-length :
      (job limit : ℕ)
      → Ensures R Always (list_job_runs job limit) (λ rs _. length rs ≤ limit) (λ _. Always)
  unfolding list_job_runs
  list_job_runs-length job limit =
      Ensures-select_any _ _ (λ d seen rs u e. fits limit _ rs e) (λ d x u. u)

capped_le : (v : Option ℤ) (n : ℕ) → Handlers.capped v ≡ some n → n ≤ Handlers.max_list_limit
capped_le none n e = ground arith
capped_le (some (pos k)) n e = ground arith
capped_le (some (negsuc k)) n e = ground arith

parse_limit_le :
    (raw : String) (n : ℕ) → Handlers.parse_limit raw ≡ some n → n ≤ Handlers.max_list_limit
unfolding Handlers.parse_limit
parse_limit_le raw n e = ground (arith, capped_le (atoi raw) n)

within : (k n : ℕ) → k ≤ n → n ≤ Handlers.max_list_limit → k ≤ Handlers.max_list_limit
within k n h most = omega arith

-- No list is longer than the most that may be asked for.
abbrev pub Bounded : Response → Database → Type 0
Bounded r d = FitsIn Handlers.max_list_limit r.body

module _ {R : Option Database} (collates_before : String → String → Bool) where
  list_from-Bounded :
      (status : Option JobStatus) (limit offset : Option ℕ)
      → ((n : ℕ) → limit ≡ some n → n ≤ Handlers.max_list_limit)
      → Responds
          (HasReplica R)
          Always
          (Handlers.list_from (postgres collates_before) status limit offset)
          Bounded
  list_from-Bounded status none offset h = Responds-reply _ (λ d u. tt)
  list_from-Bounded status (some limit) none h = Responds-reply _ (λ d u. tt)
  list_from-Bounded status (some limit) (some offset) h =
      let most = h limit refl in
      Responds-call _ (Handlers.listed Body.jobs) (list_jobs-length status limit offset)
        (λ js. Responds-reply _ (λ d e. within _ limit e most)) (λ x. Responds-reply _ (λ d u. tt))

  list_with-Bounded :
      (status : Option (Option JobStatus)) (r : Request)
      → Responds
          (HasReplica R)
          Always
          (Handlers.list_with (postgres collates_before) status r)
          Bounded
  list_with-Bounded none r = Responds-reply _ (λ d u. tt)
  list_with-Bounded (some status) r = list_from-Bounded status _ _ (parse_limit_le r.limit)

  list_runs_to-Bounded :
      (id limit : Option ℕ)
      → ((n : ℕ) → limit ≡ some n → n ≤ Handlers.max_list_limit)
      → Responds
          (HasReplica R)
          Always
          (Handlers.list_runs_to (postgres collates_before) id limit)
          Bounded
  list_runs_to-Bounded id none h = Responds-reply _ (λ d u. tt)
  list_runs_to-Bounded none (some limit) h = record { at = λ w k p. (k, tt) }
  list_runs_to-Bounded (some id) (some limit) h =
      let most = h limit refl in
      Responds-call _ (Handlers.listed Body.runs) (list_job_runs-length id limit)
        (λ js. Responds-reply _ (λ d e. within _ limit e most)) (λ x. Responds-reply _ (λ d u. tt))

  -- Whatever the parameters of a request, and even if the answer comes from a stale replica, a
  -- listing of jobs or of the runs of a job has at most 200 rows.
  pub listings-Bounded :
      (r : Request) (id : Option ℕ)
      → Responds (HasReplica R) Always (Handlers.list_jobs (postgres collates_before) r) Bounded
        × Responds
            (HasReplica R)
            Always
            (Handlers.list_job_runs (postgres collates_before) id r)
            Bounded
  unfolding Handlers.list_jobs Handlers.list_job_runs
  listings-Bounded r id =
      (list_with-Bounded _ r, list_runs_to-Bounded id _ (parse_limit_le r.limit))
