-- ===== src/Store/Lease/Rows.antt =====
-- The SELECT of LeaseNextRun and the row that its transaction reads back.
use taskflow.Common.{
  ◌∙◌, ℕ, ℤ, ◌≡◌, refl, sym, ap, subst, inl, inr, ==_iff, List, [], ◌∷◌, map, Option, some, arith,
  first, rows_where, update_where, order_by, Bool-cases, In, here, there, In-cons, not-In-nil,
  mem-rows_where, first-order_by-none, IsStrictWeak, Distinct, mem-map,
}
use taskflow.Model.{Job, JobRun}
use taskflow.Store.Tables.{JobRow, Database}
use taskflow.Store.Query.{Error, ok, err, RoundTrip, primary}
use taskflow.Store.Ensures.{Ensures, Ensures-return, Ensures-select_primary, Ensures-bind}
use taskflow.Store.Jobs.{
  one_row, job_is, job_of, fetch_job, scan_job_row, fetch_dependencies, dependencies_of,
}
use taskflow.Store.Runs.{run_is, is_eligible, leased_before, next_pending}

-- ORDER BY priority DESC, scheduled_at ASC is a strict weak order.
pub leased_before-IsStrictWeak : IsStrictWeak leased_before
leased_before-IsStrictWeak = record {
  irrefl = λ a. ground arith;
  asymm = λ a b h. ground arith;
  cotrans = λ a b c h k. ground arith;
}

pub next_pending_ok :
    (now : ℤ) (t : RoundTrip) (d : Database) {r : JobRun} {d' : Database}
    → next_pending now t d ≡ ok (r, d')
    → (d' ≡ d)
      × (first (order_by leased_before (rows_where (is_eligible now t.locked) d.job_runs)) ≡ some r)
unfolding next_pending
next_pending_ok now t d e = ground arith

pub next_pending_none :
    (now : ℤ) (t : RoundTrip) (d : Database) {x : Error}
    → next_pending now t d ≡ err x
    → rows_where (is_eligible now t.locked) d.job_runs ≡ []
unfolding next_pending
next_pending_none now t d e =
    first-order_by-none leased_before (rows_where (is_eligible now t.locked) d.job_runs)
      (ground arith)

pub absent_id :
    (id : ℕ) (f : JobRun → JobRun) (rs : List JobRun)
    → ¬ In id (map (λ r. r.id) rs)
    → rows_where (run_is id) (update_where (run_is id) f rs) ≡ []
unfolding rows_where update_where
absent_id id f [] n = refl
absent_id id f (r ∷ rs) n = elim (Bool-cases (run_is id r)) [
  | inl e ↦ absurd (n (here (sym ((==_iff r.id id).0 e))))
  | inr e ↦ rw (e, e) (absent_id id f rs (λ m. n (there m)))
]

pub read_back_head :
    (f : JobRun → JobRun) (r : JobRun) (rs : List JobRun)
    → ((r : JobRun) → (f r).id ≡ r.id)
    → ¬ In r.id (map (λ (r : JobRun). r.id) rs)
    → rows_where (run_is r.id) (update_where (run_is r.id) f (r ∷ rs)) ≡ f r ∷ []
unfolding rows_where update_where
read_back_head f r rs same n =
    rw ((==_iff r.id r.id).1 refl, (==_iff (f r).id r.id).1 (same r), absent_id r.id f rs n)

-- The updated row is read back: its id is in no other row.
pub read_back :
    (b : JobRun) (f : JobRun → JobRun) (rs : List JobRun)
    → ((r : JobRun) → (f r).id ≡ r.id)
    → Distinct (map (λ (r : JobRun). r.id) rs)
    → In b rs
    → rows_where (run_is b.id) (update_where (run_is b.id) f rs) ≡ f b ∷ []
unfolding rows_where update_where
read_back b f [] same d m = absurd (not-In-nil m)
read_back b f (r ∷ rs) same d m = elim (In-cons m) [
  | inl e ↦
      subst (λ x. rows_where (run_is x.id) (update_where (run_is x.id) f (r ∷ rs)) ≡ f x ∷ [])
        (sym e) (read_back_head f r rs same d.0)
  | inr t ↦ elim (Bool-cases (run_is b.id r)) [
    | inl e ↦ absurd (
        d.0 (
          subst (λ k. In k (map (λ (r : JobRun). r.id) rs)) (sym ((==_iff r.id b.id).0 e))
            (mem-map (λ (r : JobRun). r.id) t)))
    | inr e ↦ rw (e, e) (read_back b f rs same d.1 t)
  ]
]

-- A run is known by its id.
pub same_id :
    (a b : JobRun) (rs : List JobRun)
    → Distinct (map (λ r. r.id) rs)
    → In a rs
    → In b rs
    → a.id ≡ b.id
    → a ≡ b
same_id a b [] d m n e = elim m [ ]
same_id a b (r ∷ rs) d m n e = elim (In-cons m) [
  | inl p ↦ elim (In-cons n) [
    | inl q ↦ p ∙ sym q
    | inr t ↦ absurd (
        d.0 (
          subst (λ k. In k (map (λ (x : JobRun). x.id) rs)) (sym e ∙ ap (λ (x : JobRun). x.id) p)
            (mem-map (λ (x : JobRun). x.id) t)))
  ]
  | inr s ↦ elim (In-cons n) [
    | inl q ↦ absurd (
        d.0 (
          subst (λ k. In k (map (λ (x : JobRun). x.id) rs)) (e ∙ ap (λ (x : JobRun). x.id) q)
            (mem-map (λ (x : JobRun). x.id) s)))
    | inr t ↦ same_id a b rs d.1 s t e
  ]
]

pub ok_injective : {A : Type 0} {a b : A} → ok a ≡ ok b → a ≡ b
ok_injective h = cc

pub one_row-mem : {A : Type 0} (xs : List A) {a : A} → one_row xs ≡ ok a → In a xs
one_row-mem [] h = cc
one_row-mem (x ∷ xs) h = here (cc)

-- The job of the table with its dependencies, as fetchJob reads them.
abbrev pub Fetched : ℕ → Database → Job → Type 0
Fetched id d job =
    (row : JobRow) × (one_row (rows_where (job_is id) d.jobs) ≡ ok row)
    × (job ≡ job_of row (dependencies_of row.id d))

pub fetch_job-Ensures :
    {R : Option Database} {P : Database → Type 0} (id : ℕ)
    → Ensures R P
        (fetch_job primary id)
        (λ job d. P d × (job.id ≡ id) × Fetched id d job)
        (λ _ _. Unit {0})
unfolding fetch_job scan_job_row fetch_dependencies
fetch_job-Ensures {P} id =
    Ensures-bind
      {Q = λ row d. P d × (row.id ≡ id) × (one_row (rows_where (job_is id) d.jobs) ≡ ok row)} _ _
      (Ensures-select_primary _
        (λ d row p h.
          (p, (==_iff row.id id).0 (mem-rows_where (job_is id) d.jobs (one_row-mem _ h)).1, h))
        (λ d x p h. tt) (λ d p. tt))
      (λ row.
        Ensures-bind {Q = λ deps d. P d × (row.id ≡ id) × Fetched id d (job_of row deps)} _ _
          (Ensures-select_primary _
            (λ d deps p h. (p.0, p.1, (row, p.2, ap (job_of row) (sym (ok_injective h)))))
            (λ d x p h. tt) (λ d p. tt))
          (λ deps. Ensures-return _ (λ d p. p)))
