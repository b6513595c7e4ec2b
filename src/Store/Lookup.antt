-- ===== src/Store/Lookup.antt =====
-- Reading back, through its idempotency key, what CreateJob has stored.
use taskflow.Common.{
  ℕ, String, ◌≡◌, refl, sym, ap, subst, ◌∙◌, Bool, true, false, ◌==◌, ==_iff, List, [], ◌∷◌, ◌++◌,
  map, some, arith, Bool-cases, inl, inr, str_eq_iff, All, In, rows_where, exists_where,
  not-mem_of_exists_where,
}
use taskflow.Model.{Job, NewJobInput}
use taskflow.Store.Tables.{JobRow, Dependency, Database}
use taskflow.Store.Query.{ok}
use taskflow.Store.Jobs.{
  same_key, new_job_row, job_of, dependencies_of, get_job_by_idempotency_key, scan_job_row,
  fetch_dependencies, one_row,
}
use taskflow.Store.Creation.{Created, edge}
use taskflow.Store.Valid.{IsValid, Linked, job_ids}
use taskflow.Store.Reliably.{
  Reliably, Reliably-on_error, Reliably-bind, Reliably-select, Reliably-return, Reliably-raise,
}

rows_where-append_only :
    {A : Type 0} (p : A → Bool) (xs ys : List A)
    → exists_where p xs ≡ false
    → rows_where p (xs ++ ys) ≡ rows_where p ys
unfolding rows_where exists_where
rows_where-append_only p [] ys h = refl
rows_where-append_only p (x ∷ xs) ys h = ground (arith, rows_where-append_only p xs ys)

only : {A : Type 0} (p : A → Bool) (x : A) → p x ≡ true → rows_where p (x ∷ []) ≡ x ∷ []
unfolding rows_where
only p x h = rw h refl

abbrev from_job : ℕ → Dependency → Bool
from_job id r = r.job_id == id

edges_of :
    (id : ℕ) (deps : List ℕ)
    → map (λ r. r.depends_on_id) (rows_where (from_job id) (map (edge id) deps)) ≡ deps
unfolding rows_where
edges_of id [] = refl
edges_of id (dep ∷ deps) = rw ((==_iff id id).1 refl) (ap (◌∷◌ dep) (edges_of id deps))

no_edges :
    (id : ℕ) (jobs : List ℕ) (ds : List Dependency)
    → ¬ In id jobs
    → All (Linked jobs) ds
    → exists_where (from_job id) ds ≡ false
unfolding exists_where
no_edges id jobs [] n h = refl
no_edges id jobs (d ∷ ds) n h = elim (Bool-cases (d.job_id == id)) [
  | inl e ↦ absurd (n (subst (λ j. In j jobs) ((==_iff d.job_id id).0 e) h.0.0))
  | inr e ↦ rw e (no_edges id jobs ds n h.1)
]

module _ (input : NewJobInput) (key : String) (old d : Database) (job : Job) (v : IsValid old)
    (made : Created input old job d) (k : input.idempotency_key ≡ some key) where
  abbrev row : JobRow
  row = new_job_row input made.id made.now

  abbrev found : Database → List JobRow
  found x = rows_where (same_key (some key)) x.jobs

  matches : same_key (some key) row ≡ true
  matches = rw k ((str_eq_iff key key).1 refl)

  found-row : found d ≡ row ∷ []
  found-row =
      ap found made.stored
      ∙ rows_where-append_only (same_key (some key)) old.jobs (row ∷ [])
          (subst (λ o. exists_where (same_key o) old.jobs ≡ false) k made.unclaimed)
      ∙ only (same_key (some key)) row matches

  dependencies_of-row : dependencies_of made.id d ≡ input.depends_on
  dependencies_of-row =
      ap (dependencies_of made.id) made.stored
      ∙ ap (map (λ r. r.depends_on_id)) (
          rows_where-append_only (from_job made.id) old.job_dependencies
            (map (edge made.id) input.depends_on)
            (no_edges made.id (job_ids old) old.job_dependencies
              (not-mem_of_exists_where (λ j. j.id) made.id old.jobs made.fresh) v.linked))
      ∙ edges_of made.id input.depends_on

  same_id : (r : JobRow) → ok r ≡ ok row → r.id ≡ made.id
  same_id r e = let h : r ≡ row = cc e in ap {A = JobRow} (λ y. y.id) h

  same_job :
      (r : JobRow) (deps : List ℕ)
      → ok r ≡ ok row
      → ok deps ≡ ok input.depends_on
      → job_of r deps ≡ job_of row input.depends_on
  same_job r deps e f =
      let h : r ≡ row = cc e in
      let g : deps ≡ input.depends_on = cc f in ap (λ y. job_of y deps) h ∙ ap (job_of row) g

  -- On a network that loses nothing, the job is found under its key as CreateJob returned it.
  pub get_job_by_idempotency_key-Created :
      Reliably (λ x. x ≡ d) (get_job_by_idempotency_key key) (λ r x. (r ≡ ok job) × (x ≡ d))
  unfolding get_job_by_idempotency_key scan_job_row fetch_dependencies
  get_job_by_idempotency_key-Created =
      Reliably-on_error {Q = λ r x. (r ≡ ok job) × (x ≡ d)} _ _
        (Reliably-bind {Q = λ r x. (r ≡ ok row) × (x ≡ d)} _ _
          (Reliably-select _ _ (λ x e. (ap one_row (ap found e ∙ found-row), e)))
          (λ r.
            Reliably-bind {Q = λ y x. (y ≡ ok input.depends_on) × (ok r ≡ ok row) × (x ≡ d)} _ _
              (Reliably-select _ _ (λ x p. (
                ap ok (
                    subst (λ i. dependencies_of i x ≡ input.depends_on) (sym (same_id r p.0))
                      (ap (dependencies_of made.id) p.1 ∙ dependencies_of-row)),
                p.0,
                p.1,
              )))
              (λ deps.
                Reliably-return _
                  (λ x p. (ap ok (same_job r deps p.1 p.0 ∙ sym made.returned), p.2)))
              (λ x y p. cc))
          (λ x y e. cc))
        (λ a x e. e) (λ x. Reliably-raise _ (λ y p. cc))
