-- ===== src/Store/Valid/Hosts.antt =====
-- A heartbeat keeps the tables valid: each worker has one row.
use taskflow.Common.{
  ℤ, String, ◌≡◌, refl, sym, inl, inr, false, List, [], ◌∷◌, ◌++◌, map, arith, str_eq_iff, In,
  Distinct, exists_where, update_where, Bool-cases, In-cons, not-In-nil, map-update_where,
  map-append_one, Distinct-append, if◌then◌else◌,
}
use taskflow.Model.{Worker}
use taskflow.Store.Tables.{Database}
use taskflow.Store.Query.{ok, RoundTrip}
use taskflow.Store.Workers.{worker_is, beating, new_worker, upsert_worker}
use taskflow.Store.Valid.{IsValid}

not-mem-workers :
    (id : String) (ws : List Worker)
    → exists_where (worker_is id) ws ≡ false
    → ¬ In id (map (λ h. h.id) ws)
unfolding exists_where
not-mem-workers id [] e m = not-In-nil m
not-mem-workers id (h ∷ ws) e m = elim (In-cons m) [
  | inl x ↦ ground (arith, (str_eq_iff h.id id).1 (sym x))
  | inr x ↦ not-mem-workers id ws (ground arith) x
]

upsert-Distinct :
    (id hostname : String) (now : ℤ) (ws : List Worker)
    → Distinct (map (λ h. h.id) ws)
    → Distinct (
        map
          (λ (h : Worker). h.id)
          (if exists_where (worker_is id) ws
            then update_where (worker_is id) (beating hostname now) ws
            else ws ++ new_worker id hostname now ∷ []))
upsert-Distinct id hostname now ws d = elim (Bool-cases (exists_where (worker_is id) ws)) [
  | inl e ↦
      rw e
        (rw (map-update_where (λ h. h.id) (worker_is id) (beating hostname now) ws (λ h. refl)) d)
  | inr e ↦ rw e (
      rw (map-append_one (λ h. h.id) ws (new_worker id hostname now))
        (Distinct-append _ id (not-mem-workers id ws e) d))
]

upsert_worker_ok :
    (id hostname : String) (now : ℤ) (t : RoundTrip) (db : Database) {a : Unit {0}} {db' : Database}
    → upsert_worker id hostname now t db ≡ ok (a, db')
    → db' ≡ record db {
      workers =
          if exists_where (worker_is id) db.workers
          then update_where (worker_is id) (beating hostname now) db.workers
          else db.workers ++ new_worker id hostname now ∷ [];
    }
unfolding upsert_worker
upsert_worker_ok id hostname now t db e = ground arith

pub upsert_worker-IsValid :
    (id hostname : String) (now : ℤ) (t : RoundTrip) (db : Database) {a : Unit {0}} {db' : Database}
    → IsValid db
    → upsert_worker id hostname now t db ≡ ok (a, db')
    → IsValid db'
upsert_worker-IsValid id hostname now t db v e =
    rw (upsert_worker_ok id hostname now t db e) record {
      runs = v.runs;
      distinct_workers = upsert-Distinct id hostname now db.workers v.distinct_workers;
      distinct_runs = v.distinct_runs;
      distinct_jobs = v.distinct_jobs;
      distinct_keys = v.distinct_keys;
      linked = v.linked;
      distinct_edges = v.distinct_edges;
      distinct_letters = v.distinct_letters;
      letters = v.letters;
    }
