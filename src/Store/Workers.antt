-- ===== src/Store/Workers.antt =====
-- The operations of internal/store/postgres.go on the workers table.
use taskflow.Common.{
  ℤ, String, Bool, str_eq, if◌then◌else◌, List, [], ◌∷◌, ◌++◌, exists_where, update_where, order_by,
}
use taskflow.Model.{Worker, alive}
use taskflow.Store.Query.{ok, Query, Statement, exec, reader, select}

abbrev pub worker_is : String → Worker → Bool
worker_is id w = str_eq w.id id

abbrev pub beating : String → ℤ → Worker → Worker
beating hostname now w = record w { hostname = hostname; last_heartbeat = now; status = alive }

abbrev pub new_worker : String → String → ℤ → Worker
new_worker id hostname now = record {
  id = id;
  hostname = hostname;
  status = alive;
  last_heartbeat = now;
  started_at = now;
}

-- INSERT … ON CONFLICT (id) DO UPDATE
unfoldable pub upsert_worker : String → String → Statement (Unit {0})
upsert_worker id hostname now t db = ok (
  tt,
  record db {
    workers =
        if exists_where (worker_is id) db.workers
        then update_where (worker_is id) (beating hostname now) db.workers
        else db.workers ++ new_worker id hostname now ∷ [];
  },
)

unfoldable pub upsert_worker_heartbeat : String → String → Query (Unit {0})
unfolding upsert_worker
upsert_worker_heartbeat id hostname = exec (upsert_worker id hostname)

-- ORDER BY id follows the collation of the database, a parameter.
unfoldable pub list_workers : (String → String → Bool) → Query (List Worker)
list_workers collates_before =
    select reader (λ db. ok (order_by (λ a b. collates_before a.id b.id) db.workers))
