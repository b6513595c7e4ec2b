-- ===== src/Api/System.antt =====
-- The API server beside the other processes that use the database.
use taskflow.Common.{String, refl, Bool, List, [], ◌∷◌}
use taskflow.Store.Query.{World}
use taskflow.Store.Service.{postgres}
use taskflow.Store.Valid.{IsValid}
use taskflow.Store.History.{Call, perform, perform-Keeps, after}
use taskflow.Api.Http.{Request}
use taskflow.Api.Router.{Server, Instant, Running, serve}
use taskflow.Api.Validity.{dispatch-IsValid}

-- What reaches the tables, one after the other: a request to the API server, or a call of the
-- store by another process.
pub data Event : Type 0 where
  request : Instant → Request → Event
  call : Call → Event

module _ (collates_before : String → String → Bool) (srv : Server) where
  unfoldable pub happens : Event → Running World → Running World
  unfolding serve
  happens (request t r) st = (serve (postgres collates_before) srv t r st).1
  happens (call c) st = record st { world = (perform c st.world).1 }

  unfoldable pub run_system : List Event → Running World → Running World
  unfolding happens
  run_system [] st = st
  run_system (e ∷ es) st = run_system es (happens e st)

  happens-IsValid :
      (e : Event) (st : Running World) → IsValid st.world.db → IsValid (happens e st).world.db
  unfolding happens
  happens-IsValid (request t r) st v =
      (dispatch-IsValid {R = st.world.replica} collates_before srv _ t r st refl v).1
  happens-IsValid (call c) st v =
      after st.world.replica IsValid (perform c st.world) ((perform-Keeps c).at st.world refl v)

  -- Whatever is asked of the API server and called by the other processes, in whatever order, and
  -- whatever the network loses, valid tables stay valid.
  pub run_system-IsValid :
      (es : List Event) (st : Running World)
      → IsValid st.world.db
      → IsValid (run_system es st).world.db
  unfolding run_system
  run_system-IsValid [] st v = v
  run_system-IsValid (e ∷ es) st v = run_system-IsValid es (happens e st) (happens-IsValid e st v)
