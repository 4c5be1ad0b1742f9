-- ===== src/Driver/Requests.antt =====
-- The requests of services/driver_service/handler/http, and any sequence of them.
use inno_taxi.Base.{String, List, [], ◌∷◌, ◌≢◌}
use inno_taxi.Driver.Entity.{TaxiType, Status}
use inno_taxi.Driver.Repository.{Env, World}
use inno_taxi.Driver.Service.{
  create_driver, claim_available_driver, get_drivers_by_status, update_status_by_user,
  update_taxi_type_by_user,
}

-- The requests of handler/http that reach `DriverService` and change the collection or read it.
pub data Request : Type 0 where
  register : String → TaxiType → Request
  claim : TaxiType → Request
  set_status : String → Status → Request
  set_taxi_type : String → TaxiType → Request
  list_status : Status → Request

-- The request neither sets the status of `u` nor registers `u`.
abbrev pub LeavesAlone : String → Request → Type 0
LeavesAlone u (register v t) = v ≢ u
LeavesAlone u (claim t) = Unit
LeavesAlone u (set_status v s) = v ≢ u
LeavesAlone u (set_taxi_type v t) = Unit
LeavesAlone u (list_status s) = Unit

module _ (e : Env) where
  unfoldable pub handle : Request → World → World
  handle (register u t) w = (create_driver e u t w).1
  handle (claim t) w = (claim_available_driver e t w).1
  handle (set_status u s) w = (update_status_by_user e u s w).1
  handle (set_taxi_type u t) w = (update_taxi_type_by_user e u t w).1
  handle (list_status s) w = (get_drivers_by_status e s w).1

  unfoldable pub run : List Request → World → World
  unfolding handle
  run [] w = w
  run (q ∷ qs) w = run qs (handle q w)
