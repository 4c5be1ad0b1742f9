-- ===== src/Driver/Service.antt =====
-- services/driver_service/service: the methods of `DriverService`. The profile's rating, which the
-- analytic service gives, is a parameter; its average, a `float64`, is the type `F`.
use inno_taxi.Base.{String, not, List}
use inno_taxi.Base.Int.{ℤ, pos}
use inno_taxi.Base.Action.{Result, ok, err, pure, raise_if, ◌>>=◌, ◌>>◌}
use inno_taxi.Driver.Entity.{
  invalid_taxi_type, invalid_status, TaxiType, is_valid_taxi_type, Status, is_valid_status, Driver,
}
use inno_taxi.Driver.Repository.{
  Env, DriverAction, create_driver_row, find_by_user_id, update_status_row, update_taxi_type_row,
  claim_row, find_by_status_rows,
}

pub record DriverProfile (F : Type 0) : Type 0 where
  pub driver : Driver
  pub rating_average : F
  pub rating_count : ℤ

module _ (e : Env) where
  unfoldable pub create_driver : String → TaxiType → DriverAction Driver
  create_driver u t = do
    raise_if (not (is_valid_taxi_type t)) invalid_taxi_type
    create_driver_row e u t

  unfoldable pub claim_available_driver : TaxiType → DriverAction Driver
  claim_available_driver t = do
    raise_if (not (is_valid_taxi_type t)) invalid_taxi_type
    claim_row e t

  unfoldable pub get_drivers_by_status : Status → DriverAction (List Driver)
  get_drivers_by_status s = do
    raise_if (not (is_valid_status s)) invalid_status
    find_by_status_rows e s

  unfoldable pub update_status_by_user : String → Status → DriverAction (Unit {0})
  update_status_by_user u s = do
    raise_if (not (is_valid_status s)) invalid_status
    update_status_row e u s

  unfoldable pub update_taxi_type_by_user : String → TaxiType → DriverAction (Unit {0})
  update_taxi_type_by_user u t = do
    raise_if (not (is_valid_taxi_type t)) invalid_taxi_type
    update_taxi_type_row e u t

  abbrev rated : {F : Type 0} → F → Driver → Result String (F × ℤ) → DriverProfile F
  rated zero d (ok (average, count)) = record {
    driver = d;
    rating_average = average;
    rating_count = count;
  }
  rated zero d (err m) = record { driver = d; rating_average = zero; rating_count = pos 0 }

  -- `GetProfileByUser`: no rating is no failure.
  unfoldable pub get_profile_by_user :
      {F : Type 0} → F → (String → Result String (F × ℤ)) → String → DriverAction (DriverProfile F)
  get_profile_by_user zero ratings u = do
    d ← find_by_user_id e u
    pure (rated zero d (ratings d.user_id))
