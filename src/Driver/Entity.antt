-- ===== src/Driver/Entity.antt =====
-- services/driver_service/entity/service and errorsx: drivers, their status and the errors.
use inno_taxi.Base.{ℕ, String, Bool, ◌||◌}
use inno_taxi.Base.Tests.{◌==◌}

pub data DriverError : Type 0 where
  driver_not_found driver_already_exists invalid_taxi_type invalid_status no_available_driver :
      DriverError
  outside : String → DriverError

abbrev pub TaxiType : Type 0
TaxiType = String

-- `TaxiType.IsValid`
unfoldable pub is_valid_taxi_type : TaxiType → Bool
is_valid_taxi_type t = t == "economy" || t == "comfort" || t == "business"

abbrev pub Status : Type 0
Status = String

abbrev pub status_available : Status
status_available = "available"

abbrev pub status_on_trip : Status
status_on_trip = "on-trip"

abbrev pub status_offline : Status
status_offline = "offline"

-- `Status.IsValid`
unfoldable pub is_valid_status : Status → Bool
is_valid_status s = s == status_available || s == status_on_trip || s == status_offline

pub record Driver : Type 0 where
  pub id : String
  pub user_id : String
  pub taxi_type : TaxiType
  pub status : Status
  pub created_at : ℕ
  pub updated_at : ℕ
