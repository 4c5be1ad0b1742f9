-- ===== src/Order/Entity.antt =====
-- services/order_service/entity/service: the order, its status and taxi type, and the errors of
-- services/order_service/errorsx. `float64` is the parameter `F`; an instant is a number of ticks.
use inno_taxi.Base.{ℕ, String, Bool, Option, ◌||◌}
use inno_taxi.Base.Int.{ℤ}
use inno_taxi.Base.Tests.{◌==◌}

-- `errors.New` values, `fmt.Errorf("...: %w", err)`, and an error that the code gets from outside.
pub data Error : Type 0 where
  invalid_taxi_type invalid_location insufficient_funds order_not_found order_not_cancellable :
      Error
  order_not_startable order_not_completable order_not_ratable order_already_rated : Error
  invalid_rating : Error
  external : String → Error
  wrap : String → Error → Error

abbrev pub TaxiType : Type 0
TaxiType = String

abbrev pub taxi_type_economy : TaxiType
taxi_type_economy = "economy"

abbrev pub taxi_type_comfort : TaxiType
taxi_type_comfort = "comfort"

abbrev pub taxi_type_business : TaxiType
taxi_type_business = "business"

-- `TaxiType.IsValid`
unfoldable pub is_valid_taxi_type : TaxiType → Bool
is_valid_taxi_type t = t == taxi_type_economy || t == taxi_type_comfort || t == taxi_type_business

abbrev pub Status : Type 0
Status = String

abbrev pub status_created : Status
status_created = "created"

abbrev pub status_driver_assigned : Status
status_driver_assigned = "driver_assigned"

abbrev pub status_in_progress : Status
status_in_progress = "in_progress"

abbrev pub status_completed : Status
status_completed = "completed"

abbrev pub status_cancelled : Status
status_cancelled = "cancelled"

pub record Location (F : Type 0) : Type 0 where
  pub lat : F
  pub lng : F

pub record CreateOrderInput (F : Type 0) : Type 0 where
  pub user_id : String
  pub taxi_type : TaxiType
  pub start : Location F
  pub destination : Location F

pub record Order (F : Type 0) : Type 0 where
  pub id : String
  pub user_id : String
  pub driver_id : Option String
  pub taxi_type : TaxiType
  pub start : Location F
  pub destination : Location F
  pub status : Status
  pub price_minor_units : Option ℤ  -- int64
  pub rating : Option ℤ  -- int32
  pub comment : Option String
  pub created_at : ℕ
  pub updated_at : ℕ

pub record OrderSearchFilter : Type 0 where
  pub taxi_type : TaxiType
  pub status : Status
  pub created_after : ℕ
  pub created_before : ℕ
  pub min_price_minor_units : ℤ
  pub max_price_minor_units : ℤ
  pub limit : ℤ  -- int32
  pub offset : ℤ  -- int32
