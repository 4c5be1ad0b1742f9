-- ===== src/Analytic/Entity.antt =====
-- services/analytic_service/entity/service and errorsx: the events that are stored, and the figures
-- that are asked for. An average, a `float64`, is of the type `F`.
use inno_taxi.Base.{ℕ, String, List}
use inno_taxi.Base.Int.{ℤ}

pub data AnalyticError : Type 0 where
  invalid_date_range : AnalyticError
  outside : String → AnalyticError
  wrap : String → AnalyticError → AnalyticError

pub record OrderEvent : Type 0 where
  pub order_id : String
  pub user_id : String
  pub taxi_type : String
  pub status : String
  pub created_at : ℕ

pub record DriverRatingEvent : Type 0 where
  pub order_id : String
  pub driver_id : String
  pub rating : ℤ
  pub comment : String
  pub rated_at : ℕ

pub record UserEvent : Type 0 where
  pub user_id : String
  pub name : String
  pub email : String
  pub phone : String
  pub role : String
  pub registered_at : ℕ

-- The maps of counts, as lists of keys with their values.
pub record OrderStats : Type 0 where
  pub total_orders : ℤ
  pub counts_by_status : List (String × ℤ)
  pub counts_by_taxi_type : List (String × ℤ)

pub record DailyOrderCount : Type 0 where
  pub date : String
  pub count : ℤ

pub record DriverRatingStats (F : Type 0) : Type 0 where
  pub average : F
  pub count : ℤ
