-- ===== src/Order/World.antt =====
-- What a request of the order service reads and writes: the rows of the table `orders`
-- (services/order_service/migrations/postgres) and the calls made to the other services.
-- What the environment answers may depend on all calls made so far.
use inno_taxi.Base.{ℕ, String, Option, List}
use inno_taxi.Base.Int.{ℤ}
use inno_taxi.Base.Action.{Action, Result}
use inno_taxi.Order.Entity.{Error, Order, OrderSearchFilter, Status, CreateOrderInput}

-- One call across an interface of the service, with its arguments.
pub data Call (F : Type 0) : Type 0 where
  new_id : Call F
  insert_order : String → ℤ → CreateOrderInput F → Call F
  select_order : String → Call F
  update_status : String → Status → Call F
  assign_driver : String → String → Call F
  rate_order : String → ℤ → Option String → Call F
  list_orders : String → ℤ → ℤ → Call F
  count_orders : String → Call F
  charge : String → ℤ → String → Call F
  refund : String → ℤ → String → Call F
  claim_driver : String → Call F
  release_driver : String → Call F
  index_order : Order F → Call F
  search_orders : OrderSearchFilter → Call F
  publish_created : Order F → Call F
  publish_rated : Order F → Call F

-- How a statement sent to Postgres fails: before it took effect, or on the way back, after.
pub data Fault : Type 0 where
  no_fault : Fault
  request_lost : String → Fault
  reply_lost : String → Fault

-- The answers of what the service calls, each a function of the calls made so far, the latest
-- first. `order_by_created` is `ORDER BY created_at DESC`, whose order among equals is open.
pub record Env (F : Type 0) : Type 0 where
  pub fresh_id : List (Call F) → Result Error String
  pub now : List (Call F) → ℕ
  pub database : List (Call F) → Fault
  pub wallet : List (Call F) → Option Error
  pub driver_claim : List (Call F) → Result Error (Option String)
  pub driver_release : List (Call F) → Option Error
  pub search_index : List (Call F) → Option Error
  pub search_result : List (Call F) → Result Error (List (Order F) × ℤ)
  pub broker : List (Call F) → Option Error
  pub order_by_created : List (Order F) → List (Order F)

pub record World (F : Type 0) : Type 0 where
  pub orders : List (Order F)
  pub calls : List (Call F)

abbrev pub OrderAction : Type 0 → Type 0 → Type 0
OrderAction F A = Action (World F) Error A
