-- ===== src/Order/Requests.antt =====
-- The requests that `OrderServer` hands to `OrderService`, and any sequence of them.
pub mod Sound
pub mod History
use inno_taxi.Base.{String, Option, List, [], ◌∷◌}
use inno_taxi.Base.Int.{ℤ}
use inno_taxi.Order.Entity.{CreateOrderInput, OrderSearchFilter}
use inno_taxi.Order.Pricing.{FloatOps}
use inno_taxi.Order.World.{Env, World}
use inno_taxi.Order.Spec.{Effect, unchanged}
use inno_taxi.Order.Service.{
  create_order, cancel_order, start_trip, complete_trip, rate_trip, get_order, list_orders_of,
  search_orders_by,
}
use inno_taxi.Order.Service.Effects.{
  cancel_order-Effect, start_trip-Effect, complete_trip-Effect, rate_trip-Effect, get_order-Effect,
  list_orders_of-orders,
}
use inno_taxi.Order.Service.Creates.{create_order-Effect}
use mathlib.Core.Path.{refl}

pub data Request (F : Type 0) : Type 0 where
  create : CreateOrderInput F → Request F
  cancel : String → String → Request F
  start : String → String → Request F
  complete : String → String → Request F
  rate : String → String → ℤ → Option String → Request F
  get : String → String → Request F
  list : String → ℤ → ℤ → Request F
  search_by : OrderSearchFilter → Request F

module _ {F : Type 0} (fl : FloatOps F) (e : Env F) where
  unfoldable pub handle : Request F → World F → World F
  handle (create input) w = (create_order fl e input w).1
  handle (cancel k u) w = (cancel_order fl e k u w).1
  handle (start k u) w = (start_trip fl e k u w).1
  handle (complete k u) w = (complete_trip fl e k u w).1
  handle (rate k u r c) w = (rate_trip fl e k u r c w).1
  handle (get k u) w = (get_order fl e k u w).1
  handle (list u limit offset) w = (list_orders_of fl e u limit offset w).1
  handle (search_by f) w = (search_orders_by fl e f w).1

  -- Requests one after another.
  unfoldable pub run : List (Request F) → World F → World F
  run [] w = w
  run (r ∷ rs) w = run rs (handle r w)

  search_orders_by-Effect :
      (f : OrderSearchFilter) (w : World F) → Effect w.orders (search_orders_by fl e f w).1.orders
  unfolding search_orders_by
  search_orders_by-Effect f w = unchanged refl

  -- Whatever the database, the wallet, the drivers, the index and the broker answer, a request
  -- changes the table by one of the changes of `Effect`: nothing, one move along the lifecycle, one
  -- rating of a completed unrated order by 1 to 5, or one new row under a free key.
  pub handle-Effect : (r : Request F) (w : World F) → Effect w.orders (handle r w).orders
  unfolding handle
  handle-Effect (create input) w = create_order-Effect fl e input w
  handle-Effect (cancel k u) w = cancel_order-Effect fl e k u w
  handle-Effect (start k u) w = start_trip-Effect fl e k u w
  handle-Effect (complete k u) w = complete_trip-Effect fl e k u w
  handle-Effect (rate k u r c) w = rate_trip-Effect fl e k u r c w
  handle-Effect (get k u) w = get_order-Effect fl e k u w
  handle-Effect (list u limit offset) w = unchanged (list_orders_of-orders fl e u limit offset w)
  handle-Effect (search_by f) w = search_orders_by-Effect f w
