-- ===== src/Order/Service.antt =====
-- services/order_service/service: the methods of `OrderService`. Log lines are left out.
pub mod Stages
pub mod Effects
pub mod Creates
pub mod Payments
pub mod Refunds
pub mod Authority
pub mod Listing
use inno_taxi.Base.{String, Option, none, some, Bool, true, false, not, ◌&&◌, ◌||◌, List, ◌∷◌}
use inno_taxi.Base.Int.{ℤ, pos, ltb_ℤ, leb_ℤ}
use inno_taxi.Base.Action.{
  Result, ok, err, Action, pure, raise, raise_if, attempt, best_effort, lift, ◌>>=◌, ◌>>◌,
}
use inno_taxi.Base.Tests.{◌==◌, if◌then◌else◌}
use inno_taxi.Order.Entity.{
  Error, invalid_taxi_type, invalid_location, order_not_found, order_not_cancellable,
  order_not_startable, order_not_completable, order_not_ratable, order_already_rated,
  invalid_rating, wrap, is_valid_taxi_type, Status, status_created, status_driver_assigned,
  status_in_progress, status_completed, status_cancelled, CreateOrderInput, Order,
  OrderSearchFilter,
}
use inno_taxi.Order.Pricing.{FloatOps, is_zero, price_for_trip}
use inno_taxi.Order.World.{
  Call, new_id, charge, refund, claim_driver, release_driver, index_order, search_orders,
  publish_created, publish_rated, Env, World, OrderAction,
}
use inno_taxi.Order.Repository.{
  log_call, get_order_by_id, update_order_status, assign_driver_row, rate_order_row,
  create_order_row, list_orders_by_user,
}

-- `fmt.Errorf("m: %w", err)` where there is an error.
abbrev wrap_error : {A : Type 0} → String → Result Error A → Result Error A
wrap_error m (ok a) = ok a
wrap_error m (err x) = err (wrap m x)

module _ {F : Type 0} where
  -- `order.DriverID != nil && *order.DriverID == id`
  abbrev pub is_driver : String → Order F → Bool
  is_driver u o = elim o.driver_id [ none ↦ false | some d ↦ d == u ]

  -- The amount to give back: `order.PriceMinorUnits != nil && *order.PriceMinorUnits > 0`.
  abbrev pub refundable : Order F → Option ℤ
  refundable o = elim o.price_minor_units [
    | none ↦ none
    | some p ↦ if ltb_ℤ (pos 0) p then some p else none
  ]

  abbrev pub is_cancellable : Order F → Bool
  is_cancellable o = o.status == status_created || o.status == status_driver_assigned

  abbrev pub is_rated : Order F → Bool
  is_rated o = elim o.rating [ none ↦ false | some _ ↦ true ]

  -- A call that answers with no more than an error.
  abbrev pub call_out : (List (Call F) → Option Error) → Call F → OrderAction F (Unit {0})
  call_out answer c w =
      let w' = log_call c w in (elim (answer w'.calls) [ none ↦ ok tt | some e ↦ err e ], w')

  abbrev pub ask : {A : Type 0} → (List (Call F) → Result Error A) → Call F → OrderAction F A
  ask answer c w = let w' = log_call c w in (answer w'.calls, w')

-- The `switch` that clamps `limit`, and the test on `offset`.
unfoldable pub clamp_limit : ℤ → ℤ
clamp_limit limit =
    if leb_ℤ limit (pos 0) then pos 20 else if ltb_ℤ (pos 100) limit then pos 100 else limit

unfoldable pub clamp_offset : ℤ → ℤ
clamp_offset offset = if ltb_ℤ offset (pos 0) then pos 0 else offset

module _ {F : Type 0} (fl : FloatOps F) (e : Env F) where
  pub wallet_charge : String → ℤ → String → OrderAction F (Unit {0})
  wallet_charge u amount reference = call_out e.wallet (charge u amount reference)

  pub wallet_refund : String → ℤ → String → OrderAction F (Unit {0})
  wallet_refund u amount reference = call_out e.wallet (refund u amount reference)

  pub release : String → OrderAction F (Unit {0})
  release d = call_out e.driver_release (release_driver d)

  pub index : Order F → OrderAction F (Unit {0})
  index o = call_out e.search_index (index_order o)

  -- The driver was claimed: assign it, or let it go again.
  pub assign_claimed : Order F → String → OrderAction F (Order F)
  unfolding release index
  assign_claimed order d = do
    r ← attempt (assign_driver_row e order.id d)
    elim r [
      | ok assigned ↦ best_effort (index assigned) >> pure assigned
      | err _ ↦ best_effort (release d) >> pure order
    ]

  -- `tryAssignDriver`
  unfoldable pub try_assign_driver : Order F → OrderAction F (Order F)
  unfolding assign_claimed
  try_assign_driver order = do
    r ← attempt (ask e.driver_claim (claim_driver order.taxi_type))
    elim r [
      | err _ ↦ pure order
      | ok claimed ↦ elim claimed [ none ↦ pure order | some d ↦ assign_claimed order d ]
    ]

  -- After the row is stored: index it, look for a driver, publish.
  pub announce : Order F → OrderAction F (Order F)
  unfolding index
  announce order = do
    best_effort (index order)
    order' ← try_assign_driver order
    best_effort (call_out e.broker (publish_created order'))
    pure order'

  -- The row is stored, or the money goes back to the rider.
  pub after_insert :
      String → ℤ → CreateOrderInput F → Result Error (Order F) → OrderAction F (Order F)
  unfolding announce wallet_refund
  after_insert order_id price input (ok order) = announce order
  after_insert order_id price input (err failure) =
      best_effort (wallet_refund input.user_id price order_id) >> raise failure

  -- The rider has been charged.
  pub store_charged : String → ℤ → CreateOrderInput F → OrderAction F (Order F)
  unfolding after_insert
  store_charged order_id price input = do
    r ← attempt (create_order_row e order_id price input)
    after_insert order_id price input r

  abbrev pub trip_price : CreateOrderInput F → ℤ
  trip_price input = price_for_trip fl input.taxi_type input.start input.destination

  -- With an id, or the error of `uuid.NewV7`: charge, then store.
  pub place : CreateOrderInput F → Result Error String → OrderAction F (Order F)
  unfolding store_charged wallet_charge
  place input (err x) = raise (wrap "generate order id" x)
  place input (ok order_id) =
      let price = trip_price input in
      wallet_charge input.user_id price order_id >> store_charged order_id price input

  unfoldable pub create_order : CreateOrderInput F → OrderAction F (Order F)
  unfolding place
  create_order input = do
    raise_if (not (is_valid_taxi_type input.taxi_type)) invalid_taxi_type
    raise_if (is_zero fl input.start || is_zero fl input.destination) invalid_location
    r ← attempt (ask e.fresh_id new_id)
    place input r

  -- `if price != nil && *price > 0 { Refund }`
  pub refund_price : Order F → OrderAction F (Unit {0})
  unfolding wallet_refund
  refund_price order = elim (refundable order) [
    | none ↦ pure tt
    | some p ↦ do
      r ← attempt (wallet_refund order.user_id p order.id)
      lift (wrap_error "refund for cancelled order" r)
  ]

  -- `if order.DriverID != nil { ReleaseDriver }`
  pub release_assigned : Order F → OrderAction F (Unit {0})
  unfolding release
  release_assigned order = elim order.driver_id [
    | none ↦ pure tt
    | some d ↦ best_effort (release d)
  ]

  -- `UpdateOrderStatus`, then the best-effort `IndexOrder`.
  pub move_to : String → Status → OrderAction F (Order F)
  unfolding index
  move_to order_id s = do
    updated ← update_order_status e order_id s
    best_effort (index updated)
    pure updated

  unfoldable pub cancel_order : String → String → OrderAction F (Order F)
  unfolding refund_price release_assigned move_to
  cancel_order order_id user_id = do
    order ← get_order_by_id e order_id
    raise_if (not (order.user_id == user_id)) order_not_found
    raise_if (not (is_cancellable order)) order_not_cancellable
    refund_price order
    release_assigned order
    move_to order_id status_cancelled

  unfoldable pub start_trip : String → String → OrderAction F (Order F)
  unfolding move_to
  start_trip order_id driver_user_id = do
    order ← get_order_by_id e order_id
    raise_if (not (is_driver driver_user_id order)) order_not_found
    raise_if (not (order.status == status_driver_assigned)) order_not_startable
    move_to order_id status_in_progress

  unfoldable pub complete_trip : String → String → OrderAction F (Order F)
  unfolding release_assigned move_to
  complete_trip order_id driver_user_id = do
    order ← get_order_by_id e order_id
    raise_if (not (is_driver driver_user_id order)) order_not_found
    raise_if (not (order.status == status_in_progress)) order_not_completable
    release_assigned order
    move_to order_id status_completed

  -- The row has been rated: index it and publish.
  pub publish_rating : Order F → OrderAction F (Order F)
  unfolding index
  publish_rating rated = do
    best_effort (index rated)
    best_effort (call_out e.broker (publish_rated rated))
    pure rated

  unfoldable pub rate_trip : String → String → ℤ → Option String → OrderAction F (Order F)
  unfolding publish_rating
  rate_trip order_id user_id rating comment = do
    raise_if (ltb_ℤ rating (pos 1) || ltb_ℤ (pos 5) rating) invalid_rating
    order ← get_order_by_id e order_id
    raise_if (not (order.user_id == user_id)) order_not_found
    raise_if (not (order.status == status_completed)) order_not_ratable
    raise_if (is_rated order) order_already_rated
    rated ← rate_order_row e order_id rating comment
    publish_rating rated

  unfoldable pub get_order : String → String → OrderAction F (Order F)
  get_order order_id caller_id = do
    order ← get_order_by_id e order_id
    raise_if (not (order.user_id == caller_id) && not (is_driver caller_id order)) order_not_found
    pure order

  unfoldable pub list_orders_of : String → ℤ → ℤ → OrderAction F (List (Order F) × ℤ)
  list_orders_of caller_id limit offset =
      list_orders_by_user e caller_id (clamp_limit limit) (clamp_offset offset)

  unfoldable pub search_orders_by : OrderSearchFilter → OrderAction F (List (Order F) × ℤ)
  search_orders_by filter =
      let clamped = record filter {
        limit = clamp_limit filter.limit;
        offset = clamp_offset filter.offset;
      } in
      ask e.search_result (search_orders clamped)
