-- ===== src/Order/Repository.antt =====
-- services/order_service/repository/pg_repo: the SQL statements, on the rows of the table `orders`.
-- `CollectOneRow` takes the first row; `id` is the primary key.
pub mod Laws
use inno_taxi.Base.{ℕ, String, Option, none, some, Bool, true, false, ◌||◌, List, [], ◌∷◌, ◌++◌}
use inno_taxi.Base.Int.{ℤ, pos, pos_part}
use inno_taxi.Base.Action.{Result, ok, err, pure, ◌>>=◌}
use inno_taxi.Base.Lists.{length, take, drop}
use inno_taxi.Base.Tests.{◌==◌, if◌then◌else◌}
use inno_taxi.Order.Entity.{
  Error, order_not_found, order_already_rated, external, Order, CreateOrderInput, Status,
  status_created, status_driver_assigned,
}
use inno_taxi.Order.World.{
  Call, insert_order, select_order, update_status, assign_driver, rate_order, list_orders,
  count_orders, no_fault, request_lost, reply_lost, Env, World, OrderAction,
}

module _ {F : Type 0} where
  -- `WHERE id = @id`, one row.
  unfoldable pub lookup : String → List (Order F) → Option (Order F)
  lookup k [] = none
  lookup k (o ∷ os) = if o.id == k then some o else lookup k os

  -- `UPDATE orders SET ... WHERE id = @id AND cond`
  unfoldable pub update_where :
      String → (Order F → Bool) → (Order F → Order F) → List (Order F) → List (Order F)
  update_where k cond f [] = []
  update_where k cond f (o ∷ os) =
      (if o.id == k then (if cond o then f o else o) else o) ∷ update_where k cond f os

  -- `RETURNING`, of the row that the statement changed.
  unfoldable pub updated_row :
      String → (Order F → Bool) → (Order F → Order F) → List (Order F) → Option (Order F)
  updated_row k cond f [] = none
  updated_row k cond f (o ∷ os) =
      if o.id == k then (if cond o then some (f o) else none) else updated_row k cond f os

  abbrev pub log_call : Call F → World F → World F
  log_call c w = record w { calls = c ∷ w.calls }

  abbrev pub always : Order F → Bool
  always o = true

  abbrev pub is_unrated : Order F → Bool
  is_unrated o = elim o.rating [ none ↦ true | some _ ↦ false ]

  -- A row that a statement returned, or the error that the code makes of its absence.
  abbrev row_or : Error → Option (Order F) → Result Error (Order F)
  row_or e none = err e
  row_or e (some o) = ok o

  -- `WHERE user_id = @user_id OR driver_id = @user_id`
  abbrev pub is_party : String → Order F → Bool
  is_party u o = o.user_id == u || elim o.driver_id [ none ↦ false | some d ↦ d == u ]

  unfoldable pub select_party : String → List (Order F) → List (Order F)
  select_party u [] = []
  select_party u (o ∷ os) = if is_party u o then o ∷ select_party u os else select_party u os

  abbrev pub set_status : Status → ℕ → Order F → Order F
  set_status s t o = record o { status = s; updated_at = t }

  abbrev pub set_driver : String → ℕ → Order F → Order F
  set_driver d t o = record o {
    driver_id = some d;
    status = status_driver_assigned;
    updated_at = t;
  }

  abbrev pub set_rating : ℤ → Option String → ℕ → Order F → Order F
  set_rating r c t o = record o { rating = some r; comment = c; updated_at = t }

  -- The inserted row, with the defaults of the table.
  abbrev pub inserted_row : String → ℤ → CreateOrderInput F → ℕ → Order F
  inserted_row k price input t = record {
    id = k;
    user_id = input.user_id;
    driver_id = none;
    taxi_type = input.taxi_type;
    start = input.start;
    destination = input.destination;
    status = status_created;
    price_minor_units = some price;
    rating = none;
    comment = none;
    created_at = t;
    updated_at = t;
  }

  -- A statement that was sent: it may be lost on the way, or its reply may.
  abbrev pub run_statement :
      {A : Type 0}
      → Env F
      → Call F
      → (World F → World F)
      → (World F → Result Error A)
      → OrderAction F A
  run_statement e c effect answer w =
      let w' = log_call c w in
      elim (e.database w'.calls) [
        | no_fault ↦ (answer w', effect w')
        | request_lost m ↦ (err (external m), w')
        | reply_lost m ↦ (err (external m), effect w')
      ]

module _ {F : Type 0} (e : Env F) where
  unfoldable pub get_order_by_id : String → OrderAction F (Order F)
  get_order_by_id k =
      run_statement e (select_order k) (λ w. w) (λ w. row_or order_not_found (lookup k w.orders))

  -- `UPDATE ... WHERE id = @id AND cond RETURNING ...`
  abbrev update_one :
      Call F → Error → String → (Order F → Bool) → (Order F → Order F) → OrderAction F (Order F)
  update_one c missing k cond f =
      run_statement e c (λ w. record w { orders = update_where k cond f w.orders })
        (λ w. row_or missing (updated_row k cond f w.orders))

  unfoldable pub update_order_status : String → Status → OrderAction F (Order F)
  update_order_status k s w =
      update_one (update_status k s) order_not_found k always (set_status s (e.now w.calls)) w

  unfoldable pub assign_driver_row : String → String → OrderAction F (Order F)
  assign_driver_row k d w =
      update_one (assign_driver k d) order_not_found k always (set_driver d (e.now w.calls)) w

  unfoldable pub rate_order_row : String → ℤ → Option String → OrderAction F (Order F)
  rate_order_row k r c w =
      update_one (rate_order k r c) order_already_rated k is_unrated
        (set_rating r c (e.now w.calls)) w

  -- The primary key refuses a second row with one id.
  unfoldable pub create_order_row : String → ℤ → CreateOrderInput F → OrderAction F (Order F)
  create_order_row k price input w =
      let o = inserted_row k price input (e.now w.calls) in
      elim (lookup k w.orders) [
        | none ↦
            run_statement e (insert_order k price input)
              (λ v. record v { orders = v.orders ++ o ∷ [] }) (λ v. ok o) w
        | some _ ↦
            run_statement e (insert_order k price input) (λ v. v)
              (λ v. err (external "duplicate key")) w
      ]

  -- `LIMIT` and `OFFSET` are not negative here: the service has clamped them.
  select_page : String → ℤ → ℤ → OrderAction F (List (Order F))
  select_page u limit offset =
      run_statement e (list_orders u limit offset) (λ w. w)
        (λ w. ok (
          take (pos_part limit)
            (drop (pos_part offset) (e.order_by_created (select_party u w.orders)))))

  select_count : String → OrderAction F ℤ
  select_count u =
      run_statement e (count_orders u) (λ w. w) (λ w. ok (pos (length (select_party u w.orders))))

  unfoldable pub list_orders_by_user : String → ℤ → ℤ → OrderAction F (List (Order F) × ℤ)
  unfolding select_page select_count
  list_orders_by_user u limit offset = do
    orders ← select_page u limit offset
    total ← select_count u
    pure (orders, total)
