-- ===== src/Order/Service/Creates.antt =====
-- `CreateOrder` adds one row, created or with a driver, or changes nothing.
use inno_taxi.Base.{
  ℕ, String, Option, none, some, not, ◌||◌, List, [], ◌∷◌, ◌++◌, ◌≡◌, refl, ◌⊎◌, inl, inr,
}
use inno_taxi.Base.Int.{ℤ}
use inno_taxi.Base.Action.{Result, ok, err, pure, ◌>>◌, best_effort, continue}
use inno_taxi.Base.Runs.{runs, Runs-post, Runs-raise_if}
use inno_taxi.Order.Entity.{
  Error, invalid_taxi_type, invalid_location, is_valid_taxi_type, Order, CreateOrderInput,
}
use inno_taxi.Order.Pricing.{FloatOps, is_zero, price_for_trip}
use inno_taxi.Order.World.{Env, World, new_id, charge, index_order, publish_created}
use inno_taxi.Order.Repository.{lookup, inserted_row, create_order_row, log_call}
use inno_taxi.Order.Spec.{Effect, unchanged, added, assigned}
use inno_taxi.Order.Service.{call_out, announce, after_insert, store_charged, place, create_order}
use inno_taxi.Order.Service.Stages.{
  create_order_row-orders, create_order_row-ok, MayAssign, try_assign_driver-orders,
}

module _ {F : Type 0} (fl : FloatOps F) (e : Env F) where
  announce-orders :
      (o : Order F) (w : World F) → MayAssign fl e o w.orders (announce fl e o w).1.orders
  unfolding announce
  announce-orders o w = go _ _ (try_assign_driver-orders fl e o (log_call (index_order o) w))
    where
      go :
          (r : Result Error (Order F)) (v : World F)
          → MayAssign fl e o w.orders v.orders
          → MayAssign fl e o w.orders
              (continue
                (λ order'. best_effort (call_out e.broker (publish_created order')) >> pure order')
                r
                v).1.orders
      go (ok x) v h = h
      go (err x) v h = h

  -- The table after an insert that was accepted, a claimed driver included.
  added_then :
      (k : String) (p : ℤ) (input : CreateOrderInput F) (t : ℕ) (os os' : List (Order F))
      → lookup k os ≡ none
      → MayAssign fl e (inserted_row k p input t) (os ++ inserted_row k p input t ∷ []) os'
      → Effect os os'
  added_then k p input t os os' free (inl kept) = added k p input t free kept
  added_then k p input t os os' free (inr (d, t', set)) = assigned k p input t d t' free set

  store_charged-Effect :
      (k : String) (p : ℤ) (input : CreateOrderInput F) (w : World F)
      → Effect w.orders (store_charged fl e k p input w).1.orders
  unfolding store_charged
  store_charged-Effect k p input w =
      go (create_order_row e k p input w).0 (create_order_row e k p input w).1
        (create_order_row-ok e k p input w) (create_order_row-orders e k p input w)
    where
      row : Order F
      row = inserted_row k p input (e.now w.calls)

      go :
          (r : Result Error (Order F)) (v : World F)
          → ((o : Order F)
              → r ≡ ok o
              → (lookup k w.orders ≡ none) × (o ≡ row) × (v.orders ≡ w.orders ++ row ∷ []))
          → (v.orders ≡ w.orders) ⊎ ((lookup k w.orders ≡ none) × (v.orders ≡ w.orders ++ row ∷ []))
          → Effect w.orders (after_insert fl e k p input r v).1.orders
      go (ok o) v stored either =
          let (free, is_row, table) = stored o refl in
          rw is_row (
            added_then k p input (e.now w.calls) w.orders _ free
              (rw (← table) (announce-orders row v)))
      go (err x) v stored (inl kept) = unchanged kept
      go (err x) v stored (inr (free, table)) = added k p input (e.now w.calls) free table

  place-Effect :
      (input : CreateOrderInput F) (r : Result Error String) (w : World F)
      → Effect w.orders (place fl e input r w).1.orders
  unfolding place
  place-Effect input (err x) w = unchanged refl
  place-Effect input (ok k) w = go (e.wallet (charge input.user_id p k ∷ w.calls)) refl
    where
      p : ℤ
      p = price_for_trip fl input.taxi_type input.start input.destination

      go :
          (answer : Option Error)
          → e.wallet (charge input.user_id p k ∷ w.calls) ≡ answer
          → Effect w.orders (place fl e input (ok k) w).1.orders
      go none h = rw h (store_charged-Effect k p input (log_call (charge input.user_id p k) w))
      go (some x) h = rw h (unchanged refl)

  pub create_order-Effect :
      (input : CreateOrderInput F) (w : World F)
      → Effect w.orders (create_order fl e input w).1.orders
  unfolding create_order
  create_order-Effect input w = Runs-post (
      Runs-raise_if Q (not (is_valid_taxi_type input.taxi_type)) invalid_taxi_type _ w
        (λ bad. unchanged refl)
        λ valid.
          Runs-raise_if Q (is_zero fl input.start || is_zero fl input.destination) invalid_location
            _ w (λ bad. unchanged refl)
            λ placed. runs (place-Effect input (e.fresh_id (new_id ∷ w.calls)) (log_call new_id w)))
    where
      Q : Result Error (Order F) → World F → Type 0
      Q r w' = Effect w.orders w'.orders
