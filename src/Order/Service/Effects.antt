-- ===== src/Order/Service/Effects.antt =====
-- Each method of `OrderService` changes the table `orders` by one of the changes of Order.Spec.
use inno_taxi.Base.{
  String, Option, some, false, not, ◌||◌, ◌&&◌, List, ◌≡◌, refl, inl, inr, ◌∙◌, arith, eq_iff,
}
use inno_taxi.Base.Int.{ℤ, pos, ◌≤ℤ◌, ltb_ℤ}
use inno_taxi.Base.Action.{Result, ok, err, ◌>>◌}
use inno_taxi.Base.Runs.{runs, Runs-post, Then, Runs-bind, Runs-raise_if}
use inno_taxi.Base.Tests.{◌==◌, Bool-cases}
use inno_taxi.Order.Entity.{
  Error, order_not_found, order_not_startable, order_not_cancellable, order_not_completable,
  order_not_ratable, order_already_rated, invalid_rating, Order, Status, status_created,
  status_driver_assigned, status_in_progress, status_completed, status_cancelled,
}
use inno_taxi.Order.Pricing.{FloatOps}
use inno_taxi.Order.World.{Env, World}
use inno_taxi.Order.Repository.{lookup, rate_order_row, list_orders_by_user}
use inno_taxi.Order.Spec.{
  Effect, unchanged, moved, rated, ◌⟶◌, begin_trip, finish_trip, drop_created, drop_assigned,
}
use inno_taxi.Order.Service.{
  is_driver, is_cancellable, is_rated, refund_price, release_assigned, move_to, publish_rating,
  cancel_order, start_trip, complete_trip, rate_trip, get_order, list_orders_of,
}
use inno_taxi.Order.Service.Stages.{
  Runs-get_order_by_id, rate_order_row-orders, refund_price-orders, release_assigned-ok,
  release_assigned-orders, publish_rating-orders, move_to-orders,
}

module _ {F : Type 0} (fl : FloatOps F) (e : Env F) where
  -- The write that ends `cancel_order`, `start_trip` and `complete_trip`.
  move_to-Effect :
      (k : String) (s : Status) (w : World F) (o : Order F) (os : List (Order F))
      → w.orders ≡ os
      → lookup k os ≡ some o
      → ◌⟶◌ o.status s
      → Effect os (move_to fl e k s w).1.orders
  move_to-Effect k s w o os same found edge = elim (move_to-orders fl e k s w) [
    | inl kept ↦ unchanged (kept ∙ same)
    | inr changed ↦ moved k s (e.now w.calls) o found edge (rw (← same) changed)
  ]

  pub start_trip-Effect :
      (k u : String) (w : World F) → Effect w.orders (start_trip fl e k u w).1.orders
  unfolding start_trip
  start_trip-Effect k u w = Runs-post (
      Runs-get_order_by_id e Q k _ w (λ x. unchanged refl)
        λ o found.
          Runs-raise_if Q (not (is_driver u o)) order_not_found _ _ (λ not_driver. unchanged refl)
            λ driver.
              Runs-raise_if Q (not (o.status == status_driver_assigned)) order_not_startable _ _
                (λ not_assigned. unchanged refl)
                λ is_assigned. runs (
                  move_to-Effect k status_in_progress _ o w.orders refl found
                    (begin_trip (ground (arith, eq_iff o.status status_driver_assigned)) refl)))
    where
      Q : Result Error (Order F) → World F → Type 0
      Q r w' = Effect w.orders w'.orders

  pub complete_trip-Effect :
      (k u : String) (w : World F) → Effect w.orders (complete_trip fl e k u w).1.orders
  unfolding complete_trip
  complete_trip-Effect k u w = Runs-post (
      Runs-get_order_by_id e Q k _ w (λ x. unchanged refl)
        λ o found.
          Runs-raise_if Q (not (is_driver u o)) order_not_found _ _ (λ not_driver. unchanged refl)
            λ driver.
              Runs-raise_if Q (not (o.status == status_in_progress)) order_not_completable _ _
                (λ not_running. unchanged refl)
                λ running. Runs-bind Q (release_assigned fl e o) _ _ (
                  runs (
                    finish o found running _ _ (release_assigned-ok fl e o _)
                      (release_assigned-orders fl e o _))))
    where
      Q : Result Error (Order F) → World F → Type 0
      Q r w' = Effect w.orders w'.orders

      finish :
          (o : Order F)
          → lookup k w.orders ≡ some o
          → not (o.status == status_in_progress) ≡ false
          → (r : Result Error (Unit {0})) (v : World F) → r ≡ ok tt
          → v.orders ≡ w.orders
          → Then Q (λ _. move_to fl e k status_completed) r v
      finish o found running (ok _) v done same = runs (
          move_to-Effect k status_completed v o w.orders same found
            (finish_trip (ground (arith, eq_iff o.status status_in_progress)) refl))
      finish o found running (err x) v done same = unchanged same

  -- Between the refund and the write only the calls made grow.
  cancel_order-finish :
      (k : String) (o : Order F) (os : List (Order F)) (v : World F)
      → lookup k os ≡ some o
      → not (is_cancellable o) ≡ false
      → v.orders ≡ os
      → Effect os ((release_assigned fl e o >> move_to fl e k status_cancelled) v).1.orders
  cancel_order-finish k o os v found open_order same = Runs-post (
      Runs-bind Q (release_assigned fl e o) _ v
        (runs (go _ _ (release_assigned-orders fl e o v ∙ same))))
    where
      Q : Result Error (Order F) → World F → Type 0
      Q r w' = Effect os w'.orders

      edge : ◌⟶◌ o.status status_cancelled
      edge = elim (Bool-cases (o.status == status_created)) [
        | inl fresh ↦ drop_created (ground (arith, eq_iff o.status status_created)) refl
        | inr taken ↦ drop_assigned (ground (arith, eq_iff o.status status_driver_assigned)) refl
      ]

      go :
          (r : Result Error (Unit {0})) (v' : World F)
          → v'.orders ≡ os
          → Then Q (λ _. move_to fl e k status_cancelled) r v'
      go (ok _) v' here = runs (move_to-Effect k status_cancelled v' o os here found edge)
      go (err x) v' here = unchanged here

  pub cancel_order-Effect :
      (k u : String) (w : World F) → Effect w.orders (cancel_order fl e k u w).1.orders
  unfolding cancel_order
  cancel_order-Effect k u w = Runs-post (
      Runs-get_order_by_id e Q k _ w (λ x. unchanged refl)
        λ o found.
          Runs-raise_if Q (not (o.user_id == u)) order_not_found _ _ (λ other. unchanged refl)
            λ own.
              Runs-raise_if Q (not (is_cancellable o)) order_not_cancellable _ _
                (λ late. unchanged refl)
                λ open_order.
                  Runs-bind Q (refund_price fl e o) _ _
                    (runs (go o found open_order _ _ (refund_price-orders fl e o _))))
    where
      Q : Result Error (Order F) → World F → Type 0
      Q r w' = Effect w.orders w'.orders

      go :
          (o : Order F)
          → lookup k w.orders ≡ some o
          → not (is_cancellable o) ≡ false
          → (r : Result Error (Unit {0})) (v : World F) → v.orders ≡ w.orders
          → Then Q (λ _. release_assigned fl e o >> move_to fl e k status_cancelled) r v
      go o found open_order (ok _) v same =
          runs (cancel_order-finish k o w.orders v found open_order same)
      go o found open_order (err x) v same = unchanged same

  rate_order_row-Effect :
      (k : String) (r : ℤ) (c : Option String) (w : World F) (o : Order F) (os : List (Order F))
      → w.orders ≡ os
      → lookup k os ≡ some o
      → o.status ≡ status_completed
      → pos 1 ≤ℤ r
      → r ≤ℤ pos 5
      → Effect os (rate_order_row e k r c w).1.orders
  rate_order_row-Effect k r c w o os same found done low high =
      elim (rate_order_row-orders e k r c w) [
        | inl kept ↦ unchanged (kept ∙ same)
        | inr changed ↦ rated k r c (e.now w.calls) o found done low high (rw (← same) changed)
      ]

  pub rate_trip-Effect :
      (k u : String) (rating : ℤ) (comment : Option String) (w : World F)
      → Effect w.orders (rate_trip fl e k u rating comment w).1.orders
  unfolding rate_trip
  rate_trip-Effect k u rating comment w = Runs-post (
      Runs-raise_if Q (ltb_ℤ rating (pos 1) || ltb_ℤ (pos 5) rating) invalid_rating _ w
        (λ bad. unchanged refl)
        λ good.
          Runs-get_order_by_id e Q k _ w (λ x. unchanged refl)
            λ o found.
              Runs-raise_if Q (not (o.user_id == u)) order_not_found _ _ (λ other. unchanged refl)
                λ own.
                  Runs-raise_if Q (not (o.status == status_completed)) order_not_ratable _ _
                    (λ late. unchanged refl)
                    λ done.
                      Runs-raise_if Q (is_rated o) order_already_rated _ _ (λ again. unchanged refl)
                        λ unrated. Runs-bind Q (rate_order_row e k rating comment) _ _ (
                          runs (
                            go _ _ (
                              rate_order_row-Effect k rating comment _ o w.orders refl found
                                (ground (arith, eq_iff o.status status_completed))
                                (ground (arith, good)) (ground (arith, good))))))
    where
      Q : Result Error (Order F) → World F → Type 0
      Q r w' = Effect w.orders w'.orders

      go :
          (r : Result Error (Order F)) (v : World F)
          → Effect w.orders v.orders
          → Then Q (publish_rating fl e) r v
      go (ok o) v h = runs (rw (publish_rating-orders fl e o v) h)
      go (err x) v h = h

  pub get_order-Effect :
      (k u : String) (w : World F) → Effect w.orders (get_order fl e k u w).1.orders
  unfolding get_order
  get_order-Effect k u w = Runs-post (
      Runs-get_order_by_id e Q k _ w (λ x. unchanged refl)
        λ o found.
          Runs-raise_if Q (not (o.user_id == u) && not (is_driver u o)) order_not_found _ _
            (λ other. unchanged refl) (λ party. runs (unchanged refl)))
    where
      Q : Result Error (Order F) → World F → Type 0
      Q r w' = Effect w.orders w'.orders

  pub list_orders_of-orders :
      (u : String) (limit offset : ℤ) (w : World F)
      → (list_orders_of fl e u limit offset w).1.orders ≡ w.orders
  unfolding list_orders_of list_orders_by_user
  list_orders_of-orders u limit offset w = ground arith
