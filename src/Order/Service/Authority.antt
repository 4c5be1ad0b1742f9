-- ===== src/Order/Service/Authority.antt =====
-- Who may do what: the guards of the methods, and what a success leaves in the table.
use inno_taxi.Base.{
  String, Option, none, some, false, not, ◌||◌, ◌∷◌, ◌≡◌, refl, inl, inr, arith, eq_iff,
}
use inno_taxi.Base.Int.{ℤ, pos, ltb_ℤ, ◌≤ℤ◌}
use inno_taxi.Base.Action.{Result, ok, err}
use inno_taxi.Base.Tests.{◌==◌, if◌then◌else◌, Option-cases}
use inno_taxi.Base.Runs.{runs, Runs-post, Then, Runs-bind, Runs-raise_if}
use inno_taxi.Order.Entity.{
  Error, order_not_found, order_not_startable, order_not_completable, order_not_ratable,
  order_already_rated, invalid_rating, Order, Status, status_driver_assigned, status_in_progress,
  status_completed,
}
use inno_taxi.Order.Pricing.{FloatOps}
use inno_taxi.Order.World.{Env, World, select_order, no_fault}
use inno_taxi.Order.Repository.{lookup, is_party, log_call, get_order_by_id, rate_order_row}
use inno_taxi.Order.Service.{
  is_driver, is_rated, release_assigned, move_to, publish_rating, start_trip, complete_trip,
  rate_trip, get_order,
}
use inno_taxi.Order.Service.Stages.{
  Runs-get_order_by_id, release_assigned-ok, move_to-ok, rate_order_row-ok, publish_rating-orders,
}

module _ {F : Type 0} (fl : FloatOps F) (e : Env F) where
  -- A success of `u` on order `k` found it in status `from`, with `u` as its driver, and left it in
  -- status `to`, as returned.
  abbrev pub DrivenBy :
      String → String → Status → Status → World F → Result Error (Order F) → World F → Type 0
  DrivenBy k u from to w (err x) w' = Unit
  DrivenBy k u from to w (ok o') w' =
      (o : Order F) × (lookup k w.orders ≡ some o)
      × (o.driver_id ≡ some u)
      × (o.status ≡ from)
      × (o'.status ≡ to)
      × (lookup k w'.orders ≡ some o')

  moved-DrivenBy :
      (k u : String) (from to : Status) (w v : World F) (o : Order F)
      → lookup k w.orders ≡ some o
      → o.driver_id ≡ some u
      → o.status ≡ from
      → DrivenBy k u from to w (move_to fl e k to v).0 (move_to fl e k to v).1
  moved-DrivenBy k u from to w v o found driven was =
      go (move_to fl e k to v).0 (move_to-ok fl e k to v)
    where
      go :
          (r : Result Error (Order F))
          → ((o' : Order F)
              → r ≡ ok o'
              → (o'.status ≡ to) × (lookup k (move_to fl e k to v).1.orders ≡ some o'))
          → DrivenBy k u from to w r (move_to fl e k to v).1
      go (ok o') done = (o, found, driven, was, (done o' refl).0, (done o' refl).1)
      go (err x) done = tt

  is_driver_of : (u : String) (o : Order F) → not (is_driver u o) ≡ false → o.driver_id ≡ some u
  is_driver_of u o h = elim (Option-cases o.driver_id) [
    | inl no_driver ↦ ground arith
    | inr (d, e') ↦ ground (arith, eq_iff d u)
  ]

  -- `StartTrip` succeeds only for the driver of an assigned order, and leaves it in progress.
  start_trip-DrivenBy :
      (k u : String) (w : World F)
      → DrivenBy k u status_driver_assigned status_in_progress w
          (start_trip fl e k u w).0
          (start_trip fl e k u w).1
  unfolding start_trip
  start_trip-DrivenBy k u w = Runs-post (
      Runs-get_order_by_id e Q k _ w (λ x. tt)
        λ o found.
          Runs-raise_if Q (not (is_driver u o)) order_not_found _ _ (λ other. tt)
            λ driven.
              Runs-raise_if Q (not (o.status == status_driver_assigned)) order_not_startable _ _
                (λ late. tt)
                λ was. runs (
                  moved-DrivenBy k u status_driver_assigned status_in_progress w _ o found
                    (is_driver_of u o driven)
                    (ground (arith, eq_iff o.status status_driver_assigned))))
    where
      Q : Result Error (Order F) → World F → Type 0
      Q = DrivenBy k u status_driver_assigned status_in_progress w

  -- `CompleteTrip` succeeds only for the driver of an order in progress, and leaves it completed.
  complete_trip-DrivenBy :
      (k u : String) (w : World F)
      → DrivenBy k u status_in_progress status_completed w
          (complete_trip fl e k u w).0
          (complete_trip fl e k u w).1
  unfolding complete_trip
  complete_trip-DrivenBy k u w = Runs-post (
      Runs-get_order_by_id e Q k _ w (λ x. tt)
        λ o found.
          Runs-raise_if Q (not (is_driver u o)) order_not_found _ _ (λ other. tt)
            λ driven.
              Runs-raise_if Q (not (o.status == status_in_progress)) order_not_completable _ _
                (λ late. tt)
                λ was. Runs-bind Q (release_assigned fl e o) _ _ (
                  runs (
                    rw (release_assigned-ok fl e o (log_call (select_order k) w)) (
                      runs (
                        moved-DrivenBy k u status_in_progress status_completed w _ o found
                          (is_driver_of u o driven)
                          (ground (arith, eq_iff o.status status_in_progress)))))))
    where
      Q : Result Error (Order F) → World F → Type 0
      Q = DrivenBy k u status_in_progress status_completed w

  -- `StartTrip` and `CompleteTrip` succeed only for the driver of the order, the first where it is
  -- assigned and the second where it is in progress, and leave it in progress and completed.
  pub trips-DrivenBy :
      (k u : String) (w : World F)
      → DrivenBy k u status_driver_assigned status_in_progress w
          (start_trip fl e k u w).0
          (start_trip fl e k u w).1
        × DrivenBy k u status_in_progress status_completed w
            (complete_trip fl e k u w).0
            (complete_trip fl e k u w).1
  trips-DrivenBy k u w = (start_trip-DrivenBy k u w, complete_trip-DrivenBy k u w)

  abbrev pub RatedBy :
      String → String → ℤ → Option String → World F → Result Error (Order F) → World F → Type 0
  RatedBy k u r c w (err x) w' = Unit
  RatedBy k u r c w (ok o') w' =
      (o : Order F) × (lookup k w.orders ≡ some o)
      × (o.user_id ≡ u)
      × (o.status ≡ status_completed)
      × (o.rating ≡ none)
      × (pos 1 ≤ℤ r)
      × (r ≤ℤ pos 5)
      × (o'.rating ≡ some r)
      × (o'.comment ≡ c)
      × (lookup k w'.orders ≡ some o')

  -- `RateTrip` succeeds only for the rider of a completed order that has no rating, with a rating
  -- from 1 to 5, and leaves the order with that rating and comment.
  pub rate_trip-RatedBy :
      (k u : String) (r : ℤ) (c : Option String) (w : World F)
      → RatedBy k u r c w (rate_trip fl e k u r c w).0 (rate_trip fl e k u r c w).1
  unfolding rate_trip
  rate_trip-RatedBy k u r c w = Runs-post (
      Runs-raise_if Q (ltb_ℤ r (pos 1) || ltb_ℤ (pos 5) r) invalid_rating _ w (λ bad. tt)
        λ good.
          Runs-get_order_by_id e Q k _ w (λ x. tt)
            λ o found.
              Runs-raise_if Q (not (o.user_id == u)) order_not_found _ _ (λ other. tt)
                λ own.
                  Runs-raise_if Q (not (o.status == status_completed)) order_not_ratable _ _
                    (λ late. tt)
                    λ done.
                      Runs-raise_if Q (is_rated o) order_already_rated _ _ (λ again. tt)
                        λ unrated. Runs-bind Q (rate_order_row e k r c) _ _ (
                          runs (
                            go o (log_call (select_order k) w) found
                              (ground (arith, eq_iff o.user_id u))
                              (ground (arith, eq_iff o.status status_completed)) (ground arith)
                              (ground (arith, good)) (ground (arith, good)) _ _
                              (rate_order_row-ok e k r c _))))
    where
      Q : Result Error (Order F) → World F → Type 0
      Q = RatedBy k u r c w

      go :
          (o : Order F) (v : World F)
          → lookup k w.orders ≡ some o
          → o.user_id ≡ u
          → o.status ≡ status_completed
          → o.rating ≡ none
          → pos 1 ≤ℤ r
          → r ≤ℤ pos 5
          → (a : Result Error (Order F)) (v' : World F)
          → ((o' : Order F)
              → a ≡ ok o'
              → (o'.rating ≡ some r) × (o'.comment ≡ c) × (lookup k v'.orders ≡ some o'))
          → Then Q (publish_rating fl e) a v'
      go o v found own done unrated low high (ok o') v' stored = runs (
        o,
        found,
        own,
        done,
        unrated,
        low,
        high,
        (stored o' refl).0,
        (stored o' refl).1,
        rw (publish_rating-orders fl e o' v') (stored o' refl).2,
      )
      go o v found own done unrated low high (err x) v' stored = tt

  -- What a caller is shown of an order: nothing tells an order of other people from no order.
  abbrev pub shown : String → Option (Order F) → Result Error (Order F)
  shown u none = err order_not_found
  shown u (some o) = if is_party u o then ok o else err order_not_found

  -- Where the database answers, `GetOrder` returns an order exactly to the two parties by which
  -- `ListOrders` selects, and to anybody else it answers as where there is no such order.
  pub get_order-shown :
      (k u : String) (w : World F)
      → e.database (select_order k ∷ w.calls) ≡ no_fault
      → (get_order fl e k u w).0 ≡ shown u (lookup k w.orders)
  unfolding get_order get_order_by_id
  get_order-shown k u w h = ground arith
