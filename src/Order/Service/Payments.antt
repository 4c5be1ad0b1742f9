-- ===== src/Order/Service/Payments.antt =====
-- The calls that the methods of `OrderService` make to the wallet.
use inno_taxi.Base.{
  String, Option, none, some, not, ◌||◌, List, [], ◌∷◌, ◌++◌, ◌≡◌, refl, ap, ◌∙◌, ◌⊎◌, inl, inr,
  arith,
}
use inno_taxi.Base.Int.{ℤ}
use inno_taxi.Base.Action.{Result, ok, err}
use inno_taxi.Base.Runs.{runs, Runs-post, Runs-raise_if}
use inno_taxi.Order.Entity.{
  Error, invalid_taxi_type, invalid_location, is_valid_taxi_type, Order, Status, CreateOrderInput,
}
use inno_taxi.Order.Pricing.{FloatOps, is_zero}
use inno_taxi.Order.World.{Call, Env, World, new_id, charge, refund, claim_driver, index_order}
use inno_taxi.Order.Repository.{
  lookup, inserted_row, create_order_row, update_order_status, assign_driver_row, rate_order_row,
  log_call,
}
use inno_taxi.Order.Service.{
  refundable, assign_claimed, try_assign_driver, announce, after_insert, store_charged, trip_price,
  place, create_order, release_assigned, move_to, publish_rating,
}
use inno_taxi.Order.Service.Stages.{create_order_row-ok}

-- The charges and refunds among the calls, the latest first.
abbrev pub payments : {F : Type 0} → List (Call F) → List (Call F)
payments [] = []
payments (charge u p k ∷ cs) = charge u p k ∷ payments cs
payments (refund u p k ∷ cs) = refund u p k ∷ payments cs
payments (_ ∷ cs) = payments cs

abbrev pub pays : {F : Type 0} → World F → List (Call F)
pays w = payments w.calls

-- The refund that an order with a positive price calls for.
abbrev pub refund_calls : {F : Type 0} → Order F → List (Call F) → List (Call F)
refund_calls o cs = elim (refundable o) [ none ↦ cs | some p ↦ refund o.user_id p o.id ∷ cs ]

module _ {F : Type 0} (fl : FloatOps F) (e : Env F) where
  create_order_row-pays :
      (k : String) (p : ℤ) (input : CreateOrderInput F) (w : World F)
      → pays (create_order_row e k p input w).1 ≡ pays w
  unfolding create_order_row
  create_order_row-pays k p input w = ground arith

  update_order_status-pays :
      (k : String) (s : Status) (w : World F) → pays (update_order_status e k s w).1 ≡ pays w
  unfolding update_order_status
  update_order_status-pays k s w = ground arith

  assign_driver_row-pays :
      (k d : String) (w : World F) → pays (assign_driver_row e k d w).1 ≡ pays w
  unfolding assign_driver_row
  assign_driver_row-pays k d w = ground arith

  pub rate_order_row-pays :
      (k : String) (r : ℤ) (c : Option String) (w : World F)
      → pays (rate_order_row e k r c w).1 ≡ pays w
  unfolding rate_order_row
  rate_order_row-pays k r c w = ground arith

  pub release_assigned-pays :
      (o : Order F) (w : World F) → pays (release_assigned fl e o w).1 ≡ pays w
  unfolding release_assigned
  release_assigned-pays o w = ground arith

  pub move_to-pays : (k : String) (s : Status) (w : World F) → pays (move_to fl e k s w).1 ≡ pays w
  unfolding move_to
  move_to-pays k s w = ground (arith, update_order_status-pays k s w)

  pub publish_rating-pays : (o : Order F) (w : World F) → pays (publish_rating fl e o w).1 ≡ pays w
  unfolding publish_rating
  publish_rating-pays o w = ground arith

  assign_claimed-pays :
      (o : Order F) (d : String) (w : World F) → pays (assign_claimed fl e o d w).1 ≡ pays w
  unfolding assign_claimed
  assign_claimed-pays o d w = ground (arith, assign_driver_row-pays o.id d w)

  assign_claimed-ne-err :
      (o : Order F) (d : String) (x : Error) (w : World F)
      → (assign_claimed fl e o d w).0 ≡ err x
      → ⊥
  unfolding assign_claimed
  assign_claimed-ne-err o d x w h = ground arith

  try_assign_driver-pays :
      (o : Order F) (w : World F) → pays (try_assign_driver fl e o w).1 ≡ pays w
  unfolding try_assign_driver
  try_assign_driver-pays o w = go (e.driver_claim (claim_driver o.taxi_type ∷ w.calls)) refl
    where
      go :
          (r : Result Error (Option String))
          → e.driver_claim (claim_driver o.taxi_type ∷ w.calls) ≡ r
          → pays (try_assign_driver fl e o w).1 ≡ pays w
      go (err x) h = rw h
      go (ok none) h = rw h
      go (ok (some d)) h = rw h (assign_claimed-pays o d (log_call (claim_driver o.taxi_type) w))

  announce-pays : (o : Order F) (w : World F) → pays (announce fl e o w).1 ≡ pays w
  unfolding announce
  announce-pays o w = ground (arith, try_assign_driver-pays o (log_call (index_order o) w))

  try_assign_driver-ne-err :
      (o : Order F) (x : Error) (w : World F) → (try_assign_driver fl e o w).0 ≡ err x → ⊥
  unfolding try_assign_driver
  try_assign_driver-ne-err o x w = go (e.driver_claim (claim_driver o.taxi_type ∷ w.calls)) refl
    where
      go :
          (r : Result Error (Option String))
          → e.driver_claim (claim_driver o.taxi_type ∷ w.calls) ≡ r
          → (try_assign_driver fl e o w).0 ≡ err x
          → ⊥
      go (err y) h = rw h (λ q. cc)
      go (ok none) h = rw h (λ q. cc)
      go (ok (some d)) h =
          rw h (assign_claimed-ne-err o d x (log_call (claim_driver o.taxi_type) w))

  announce-ne-err : (o : Order F) (x : Error) (w : World F) → (announce fl e o w).0 ≡ err x → ⊥
  unfolding announce
  announce-ne-err o x w h =
      ground (arith, try_assign_driver-ne-err o x (log_call (index_order o) w))

  -- What `store_charged` adds to the payments: nothing, or the refund of a row that was not stored.
  abbrev Stored :
      String → ℤ → CreateOrderInput F → World F → Result Error (Order F) → World F → Type 0
  Stored k p input w (ok o) w' = (pays w' ≡ pays w) × (lookup k w.orders ≡ none)
  Stored k p input w (err x) w' = pays w' ≡ refund input.user_id p k ∷ pays w

  announced-Stored :
      (k : String) (p : ℤ) (input : CreateOrderInput F) (w v v' : World F)
      (r : Result Error (Order F))
      → ((x : Error) → r ≡ err x → ⊥)
      → pays v' ≡ pays v
      → pays v ≡ pays w
      → lookup k w.orders ≡ none
      → Stored k p input w r v'
  announced-Stored k p input w v v' (ok o) fine a b free = (a ∙ b, free)
  announced-Stored k p input w v v' (err x) fine a b free = absurd (fine x refl)

  store_charged-Stored :
      (k : String) (p : ℤ) (input : CreateOrderInput F) (w : World F)
      → Stored k p input w (store_charged fl e k p input w).0 (store_charged fl e k p input w).1
  unfolding store_charged
  store_charged-Stored k p input w =
      go (create_order_row e k p input w).0 (create_order_row e k p input w).1
        (create_order_row-ok e k p input w) (create_order_row-pays k p input w)
    where
      row : Order F
      row = inserted_row k p input (e.now w.calls)

      go :
          (r : Result Error (Order F)) (v : World F)
          → ((o : Order F)
              → r ≡ ok o
              → (lookup k w.orders ≡ none) × (o ≡ row) × (v.orders ≡ w.orders ++ row ∷ []))
          → pays v ≡ pays w
          → Stored k p input w
              (after_insert fl e k p input r v).0
              (after_insert fl e k p input r v).1
      go (ok o) v stored same =
          announced-Stored k p input w v (announce fl e o v).1 (announce fl e o v).0
            (λ x. announce-ne-err o x v) (announce-pays o v) same (stored o refl).0
      go (err x) v stored same = ap (λ cs. refund input.user_id p k ∷ cs) same

  -- How `CreateOrder` ends, by its payments.
  abbrev pub Placed : CreateOrderInput F → World F → Result Error (Order F) → World F → Type 0
  Placed input w (ok o) w' =
      (k : String) × (e.fresh_id (new_id ∷ w.calls) ≡ ok k)
      × (lookup k w.orders ≡ none)
      × (e.wallet (charge input.user_id (trip_price fl e input) k ∷ new_id ∷ w.calls) ≡ none)
      × (pays w' ≡ charge input.user_id (trip_price fl e input) k ∷ pays w)
  Placed input w (err x) w' =
      (pays w' ≡ pays w)
      ⊎ ((k : String) × (e.wallet
              (charge input.user_id (trip_price fl e input) k ∷ new_id ∷ w.calls)
            ≡ some x)
          × (pays w' ≡ charge input.user_id (trip_price fl e input) k ∷ pays w)
          × (w'.orders ≡ w.orders))
      ⊎ ((k : String) × (e.wallet
              (charge input.user_id (trip_price fl e input) k ∷ new_id ∷ w.calls)
            ≡ none)
          × (pays w'
              ≡ refund input.user_id (trip_price fl e input) k
                ∷ charge input.user_id (trip_price fl e input) k
                ∷ pays w))

  Stored-Placed :
      (k : String) (input : CreateOrderInput F) (w v : World F) (r : Result Error (Order F))
      (w' : World F)
      → e.fresh_id (new_id ∷ w.calls) ≡ ok k
      → e.wallet (charge input.user_id (trip_price fl e input) k ∷ new_id ∷ w.calls) ≡ none
      → pays v ≡ charge input.user_id (trip_price fl e input) k ∷ pays w
      → v.orders ≡ w.orders
      → Stored k (trip_price fl e input) input v r w'
      → Placed input w r w'
  Stored-Placed k input w v (ok o) w' fresh paid before same (a, free) =
      (k, fresh, rw same at free, paid, a ∙ before)
  Stored-Placed k input w v (err x) w' fresh paid before same a =
      inr (inr (k, paid, a ∙ ap (λ cs. refund input.user_id (trip_price fl e input) k ∷ cs) before))

  place-Placed :
      (input : CreateOrderInput F) (w : World F) (r : Result Error String)
      → e.fresh_id (new_id ∷ w.calls) ≡ r
      → Placed input w
          (place fl e input r (log_call new_id w)).0
          (place fl e input r (log_call new_id w)).1
  unfolding place
  place-Placed input w (err x) fresh = inl refl
  place-Placed input w (ok k) fresh =
      go (e.wallet (charge input.user_id p k ∷ new_id ∷ w.calls)) refl
    where
      p : ℤ
      p = trip_price fl e input

      start : World F
      start = log_call new_id w

      go :
          (answer : Option Error)
          → e.wallet (charge input.user_id p k ∷ new_id ∷ w.calls) ≡ answer
          → Placed input w (place fl e input (ok k) start).0 (place fl e input (ok k) start).1
      go none h =
          let paid = log_call (charge input.user_id p k) start in
          rw h (
            Stored-Placed k input w paid (store_charged fl e k p input paid).0
              (store_charged fl e k p input paid).1 fresh h refl refl
              (store_charged-Stored k p input paid))
      go (some x) h = rw h (inr (inl (k, h, refl, refl)))

  -- `CreateOrder` that succeeds has sent the wallet one charge, of the trip's price under an id that no
  -- order had, to which the wallet answered no error, and no other payment. `CreateOrder` that fails has
  -- sent the wallet nothing; or one charge that was answered with that very error, and then no refund, so
  -- that nothing is given back if the wallet had debited all the same, and stored no row; or one charge
  -- that was answered without an error and then one refund of the same amount to the same rider under the
  -- same id, whatever the wallet answers to it.
  pub create_order-Placed :
      (input : CreateOrderInput F) (w : World F)
      → Placed input w (create_order fl e input w).0 (create_order fl e input w).1
  unfolding create_order
  create_order-Placed input w = Runs-post (
      Runs-raise_if (Placed input w) (not (is_valid_taxi_type input.taxi_type)) invalid_taxi_type _
        w (λ bad. inl refl)
        λ valid.
          Runs-raise_if (Placed input w) (is_zero fl input.start || is_zero fl input.destination)
            invalid_location _ w (λ bad. inl refl)
            λ placed. runs (place-Placed input w (e.fresh_id (new_id ∷ w.calls)) refl))
