-- ===== src/Order/Service/Stages.antt =====
-- What the shared stages of the methods do to the table `orders`.
use inno_taxi.Base.{
  ℕ, String, Option, none, some, List, [], ◌∷◌, ◌++◌, ◌≡◌, refl, ◌⊎◌, inl, inr, arith,
}
use inno_taxi.Base.Int.{ℤ}
use inno_taxi.Base.Action.{Result, ok, err, ◌>>=◌}
use inno_taxi.Base.Runs.{Runs, runs, Then, Runs-bind}
use inno_taxi.Order.Entity.{Error, Order, Status, CreateOrderInput}
use inno_taxi.Order.Pricing.{FloatOps}
use inno_taxi.Order.World.{Env, World, OrderAction, claim_driver, select_order}
use inno_taxi.Order.Repository.{
  lookup, update_where, always, is_unrated, set_status, set_driver, set_rating, inserted_row,
  get_order_by_id, update_order_status, assign_driver_row, rate_order_row, create_order_row,
  log_call,
}
use inno_taxi.Order.Repository.Laws.{lookup-update_where, updated_row_lem}
use inno_taxi.Base.Tests.{Option-cases, ==_self}
use inno_taxi.Order.Service.{
  refund_price, release_assigned, move_to, publish_rating, assign_claimed, try_assign_driver,
}

module _ {F : Type 0} (e : Env F) where
  -- A read changes no row, and what it returns is the row.
  pub get_order_by_id-reads :
      (k : String) (w : World F) (o : Order F)
      → (get_order_by_id e k w).0 ≡ ok o
      → lookup k w.orders ≡ some o
  unfolding get_order_by_id
  get_order_by_id-reads k w o h = ground arith

  -- It leaves no trace but the call.
  pub get_order_by_id-world :
      (k : String) (w : World F) → (get_order_by_id e k w).1 ≡ log_call (select_order k) w
  unfolding get_order_by_id
  get_order_by_id-world k w = ground arith

  -- A method that begins by reading an order goes on with the row of that key, or ends there.
  pub Runs-get_order_by_id :
      {B : Type 0} (Q : Result Error B → World F → Type 0) (k : String)
      (f : Order F → OrderAction F B) (w : World F)
      → ((x : Error) → Q (err x) (log_call (select_order k) w))
      → ((o : Order F) → lookup k w.orders ≡ some o → Runs Q (f o) (log_call (select_order k) w))
      → Runs Q (get_order_by_id e k >>= f) w
  Runs-get_order_by_id {B} Q k f w stop found = Runs-bind Q (get_order_by_id e k) f w (
      runs (
        go (get_order_by_id e k w).0 (get_order_by_id e k w).1 (get_order_by_id-reads k w)
          (get_order_by_id-world k w)))
    where
      go :
          (r : Result Error (Order F)) (v : World F)
          → ((o : Order F) → r ≡ ok o → lookup k w.orders ≡ some o)
          → v ≡ log_call (select_order k) w
          → Then Q f r v
      go (ok o) v reads same = rw same (found o (reads o refl))
      go (err x) v reads same = rw same (stop x)

  pub update_order_status-orders :
      (k : String) (s : Status) (w : World F)
      → ((update_order_status e k s w).1.orders ≡ w.orders)
        ⊎ ((update_order_status e k s w).1.orders
            ≡ update_where k always (set_status s (e.now w.calls)) w.orders)
  unfolding update_order_status
  update_order_status-orders k s w = ground arith

  -- A row that a status update returns is in the table, with that status.
  pub update_order_status-ok :
      (k : String) (s : Status) (w : World F) (o' : Order F)
      → (update_order_status e k s w).0 ≡ ok o'
      → (o'.status ≡ s) × (lookup k (update_order_status e k s w).1.orders ≡ some o')
  unfolding update_order_status
  update_order_status-ok k s w o' h = elim (Option-cases (lookup k w.orders)) [
    | inl missing ↦
        absurd (ground (arith, updated_row_lem k always (set_status s (e.now w.calls)) w.orders))
    | inr (o, found) ↦ ground (
      arith,
      ==_self k,
      updated_row_lem k always (set_status s (e.now w.calls)) w.orders,
      lookup-update_where k k always (set_status s (e.now w.calls)) w.orders (λ x. refl),
    )
  ]

  -- A row that a rating returns was unrated, and is in the table with the rating.
  pub rate_order_row-ok :
      (k : String) (r : ℤ) (c : Option String) (w : World F) (o' : Order F)
      → (rate_order_row e k r c w).0 ≡ ok o'
      → (o'.rating ≡ some r)
        × (o'.comment ≡ c)
        × (lookup k (rate_order_row e k r c w).1.orders ≡ some o')
  unfolding rate_order_row
  rate_order_row-ok k r c w o' h = elim (Option-cases (lookup k w.orders)) [
    | inl missing ↦
        absurd
          (ground (arith, updated_row_lem k is_unrated (set_rating r c (e.now w.calls)) w.orders))
    | inr (o, found) ↦ ground (
      arith,
      ==_self k,
      updated_row_lem k is_unrated (set_rating r c (e.now w.calls)) w.orders,
      lookup-update_where k k is_unrated (set_rating r c (e.now w.calls)) w.orders (λ x. refl),
    )
  ]

  pub rate_order_row-orders :
      (k : String) (r : ℤ) (c : Option String) (w : World F)
      → ((rate_order_row e k r c w).1.orders ≡ w.orders)
        ⊎ ((rate_order_row e k r c w).1.orders
            ≡ update_where k is_unrated (set_rating r c (e.now w.calls)) w.orders)
  unfolding rate_order_row
  rate_order_row-orders k r c w = ground arith

  pub assign_driver_row-orders :
      (k d : String) (w : World F)
      → ((assign_driver_row e k d w).1.orders ≡ w.orders)
        ⊎ ((assign_driver_row e k d w).1.orders
            ≡ update_where k always (set_driver d (e.now w.calls)) w.orders)
  unfolding assign_driver_row
  assign_driver_row-orders k d w = ground arith

  pub create_order_row-orders :
      (k : String) (p : ℤ) (input : CreateOrderInput F) (w : World F)
      → ((create_order_row e k p input w).1.orders ≡ w.orders)
        ⊎ ((lookup k w.orders ≡ none)
            × ((create_order_row e k p input w).1.orders
                ≡ w.orders ++ inserted_row k p input (e.now w.calls) ∷ []))
  unfolding create_order_row
  create_order_row-orders k p input w = ground arith

  -- A row is returned only if it was stored.
  pub create_order_row-ok :
      (k : String) (p : ℤ) (input : CreateOrderInput F) (w : World F) (o : Order F)
      → (create_order_row e k p input w).0 ≡ ok o
      → (lookup k w.orders ≡ none)
        × (o ≡ inserted_row k p input (e.now w.calls))
        × ((create_order_row e k p input w).1.orders
            ≡ w.orders ++ inserted_row k p input (e.now w.calls) ∷ [])
  unfolding create_order_row
  create_order_row-ok k p input w o h = ground arith

module _ {F : Type 0} (fl : FloatOps F) (e : Env F) where
  pub refund_price-orders :
      (o : Order F) (w : World F) → (refund_price fl e o w).1.orders ≡ w.orders
  unfolding refund_price
  refund_price-orders o w = ground arith

  pub release_assigned-orders :
      (o : Order F) (w : World F) → (release_assigned fl e o w).1.orders ≡ w.orders
  unfolding release_assigned
  release_assigned-orders o w = ground arith

  pub release_assigned-ok : (o : Order F) (w : World F) → (release_assigned fl e o w).0 ≡ ok tt
  unfolding release_assigned
  release_assigned-ok o w = ground arith

  pub publish_rating-orders :
      (o : Order F) (w : World F) → (publish_rating fl e o w).1.orders ≡ w.orders
  unfolding publish_rating
  publish_rating-orders o w = ground arith

  pub move_to-orders :
      (k : String) (s : Status) (w : World F)
      → ((move_to fl e k s w).1.orders ≡ w.orders)
        ⊎ ((move_to fl e k s w).1.orders
            ≡ update_where k always (set_status s (e.now w.calls)) w.orders)
  unfolding move_to
  move_to-orders k s w = ground (arith, update_order_status-orders e k s w)

  -- Whatever becomes of a claim, the table is as it was or the driver is on the order's row.
  abbrev pub MayAssign : Order F → List (Order F) → List (Order F) → Type 0
  MayAssign o os os' =
      (os' ≡ os) ⊎ ((d : String) × (t : ℕ) × (os' ≡ update_where o.id always (set_driver d t) os))

  assign_claimed-orders :
      (o : Order F) (d : String) (w : World F)
      → MayAssign o w.orders (assign_claimed fl e o d w).1.orders
  assign_claimed-orders o d w = elim (assign_driver_row-orders e o.id d w) [
    | inl kept ↦ inl (unfold assign_claimed in ground (arith, kept))
    | inr moved ↦ inr (d, e.now w.calls, unfold assign_claimed in ground (arith, moved))
  ]

  pub move_to-ok :
      (k : String) (s : Status) (w : World F) (o' : Order F)
      → (move_to fl e k s w).0 ≡ ok o'
      → (o'.status ≡ s) × (lookup k (move_to fl e k s w).1.orders ≡ some o')
  unfolding move_to
  move_to-ok k s w o' h = ground (arith, update_order_status-ok e k s w o')

  pub try_assign_driver-orders :
      (o : Order F) (w : World F) → MayAssign o w.orders (try_assign_driver fl e o w).1.orders
  unfolding try_assign_driver
  try_assign_driver-orders o w = go (e.driver_claim (claim_driver o.taxi_type ∷ w.calls)) refl
    where
      go :
          (r : Result Error (Option String))
          → e.driver_claim (claim_driver o.taxi_type ∷ w.calls) ≡ r
          → MayAssign o w.orders (try_assign_driver fl e o w).1.orders
      go (err x) h = inl (rw h)
      go (ok none) h = inl (rw h)
      go (ok (some d)) h = rw h (assign_claimed-orders o d (log_call (claim_driver o.taxi_type) w))
