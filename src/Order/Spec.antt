-- ===== src/Order/Spec.antt =====
-- What a request may do to the table `orders`, stated apart from the code that does it.
use inno_taxi.Base.{ℕ, String, Option, none, some, List, [], ◌∷◌, ◌++◌, ◌≡◌}
use inno_taxi.Base.Int.{ℤ, pos, ◌≤ℤ◌}
use inno_taxi.Order.Entity.{
  Status, status_created, status_driver_assigned, status_in_progress, status_completed,
  status_cancelled, CreateOrderInput, Order,
}
use inno_taxi.Order.Repository.{
  lookup, update_where, always, is_unrated, set_status, set_driver, set_rating, inserted_row,
}

-- The lifecycle created, driver_assigned, in_progress, completed, with cancelled reached from the
-- first two. A driver is assigned within the request that creates the order.
pub data ◌⟶◌ : Status → Status → Type 0 where
  begin_trip : {s t : Status} → s ≡ status_driver_assigned → t ≡ status_in_progress → ◌⟶◌ s t
  finish_trip : {s t : Status} → s ≡ status_in_progress → t ≡ status_completed → ◌⟶◌ s t
  drop_created : {s t : Status} → s ≡ status_created → t ≡ status_cancelled → ◌⟶◌ s t
  drop_assigned : {s t : Status} → s ≡ status_driver_assigned → t ≡ status_cancelled → ◌⟶◌ s t

-- One atomic change of the table, or none.
pub data Effect {F : Type 0} (os : List (Order F)) : List (Order F) → Type 0 where
  unchanged : {os' : List (Order F)} → os' ≡ os → Effect os os'
  moved :
      {os' : List (Order F)} (k : String) (s : Status) (t : ℕ) (o : Order F)
      → lookup k os ≡ some o
      → ◌⟶◌ o.status s
      → os' ≡ update_where k always (set_status s t) os
      → Effect os os'
  rated :
      {os' : List (Order F)} (k : String) (r : ℤ) (c : Option String) (t : ℕ) (o : Order F)
      → lookup k os ≡ some o
      → o.status ≡ status_completed
      → pos 1 ≤ℤ r
      → r ≤ℤ pos 5
      → os' ≡ update_where k is_unrated (set_rating r c t) os
      → Effect os os'
  added :
      {os' : List (Order F)} (k : String) (p : ℤ) (input : CreateOrderInput F) (t : ℕ)
      → lookup k os ≡ none
      → os' ≡ os ++ inserted_row k p input t ∷ []
      → Effect os os'
  assigned :
      {os' : List (Order F)} (k : String) (p : ℤ) (input : CreateOrderInput F) (t : ℕ) (d : String)
      (t' : ℕ)
      → lookup k os ≡ none
      → os' ≡ update_where k always (set_driver d t') (os ++ inserted_row k p input t ∷ [])
      → Effect os os'
