-- ===== src/Order/Rpc/Hidden.antt =====
-- What the procedures tell of an order to somebody who is not a party to it.
use inno_taxi.Base.{ℕ, String, Option, none, some, false, ◌∷◌, ◌≡◌, inl, inr, refl, arith}
use inno_taxi.Base.Action.{ok, err}
use inno_taxi.Base.Tests.{◌==◌, Option-cases}
use inno_taxi.Order.Entity.{order_not_found, Order}
use inno_taxi.Order.Pricing.{FloatOps}
use inno_taxi.Order.World.{Env, World, select_order, no_fault}
use inno_taxi.Order.Repository.{lookup, is_party, get_order_by_id, log_call}
use inno_taxi.Order.Service.{is_driver, get_order, cancel_order, start_trip, complete_trip}
use inno_taxi.Order.Proto.{ProtoOrder}
use inno_taxi.Order.Rpc.{
  Reply, refused, not_found, error_text, get_order_rpc, cancel_order_rpc, start_trip_rpc,
  complete_trip_rpc,
}

module _ {F : Type 0} (fl : FloatOps F) (e : Env F) (format : ℕ → String)
    (parse : String → Option ℕ) where
  -- The answer to an order that does not exist, and the world after one look.
  abbrev pub no_order : String → World F → Reply (ProtoOrder F) × World F
  no_order k w = (refused not_found (error_text order_not_found), log_call (select_order k) w)

  abbrev pub IsOutsider : String → String → World F → Type 0
  IsOutsider k u w = (o : Order F) → lookup k w.orders ≡ some o → is_party u o ≡ false

  -- The two tests that an outsider fails.
  outsider_tests :
      (u : String) (o : Order F)
      → is_party u o ≡ false
      → ((o.user_id == u) ≡ false) × (is_driver u o ≡ false)
  outsider_tests u o h = (ground arith, ground arith)

  get_order_by_id-missing :
      (k : String) (w : World F)
      → e.database (select_order k ∷ w.calls) ≡ no_fault
      → lookup k w.orders ≡ none
      → get_order_by_id e k w ≡ (err order_not_found, log_call (select_order k) w)
  unfolding get_order_by_id
  get_order_by_id-missing k w up missing = ground (arith, up, missing)

  get_order_by_id-found :
      (k : String) (w : World F) (o : Order F)
      → e.database (select_order k ∷ w.calls) ≡ no_fault
      → lookup k w.orders ≡ some o
      → get_order_by_id e k w ≡ (ok o, log_call (select_order k) w)
  unfolding get_order_by_id
  get_order_by_id-found k w o up found = ground (arith, up, found)

  get_order-no_order :
      (k u : String) (w : World F)
      → e.database (select_order k ∷ w.calls) ≡ no_fault
      → IsOutsider k u w
      → get_order fl e k u w ≡ (err order_not_found, log_call (select_order k) w)
  unfolding get_order
  get_order-no_order k u w up out = elim (Option-cases (lookup k w.orders)) [
    | inl missing ↦ rw (get_order_by_id-missing k w up missing) refl
    | inr (o, found) ↦
        (let (rider, driver) = outsider_tests u o (out o found) in
          rw (get_order_by_id-found k w o up found) rw rider rw driver refl)
  ]

  cancel_order-no_order :
      (k u : String) (w : World F)
      → e.database (select_order k ∷ w.calls) ≡ no_fault
      → IsOutsider k u w
      → cancel_order fl e k u w ≡ (err order_not_found, log_call (select_order k) w)
  unfolding cancel_order
  cancel_order-no_order k u w up out = elim (Option-cases (lookup k w.orders)) [
    | inl missing ↦ rw (get_order_by_id-missing k w up missing) refl
    | inr (o, found) ↦
        (let (rider, driver) = outsider_tests u o (out o found) in
          rw (get_order_by_id-found k w o up found) rw rider refl)
  ]

  start_trip-no_order :
      (k u : String) (w : World F)
      → e.database (select_order k ∷ w.calls) ≡ no_fault
      → IsOutsider k u w
      → start_trip fl e k u w ≡ (err order_not_found, log_call (select_order k) w)
  unfolding start_trip
  start_trip-no_order k u w up out = elim (Option-cases (lookup k w.orders)) [
    | inl missing ↦ rw (get_order_by_id-missing k w up missing) refl
    | inr (o, found) ↦
        (let (rider, driver) = outsider_tests u o (out o found) in
          rw (get_order_by_id-found k w o up found) rw driver refl)
  ]

  complete_trip-no_order :
      (k u : String) (w : World F)
      → e.database (select_order k ∷ w.calls) ≡ no_fault
      → IsOutsider k u w
      → complete_trip fl e k u w ≡ (err order_not_found, log_call (select_order k) w)
  unfolding complete_trip
  complete_trip-no_order k u w up out = elim (Option-cases (lookup k w.orders)) [
    | inl missing ↦ rw (get_order_by_id-missing k w up missing) refl
    | inr (o, found) ↦
        (let (rider, driver) = outsider_tests u o (out o found) in
          rw (get_order_by_id-found k w o up found) rw driver refl)
  ]

  -- To a caller who is neither rider nor driver of an order, or where there is no order, the
  -- procedures GetOrder, CancelOrder, StartTrip and CompleteTrip give one and the same answer, where
  -- the database answers the look-up: not found, with nothing changed and nothing sent on.
  pub rpc-no_order :
      (k u : String) (w : World F)
      → (k == "") ≡ false
      → e.database (select_order k ∷ w.calls) ≡ no_fault
      → IsOutsider k u w
      → (get_order_rpc fl e format parse (some u) k w ≡ no_order k w)
        × (cancel_order_rpc fl e format parse (some u) k w ≡ no_order k w)
        × (start_trip_rpc fl e format parse (some u) k w ≡ no_order k w)
        × (complete_trip_rpc fl e format parse (some u) k w ≡ no_order k w)
  unfolding get_order_rpc cancel_order_rpc start_trip_rpc complete_trip_rpc
  rpc-no_order k u w given up out = (
    rw given rw (get_order-no_order k u w up out) refl,
    rw given rw (cancel_order-no_order k u w up out) refl,
    rw given rw (start_trip-no_order k u w up out) refl,
    rw given rw (complete_trip-no_order k u w up out) refl,
  )
