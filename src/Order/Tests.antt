-- ===== src/Order/Tests.antt =====
-- Runs of the order service on small tables, with a coarse stand-in for `float64`.
use inno_taxi.Base.{
  Option, ℕ, none, some, true, false, List, [], ◌∷◌, ◌≡◌, ◌↔◌, inl, refl, arith, ◌+◌, ◌-◌, ◌*◌,
  String,
}
use mathlib.Core.List.{Permᴰ}
use inno_taxi.Base.Int.{pos, pos_part}
use inno_taxi.Base.Action.{ok}
use inno_taxi.Base.Tests.{leb, some_unique}
use mathlib.Core.Path.{subst}
use inno_taxi.Order.Entity.{
  Order, CreateOrderInput, Status, status_driver_assigned, status_in_progress, status_completed,
  taxi_type_economy, is_valid_taxi_type,
}
use inno_taxi.Order.Pricing.{FloatOps}
use inno_taxi.Order.World.{Env, World, no_fault}
use inno_taxi.Order.Repository.{lookup, is_party}
use inno_taxi.Order.Spec.{Effect}
use inno_taxi.Order.Service.{
  create_order, cancel_order, start_trip, complete_trip, rate_trip, get_order, list_orders_of,
}
use inno_taxi.Order.Service.Payments.{Placed, create_order-Placed}
use inno_taxi.Order.Service.Refunds.{Cancelled, cancel_order-Cancelled}
use inno_taxi.Order.Service.Authority.{
  DrivenBy, RatedBy, shown, trips-DrivenBy, rate_trip-RatedBy, get_order-shown,
}
use inno_taxi.Order.Service.Listing.{IsPage, list_orders_of-IsPage}
use inno_taxi.Order.Requests.{
  Request, create, cancel, start, complete, rate, handle, run, handle-Effect,
}
use inno_taxi.Order.Requests.Sound.{TableIsSound, run-TableIsSound}
use inno_taxi.Order.Requests.History.{Keeps, run-Keeps, run-final_status}
use inno_taxi.Order.Proto.{
  type_unspecified, proto_completed, taxi_type_from_proto, taxi_type_to_proto, status_from_proto,
  status_to_proto, proto_roundtrip,
}
use inno_taxi.Order.Rpc.{get_order_rpc, cancel_order_rpc, start_trip_rpc, complete_trip_rpc}
use inno_taxi.Order.Rpc.Hidden.{no_order, IsOutsider, rpc-no_order}
use inno_taxi.Order.Document.{
  OrderDocument, document_from_domain, to_domain, IsNonzero, document_roundtrip,
}

-- Whole numbers, on which a distance is the difference of the latitudes.
abbrev whole : FloatOps ℕ
whole = record {
  of_int = pos_part;
  pi = 180;
  add = λ a b. a + b;
  sub = λ a b. a - b;
  mul = λ a b. a * b;
  div = λ a b. a;
  sin = λ a. a;
  cos = λ a. 1;
  asin = λ a. a;
  sqrt = λ a. a;
  round = λ a. a;
  to_int = pos;
  eq = λ a b. elim (leb a b) [ true ↦ leb b a | false ↦ false ];
}

-- Everything answers, and driver d1 is free.
abbrev calm : Env ℕ
calm = record {
  fresh_id = λ l. ok "o9";
  now = λ l. 7;
  database = λ l. no_fault;
  wallet = λ l. none;
  driver_claim = λ l. ok (some "d1");
  driver_release = λ l. none;
  search_index = λ l. none;
  search_result = λ l. ok ([], pos 0);
  broker = λ l. none;
  order_by_created = λ os. os;
}

abbrev here_there : CreateOrderInput ℕ
here_there = record {
  user_id = "u1";
  taxi_type = taxi_type_economy;
  start = record { lat = 1; lng = 2 };
  destination = record { lat = 3; lng = 4 };
}

abbrev ride : Status → Order ℕ
ride s = record {
  id = "o1";
  user_id = "u1";
  driver_id = some "d1";
  taxi_type = taxi_type_economy;
  start = record { lat = 1; lng = 2 };
  destination = record { lat = 3; lng = 4 };
  status = s;
  price_minor_units = some (pos 230);
  rating = none;
  comment = none;
  created_at = 1;
  updated_at = 1;
}

abbrev with_ride : Status → World ℕ
with_ride s = record { orders = ride s ∷ []; calls = [] }

abbrev empty : World ℕ
empty = record { orders = []; calls = [] }

ride-found : (s : Status) → lookup "o1" (with_ride s).orders ≡ some (ride s)
unfolding lookup
ride-found s = refl

empty-TableIsSound : TableIsSound empty.orders
unfolding lookup
empty-TableIsSound k o h = absurd (ground (arith, h))

same_order : (os : List (Order ℕ)) → Permᴰ os os
same_order [] = Permᴰ.nil
same_order (o ∷ os) = Permᴰ.cons refl (same_order os)

abbrev whole_trip : List (Request ℕ)
whole_trip =
    create here_there ∷ start "o9" "d1" ∷ complete "o9" "d1" ∷ rate "o9" "u1" (pos 5) none ∷ []

handle-Effect_example :
    Effect
      (with_ride status_driver_assigned).orders
      (handle whole calm (cancel "o1" "u1") (with_ride status_driver_assigned)).orders
handle-Effect_example =
    handle-Effect whole calm (cancel "o1" "u1") (with_ride status_driver_assigned)

create_order-Placed_example :
    Placed whole calm here_there empty
      (create_order whole calm here_there empty).0
      (create_order whole calm here_there empty).1
create_order-Placed_example = create_order-Placed whole calm here_there empty

cancel_order-Cancelled_example :
    Cancelled whole calm "o1" "u1"
      (with_ride status_driver_assigned)
      (cancel_order whole calm "o1" "u1" (with_ride status_driver_assigned)).0
      (cancel_order whole calm "o1" "u1" (with_ride status_driver_assigned)).1
cancel_order-Cancelled_example =
    cancel_order-Cancelled whole calm "o1" "u1" (with_ride status_driver_assigned)

run-TableIsSound_example : TableIsSound (run whole calm whole_trip empty).orders
run-TableIsSound_example = run-TableIsSound whole calm whole_trip empty empty-TableIsSound

run-Keeps_example :
    Keeps
      (with_ride status_driver_assigned).orders
      (run whole calm
        (start "o1" "d1" ∷ complete "o1" "d1" ∷ [])
        (with_ride status_driver_assigned)).orders
run-Keeps_example =
    run-Keeps whole calm (start "o1" "d1" ∷ complete "o1" "d1" ∷ [])
      (with_ride status_driver_assigned)

run-final_status_example :
    (o' : Order ℕ) × (lookup "o1"
        (run whole calm
          (cancel "o1" "u1" ∷ start "o1" "d1" ∷ [])
          (with_ride status_completed)).orders
      ≡ some o')
    × (o'.status ≡ status_completed)
    × (o'.driver_id ≡ some "d1")
run-final_status_example =
    run-final_status whole calm (cancel "o1" "u1" ∷ start "o1" "d1" ∷ [])
      (with_ride status_completed) "o1" (ride status_completed) (ride-found status_completed)
      (inl refl)

abbrev riding : World ℕ
riding = with_ride status_in_progress

trips-DrivenBy_example :
    DrivenBy whole calm "o1" "d1" status_driver_assigned status_in_progress riding
      (start_trip whole calm "o1" "d1" riding).0
      (start_trip whole calm "o1" "d1" riding).1
    × DrivenBy whole calm "o1" "d1" status_in_progress status_completed riding
        (complete_trip whole calm "o1" "d1" riding).0
        (complete_trip whole calm "o1" "d1" riding).1
trips-DrivenBy_example = trips-DrivenBy whole calm "o1" "d1" riding

rate_trip-RatedBy_example :
    RatedBy whole calm "o1" "u1"
      (pos 4)
      none
      (with_ride status_completed)
      (rate_trip whole calm "o1" "u1" (pos 4) none (with_ride status_completed)).0
      (rate_trip whole calm "o1" "u1" (pos 4) none (with_ride status_completed)).1
rate_trip-RatedBy_example =
    rate_trip-RatedBy whole calm "o1" "u1" (pos 4) none (with_ride status_completed)

get_order-shown_example :
    (get_order whole calm "o1" "d1" (with_ride status_completed)).0
    ≡ shown whole calm "d1" (lookup "o1" (with_ride status_completed).orders)
get_order-shown_example = get_order-shown whole calm "o1" "d1" (with_ride status_completed) refl

list_orders_of-IsPage_example :
    IsPage "u1"
      (with_ride status_completed)
      (list_orders_of whole calm "u1" (pos 500) (pos 0) (with_ride status_completed)).0
list_orders_of-IsPage_example =
    list_orders_of-IsPage whole calm "u1" (pos 500) (pos 0) (with_ride status_completed)
      (λ os. same_order os)

abbrev stored : OrderDocument ℕ
stored = document_from_domain (ride status_completed)

document_roundtrip_example :
    (document_from_domain (to_domain stored) ≡ stored)
    × ((to_domain (document_from_domain (ride status_completed)) ≡ ride status_completed)
        ↔ IsNonzero (ride status_completed))
document_roundtrip_example = document_roundtrip stored (ride status_completed)

abbrev show_time : ℕ → String
show_time t = "2026-01-01T00:00:00Z"

abbrev no_time : String → Option ℕ
no_time s = none

u7-IsOutsider : IsOutsider whole calm show_time no_time "o1" "u7" (with_ride status_completed)
u7-IsOutsider o h =
    subst (λ (x : Order ℕ). is_party "u7" x ≡ false) (some_unique (ride-found status_completed) h)
      refl

rpc-no_order_example :
    (get_order_rpc whole calm show_time no_time (some "u7") "o1" (with_ride status_completed)
      ≡ no_order whole calm show_time no_time "o1" (with_ride status_completed))
    × (cancel_order_rpc whole calm show_time no_time (some "u7") "o1" (with_ride status_completed)
        ≡ no_order whole calm show_time no_time "o1" (with_ride status_completed))
    × (start_trip_rpc whole calm show_time no_time (some "u7") "o1" (with_ride status_completed)
        ≡ no_order whole calm show_time no_time "o1" (with_ride status_completed))
    × (complete_trip_rpc whole calm show_time no_time (some "u7") "o1" (with_ride status_completed)
        ≡ no_order whole calm show_time no_time "o1" (with_ride status_completed))
rpc-no_order_example =
    rpc-no_order whole calm show_time no_time "o1" "u7" (with_ride status_completed) refl refl
      u7-IsOutsider

proto_roundtrip_example :
    (taxi_type_to_proto (taxi_type_from_proto (pos 7)) ≡ type_unspecified)
    × (status_to_proto (status_from_proto proto_completed) ≡ proto_completed)
    × (taxi_type_from_proto (taxi_type_to_proto "economy") ≡ "economy")
    × (status_from_proto (status_to_proto "lost") ≡ "")
unfolding is_valid_taxi_type
proto_roundtrip_example = proto_roundtrip (pos 7) proto_completed "economy" "lost"
