-- ===== src/Analytic/Tests.antt =====
-- One order that is consumed twice and counted once.
use inno_taxi.Base.{List, ℕ, String, Option, none, some, Bool, [], ◌∷◌, ◌≡◌, ◌≢◌, refl, arith}
use inno_taxi.Base.Int.{pos}
use inno_taxi.Base.Tests.{◌==◌}
use inno_taxi.Base.Action.{ok}
use inno_taxi.Order.Entity.{Order, taxi_type_economy, status_created}
use inno_taxi.Order.Proto.{type_unspecified, proto_unspecified, taxi_type_to_proto, status_to_proto}
use inno_taxi.Order.Events.{order_created_event_from_order}
use inno_taxi.Analytic.Entity.{OrderStats, OrderEvent}
use inno_taxi.Analytic.Store.{Env, World, no_fault}
use inno_taxi.Analytic.Service.{get_order_stats}
use inno_taxi.Analytic.Consumers.{handle_order_created}
use inno_taxi.Analytic.Counted.{count_by, value_of, visible, get_order_stats-counts}
use inno_taxi.Base.Lists.{length}
use inno_taxi.Analytic.Latest.{AreOrdersWithin}
use inno_taxi.Analytic.Redelivered.{latest}
use inno_taxi.Analytic.Ingested.{row_of, created-ingested}

abbrev calm : Env
calm = record { database = λ l. no_fault }

abbrev empty_tables : World
empty_tables = record {
  order_events = [];
  driver_ratings = [];
  user_registration_events = [];
  statements = [];
}

abbrev ride : Order ℕ
ride = record {
  id = "o1";
  user_id = "u1";
  driver_id = none;
  taxi_type = taxi_type_economy;
  start = record { lat = 0; lng = 0 };
  destination = record { lat = 1; lng = 1 };
  status = status_created;
  price_minor_units = none;
  rating = none;
  comment = none;
  created_at = 5;
  updated_at = 5;
}

abbrev stamp : ℕ → String
stamp t = "2026-01-01T00:00:05Z"

abbrev read_stamp : String → Option ℕ
read_stamp s = some 5

ride-typed : taxi_type_to_proto ride.taxi_type ≢ type_unspecified
unfolding taxi_type_to_proto
ride-typed h = ground (arith, h)

ride-known : status_to_proto ride.status ≢ proto_unspecified
unfolding status_to_proto
ride-known h = ground (arith, h)

abbrev once : World
once =
    handle_order_created read_stamp calm (some (order_created_event_from_order stamp ride))
      empty_tables

created-ingested_example :
    (latest "o1" once.order_events ≡ some (row_of ride 5))
    × ((from until : ℕ) (P : String → String → Bool)
        → count_by P (
            visible from until (
              handle_order_created read_stamp calm
                (some (order_created_event_from_order stamp ride))
                once))
          ≡ count_by P (visible from until once))
created-ingested_example =
    created-ingested stamp read_stamp calm calm ride 5 empty_tables ride-typed ride-known refl refl

abbrev two_rows : World
two_rows = record empty_tables { order_events = row_of ride 5 ∷ row_of ride 5 ∷ [] }

get_order_stats-counts_example :
    (s : OrderStats) × (os : List OrderEvent) × ((get_order_stats calm 0 9 two_rows).0 ≡ ok s)
    × AreOrdersWithin 0 9 two_rows.order_events os
    × (s.total_orders ≡ pos (length os))
    × ((k : String) → value_of k s.counts_by_status ≡ pos (count_by (λ st t. st == k) os))
    × ((k : String) → value_of k s.counts_by_taxi_type ≡ pos (count_by (λ st t. t == k) os))
get_order_stats-counts_example = get_order_stats-counts calm 0 9 two_rows refl refl (omega arith)
