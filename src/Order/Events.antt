-- ===== src/Order/Events.antt =====
-- services/order_service/gateway/kafka.go and mapping.go: the events that are published of an order.
-- `Format` of Go's `time`, in RFC 3339, is a parameter; the broker answers a failure or none.
use inno_taxi.Base.{ℕ, String, Option, none, some}
use inno_taxi.Base.Int.{ℤ, pos}
use inno_taxi.Base.Action.{Result, ok, err}
use inno_taxi.Order.Entity.{Location, Order}
use inno_taxi.Order.Proto.{ProtoTaxiType, ProtoStatus, taxi_type_to_proto, status_to_proto}

pub record OrderCreatedEvent (F : Type 0) : Type 0 where
  pub order_id : String
  pub user_id : String
  pub taxi_type : ProtoTaxiType
  pub pickup : Location F
  pub destination : Location F
  pub status : ProtoStatus
  pub created_at : String

pub record OrderRatedEvent : Type 0 where
  pub order_id : String
  pub driver_id : String
  pub rating : ℤ
  pub comment : String
  pub rated_at : String

-- A nil pointer is sent as the zero value.
abbrev value_or {ℓ} : {A : Type ℓ} → A → Option A → A
value_or zero none = zero
value_or zero (some a) = a

module _ {F : Type 0} (format : ℕ → String) where
  unfoldable pub order_created_event_from_order : Order F → OrderCreatedEvent F
  order_created_event_from_order o = record {
    order_id = o.id;
    user_id = o.user_id;
    taxi_type = taxi_type_to_proto o.taxi_type;
    pickup = o.start;
    destination = o.destination;
    status = status_to_proto o.status;
    created_at = format o.created_at;
  }

  unfoldable pub order_rated_event_from_order : Order F → OrderRatedEvent
  order_rated_event_from_order o = record {
    order_id = o.id;
    driver_id = value_or "" o.driver_id;
    rating = value_or (pos 0) o.rating;
    comment = value_or "" o.comment;
    rated_at = format o.updated_at;
  }

-- A message: its topic, its key and its event.
pub data Message (F : Type 0) : Type 0 where
  order_created : String → OrderCreatedEvent F → Message F
  order_rated : String → OrderRatedEvent → Message F

module _ {F : Type 0} (format : ℕ → String) (send : Message F → Option String) where
  abbrev sent : String → Option String → Result String (Unit {0})
  sent m none = ok tt
  sent m (some x) = err m

  unfoldable pub publish_order_created : Order F → Result String (Unit {0})
  publish_order_created o =
      sent "publish order created event"
        (send (order_created o.id (order_created_event_from_order format o)))

  unfoldable pub publish_order_rated : Order F → Result String (Unit {0})
  publish_order_rated o =
      sent "publish order rated event"
        (send (order_rated o.id (order_rated_event_from_order format o)))
