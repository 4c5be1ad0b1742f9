-- ===== src/Analytic/Consumers.antt =====
-- services/analytic_service/handler/kafka: what the consumers of the three topics do with a message.
-- Reading protobuf is a parameter: a message comes as its event, or none where it is malformed; so is
-- `Parse` of Go's `time`. A message that cannot be read or stored is logged and gone.
use inno_taxi.Base.{ℕ, String, Option, none, some}
use inno_taxi.Base.Int.{eqb_ℤ}
use inno_taxi.Base.Tests.{if◌then◌else◌}
use inno_taxi.Order.Proto.{
  ProtoTaxiType, type_economy, type_comfort, type_business, ProtoStatus, proto_created,
  proto_driver_assigned, proto_in_progress, proto_completed, proto_cancelled,
}
use inno_taxi.Order.Events.{OrderCreatedEvent, OrderRatedEvent}
use inno_taxi.Analytic.Entity.{OrderEvent, DriverRatingEvent, UserEvent}
use inno_taxi.Analytic.Store.{Env, World}
use inno_taxi.Analytic.Service.{
  ingest_order_event, ingest_driver_rating, ingest_user_registered_event,
}

unfoldable pub taxi_type_string : ProtoTaxiType → String
taxi_type_string p =
    if eqb_ℤ p type_economy
    then "economy"
    else if eqb_ℤ p type_comfort
    then "comfort"
    else if eqb_ℤ p type_business
    then "business"
    else "unspecified"

unfoldable pub status_string : ProtoStatus → String
status_string q =
    if eqb_ℤ q proto_created
    then "created"
    else if eqb_ℤ q proto_driver_assigned
    then "driver_assigned"
    else if eqb_ℤ q proto_in_progress
    then "in_progress"
    else if eqb_ℤ q proto_completed
    then "completed"
    else if eqb_ℤ q proto_cancelled
    then "cancelled"
    else "unspecified"

-- The fields of `UserRegisteredEvent`.
pub record RegistrationEvent : Type 0 where
  pub user_id : String
  pub name : String
  pub email : String
  pub phone : String
  pub role : String
  pub created_at : String

abbrev pub order_event_from : {F : Type 0} → OrderCreatedEvent F → ℕ → OrderEvent
order_event_from event t = record {
  order_id = event.order_id;
  user_id = event.user_id;
  taxi_type = taxi_type_string event.taxi_type;
  status = status_string event.status;
  created_at = t;
}

abbrev pub rating_event_from : OrderRatedEvent → ℕ → DriverRatingEvent
rating_event_from event t = record {
  order_id = event.order_id;
  driver_id = event.driver_id;
  rating = event.rating;
  comment = event.comment;
  rated_at = t;
}

abbrev user_event_from : RegistrationEvent → ℕ → UserEvent
user_event_from event t = record {
  user_id = event.user_id;
  name = event.name;
  email = event.email;
  phone = event.phone;
  role = event.role;
  registered_at = t;
}

module _ (parse : String → Option ℕ) (e : Env) where
  unfoldable pub handle_order_created : {F : Type 0} → Option (OrderCreatedEvent F) → World → World
  handle_order_created none w = w
  handle_order_created (some event) w = elim (parse event.created_at) [
    | none ↦ w
    | some t ↦ (ingest_order_event e (order_event_from event t) w).1
  ]

  unfoldable pub handle_order_rated : Option OrderRatedEvent → World → World
  handle_order_rated none w = w
  handle_order_rated (some event) w = elim (parse event.rated_at) [
    | none ↦ w
    | some t ↦ (ingest_driver_rating e (rating_event_from event t) w).1
  ]

  unfoldable pub handle_user_registered : Option RegistrationEvent → World → World
  handle_user_registered none w = w
  handle_user_registered (some event) w = elim (parse event.created_at) [
    | none ↦ w
    | some t ↦ (ingest_user_registered_event e (user_event_from event t) w).1
  ]
