-- ===== src/Analytic/Ingested.antt =====
-- From the order service to the figures: the event that services/order_service/gateway publishes of an
-- order, consumed by services/analytic_service.
use inno_taxi.Base.{
  ℕ, String, Option, some, Bool, true, List, [], ◌∷◌, ◌++◌, ◌≡◌, ◌≢◌, ◌⊎◌, refl, ap, ◌∙◌, inl, inr,
  arith, eq_iff,
}
use inno_taxi.Base.Tests.{==_self}
use inno_taxi.Order.Entity.{TaxiType, Status, Order}
use inno_taxi.Order.Proto.{type_unspecified, proto_unspecified, taxi_type_to_proto, status_to_proto}
use inno_taxi.Order.Events.{OrderCreatedEvent, order_created_event_from_order}
use inno_taxi.Analytic.Entity.{OrderEvent}
use inno_taxi.Analytic.Store.{
  insert_order, no_fault, Env, World, has_order, final_orders, in_range, insert_order_event,
}
use inno_taxi.Analytic.Service.{ingest_order_event}
use inno_taxi.Analytic.Consumers.{
  taxi_type_string, status_string, order_event_from, handle_order_created,
}
use inno_taxi.Analytic.Counted.{count_by, visible}
use inno_taxi.Analytic.Redelivered.{latest, has_order-append, figure-again}

taxi_type-string :
    (t : TaxiType)
    → taxi_type_to_proto t ≢ type_unspecified
    → taxi_type_string (taxi_type_to_proto t) ≡ t
unfolding taxi_type_to_proto taxi_type_string
taxi_type-string t h =
    ground (arith, h, eq_iff t "economy", eq_iff t "comfort", eq_iff t "business")

status-string :
    (s : Status) → status_to_proto s ≢ proto_unspecified → status_string (status_to_proto s) ≡ s
unfolding status_to_proto status_string
status-string s h = ground (
  arith,
  h,
  eq_iff s "created",
  eq_iff s "driver_assigned",
  eq_iff s "in_progress",
  eq_iff s "completed",
  eq_iff s "cancelled",
)

latest-append : (xs : List OrderEvent) (x : OrderEvent) → latest x.order_id (xs ++ x ∷ []) ≡ some x
unfolding latest has_order
latest-append [] x = rw (==_self x.order_id) refl
latest-append (y ∷ ys) x =
    let there : has_order x.order_id (ys ++ x ∷ []) ≡ true =
      has_order-append x.order_id ys x ∙ ground (arith, ==_self x.order_id) in
    rw there (latest-append ys x)

module _ {F : Type 0} (parse : String → Option ℕ) (e : Env) (event : OrderCreatedEvent F) (t : ℕ)
    (read : parse event.created_at ≡ some t) (w : World) where
  handle-events :
      ((handle_order_created parse e (some event) w).order_events ≡ w.order_events)
      ⊎ ((handle_order_created parse e (some event) w).order_events
          ≡ w.order_events ++ order_event_from event t ∷ [])
  unfolding handle_order_created ingest_order_event insert_order_event
  handle-events = ground (arith, read)

  handle-stored :
      e.database (insert_order ∷ w.statements) ≡ no_fault
      → (handle_order_created parse e (some event) w).order_events
        ≡ w.order_events ++ order_event_from event t ∷ []
  unfolding handle_order_created ingest_order_event insert_order_event
  handle-stored calm = ground (arith, read, calm)

  -- A message whose event is the last one of its order changes no figure.
  handle-again :
      (from until : ℕ) (P : String → String → Bool)
      → latest event.order_id w.order_events ≡ some (order_event_from event t)
      → count_by P (visible from until (handle_order_created parse e (some event) w))
        ≡ count_by P (visible from until w)
  handle-again from until P h = elim handle-events [
    | inl same ↦ ap (λ xs. count_by P (in_range from until (final_orders xs))) same
    | inr joined ↦
        ap (λ xs. count_by P (in_range from until (final_orders xs))) joined
        ∙ figure-again from until P (order_event_from event t) w.order_events h
  ]

-- The row that the analytic service is meant to hold of an order.
abbrev pub row_of : {F : Type 0} → Order F → ℕ → OrderEvent
row_of o t = record {
  order_id = o.id;
  user_id = o.user_id;
  taxi_type = o.taxi_type;
  status = o.status;
  created_at = t;
}

row_of-event :
    {F : Type 0} (format : ℕ → String) (o : Order F) (t : ℕ)
    → taxi_type_to_proto o.taxi_type ≢ type_unspecified
    → status_to_proto o.status ≢ proto_unspecified
    → order_event_from (order_created_event_from_order format o) t ≡ row_of o t
unfolding order_created_event_from_order
row_of-event format o t typed known =
    rw (taxi_type-string o.taxi_type typed) (rw (status-string o.status known) refl)

-- An order of a known taxi type and status, whose time of creation is read back, is stored with its own
-- fields once its event is consumed and ClickHouse answers; the same event, consumed again, changes no
-- count of orders in any range, whatever fails.
pub created-ingested :
    {F : Type 0} (format : ℕ → String) (parse : String → Option ℕ) (e late : Env) (o : Order F)
    (t : ℕ) (w : World)
    → taxi_type_to_proto o.taxi_type ≢ type_unspecified
    → status_to_proto o.status ≢ proto_unspecified
    → parse (format o.created_at) ≡ some t
    → e.database (insert_order ∷ w.statements) ≡ no_fault
    → (latest o.id
          (handle_order_created parse e
            (some (order_created_event_from_order format o))
            w).order_events
        ≡ some (row_of o t))
      × ((from until : ℕ) (P : String → String → Bool)
          → count_by P (
              visible from until (
                handle_order_created parse late (some (order_created_event_from_order format o)) (
                  handle_order_created parse e (some (order_created_event_from_order format o)) w)))
            ≡ count_by P (
                visible from until (
                  handle_order_created parse e (some (order_created_event_from_order format o)) w)))
unfolding order_created_event_from_order
created-ingested format parse e late o t w typed known read calm =
    let event = order_created_event_from_order format o in
    let w' = handle_order_created parse e (some event) w in
    let stored : latest o.id w'.order_events ≡ some (order_event_from event t) =
      ap (λ xs. latest o.id xs) (handle-stored parse e event t read w calm)
      ∙ latest-append w.order_events (order_event_from event t) in
    (
      stored ∙ ap some (row_of-event format o t typed known),
      (λ from until P. handle-again parse late event t read w' from until P stored),
    )
