-- ===== src/Order/Proto.antt =====
-- services/order_service/handler/grpc/mapping.go: the orders and the filter of the protobuf messages.
-- `Format` and `Parse` of Go's `time`, in RFC 3339, are parameters.
use inno_taxi.Base.{
  zero, suc, refl, ap, ◌∙◌, ℕ, String, Option, none, some, Bool, ◌&&◌, ◌||◌, ◌≡◌, arith, eq_iff,
}
use inno_taxi.Base.Int.{ℤ, pos, negsuc, leb_ℤ, eqb_ℤ}
use inno_taxi.Base.Action.{Result, ok, err}
use inno_taxi.Base.Tests.{◌==◌, if◌then◌else◌}
use inno_taxi.Order.Entity.{
  Error, external, wrap, Order, Location, TaxiType, taxi_type_economy, taxi_type_comfort,
  taxi_type_business, Status, status_created, status_driver_assigned, status_in_progress,
  status_completed, status_cancelled, OrderSearchFilter, is_valid_taxi_type,
}
use inno_taxi.Order.Document.{string_or_empty, int_or_zero}

-- The enums are open: any int32 may come in a message, and these are the numbers with a name.
abbrev pub ProtoTaxiType : Type 0
ProtoTaxiType = ℤ

abbrev pub type_unspecified : ProtoTaxiType
type_unspecified = pos 0

abbrev pub type_economy : ProtoTaxiType
type_economy = pos 1

abbrev pub type_comfort : ProtoTaxiType
type_comfort = pos 2

abbrev pub type_business : ProtoTaxiType
type_business = pos 3

abbrev pub ProtoStatus : Type 0
ProtoStatus = ℤ

abbrev pub proto_unspecified : ProtoStatus
proto_unspecified = pos 0

abbrev pub proto_created : ProtoStatus
proto_created = pos 1

abbrev pub proto_driver_assigned : ProtoStatus
proto_driver_assigned = pos 2

abbrev pub proto_in_progress : ProtoStatus
proto_in_progress = pos 3

abbrev pub proto_completed : ProtoStatus
proto_completed = pos 4

abbrev pub proto_cancelled : ProtoStatus
proto_cancelled = pos 5

pub record ProtoOrder (F : Type 0) : Type 0 where
  pub id : String
  pub user_id : String
  pub driver_id : String
  pub taxi_type : ProtoTaxiType
  pub start : Location F
  pub destination : Location F
  pub status : ProtoStatus
  pub price_minor_units : ℤ
  pub created_at : String
  pub rating : ℤ
  pub comment : String

pub record SearchOrdersRequest : Type 0 where
  pub taxi_type : ProtoTaxiType
  pub status : ProtoStatus
  pub created_after : String
  pub created_before : String
  pub min_price_minor_units : ℤ
  pub max_price_minor_units : ℤ
  pub limit : ℤ
  pub offset : ℤ

unfoldable pub taxi_type_from_proto : ProtoTaxiType → TaxiType
taxi_type_from_proto p =
    if eqb_ℤ p type_economy
    then taxi_type_economy
    else if eqb_ℤ p type_comfort
    then taxi_type_comfort
    else if eqb_ℤ p type_business
    then taxi_type_business
    else ""

unfoldable pub taxi_type_to_proto : TaxiType → ProtoTaxiType
taxi_type_to_proto t =
    if t == taxi_type_economy
    then type_economy
    else if t == taxi_type_comfort
    then type_comfort
    else if t == taxi_type_business
    then type_business
    else type_unspecified

unfoldable pub status_to_proto : Status → ProtoStatus
status_to_proto s =
    if s == status_created
    then proto_created
    else if s == status_driver_assigned
    then proto_driver_assigned
    else if s == status_in_progress
    then proto_in_progress
    else if s == status_completed
    then proto_completed
    else if s == status_cancelled
    then proto_cancelled
    else proto_unspecified

unfoldable pub status_from_proto : ProtoStatus → Status
status_from_proto q =
    if eqb_ℤ q proto_created
    then status_created
    else if eqb_ℤ q proto_driver_assigned
    then status_driver_assigned
    else if eqb_ℤ q proto_in_progress
    then status_in_progress
    else if eqb_ℤ q proto_completed
    then status_completed
    else if eqb_ℤ q proto_cancelled
    then status_cancelled
    else ""

-- `orderToProto`
abbrev pub order_to_proto : {F : Type 0} → (ℕ → String) → Order F → ProtoOrder F
order_to_proto format o = record {
  id = o.id;
  user_id = o.user_id;
  driver_id = string_or_empty o.driver_id;
  taxi_type = taxi_type_to_proto o.taxi_type;
  start = o.start;
  destination = o.destination;
  status = status_to_proto o.status;
  price_minor_units = int_or_zero o.price_minor_units;
  created_at = format o.created_at;
  rating = int_or_zero o.rating;
  comment = string_or_empty o.comment;
}

-- An empty string leaves the zero time.
abbrev time_from_proto : (String → Option ℕ) → String → String → Result Error ℕ
time_from_proto parse message s =
    if s == ""
    then ok 0
    else elim (parse s) [ none ↦ err (wrap message (external "parsing time")) | some t ↦ ok t ]

abbrev with_times :
    SearchOrdersRequest → Result Error ℕ → Result Error ℕ → Result Error OrderSearchFilter
with_times q (err x) before = err x
with_times q (ok after) (err x) = err x
with_times q (ok after) (ok before) = ok (record {
  taxi_type = taxi_type_from_proto q.taxi_type;
  status = status_from_proto q.status;
  created_after = after;
  created_before = before;
  min_price_minor_units = q.min_price_minor_units;
  max_price_minor_units = q.max_price_minor_units;
  limit = q.limit;
  offset = q.offset;
})

-- `searchFilterFromProto`
unfoldable pub search_filter_from_proto :
    (String → Option ℕ) → SearchOrdersRequest → Result Error OrderSearchFilter
search_filter_from_proto parse q =
    with_times q (time_from_proto parse "invalid created_after" q.created_after)
      (time_from_proto parse "invalid created_before" q.created_before)

-- The numbers that have a name, and the statuses of orders.
abbrev pub is_named_type : ProtoTaxiType → Bool
is_named_type p = leb_ℤ type_unspecified p && leb_ℤ p type_business

abbrev pub is_named_status : ProtoStatus → Bool
is_named_status q = leb_ℤ proto_unspecified q && leb_ℤ q proto_cancelled

abbrev pub is_known_status : Status → Bool
is_known_status s =
    s == status_created
    || s == status_driver_assigned
    || s == status_in_progress
    || s == status_completed
    || s == status_cancelled

from_unnamed_type : (n : ℕ) → taxi_type_from_proto (pos (suc (suc (suc (suc n))))) ≡ ""
unfolding taxi_type_from_proto
from_unnamed_type n = ground arith

from_unnamed_status : (n : ℕ) → status_from_proto (pos (suc (suc (suc (suc (suc (suc n))))))) ≡ ""
unfolding status_from_proto
from_unnamed_status n = ground arith

taxi_type-to_from :
    (p : ProtoTaxiType)
    → taxi_type_to_proto (taxi_type_from_proto p)
      ≡ (if is_named_type p then p else type_unspecified)
unfolding taxi_type_from_proto taxi_type_to_proto
taxi_type-to_from (pos zero) = refl
taxi_type-to_from (pos (suc zero)) = refl
taxi_type-to_from (pos (suc (suc zero))) = refl
taxi_type-to_from (pos (suc (suc (suc zero)))) = refl
taxi_type-to_from (pos (suc (suc (suc (suc n))))) =
    ap taxi_type_to_proto (from_unnamed_type n) ∙ ground arith
taxi_type-to_from (negsuc n) = ground arith

taxi_type-from_to :
    (t : TaxiType)
    → taxi_type_from_proto (taxi_type_to_proto t) ≡ (if is_valid_taxi_type t then t else "")
unfolding taxi_type_from_proto taxi_type_to_proto is_valid_taxi_type
taxi_type-from_to t =
    ground
      (arith, eq_iff t taxi_type_economy, eq_iff t taxi_type_comfort, eq_iff t taxi_type_business)

status-to_from :
    (q : ProtoStatus)
    → status_to_proto (status_from_proto q) ≡ (if is_named_status q then q else proto_unspecified)
unfolding status_from_proto status_to_proto
status-to_from (pos zero) = refl
status-to_from (pos (suc zero)) = refl
status-to_from (pos (suc (suc zero))) = refl
status-to_from (pos (suc (suc (suc zero)))) = refl
status-to_from (pos (suc (suc (suc (suc zero))))) = refl
status-to_from (pos (suc (suc (suc (suc (suc zero)))))) = refl
status-to_from (pos (suc (suc (suc (suc (suc (suc n))))))) =
    ap status_to_proto (from_unnamed_status n) ∙ ground arith
status-to_from (negsuc n) = ground arith

status-from_to :
    (s : Status) → status_from_proto (status_to_proto s) ≡ (if is_known_status s then s else "")
unfolding status_from_proto status_to_proto
status-from_to s = ground (
  arith,
  eq_iff s status_created,
  eq_iff s status_driver_assigned,
  eq_iff s status_in_progress,
  eq_iff s status_completed,
  eq_iff s status_cancelled,
)

-- A taxi type and a status of a message, any number, comes back from its string if the number has a
-- name, and as the unspecified one otherwise. A string that is a taxi type or a status of an order comes
-- back from its number, and any other string comes back empty.
pub proto_roundtrip :
    (p : ProtoTaxiType) (q : ProtoStatus) (t : TaxiType) (s : Status)
    → (taxi_type_to_proto (taxi_type_from_proto p)
        ≡ (if is_named_type p then p else type_unspecified))
      × (status_to_proto (status_from_proto q)
          ≡ (if is_named_status q then q else proto_unspecified))
      × (taxi_type_from_proto (taxi_type_to_proto t) ≡ (if is_valid_taxi_type t then t else ""))
      × (status_from_proto (status_to_proto s) ≡ (if is_known_status s then s else ""))
proto_roundtrip p q t s =
    (taxi_type-to_from p, status-to_from q, taxi_type-from_to t, status-from_to s)
