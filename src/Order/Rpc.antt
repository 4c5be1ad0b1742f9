-- ===== src/Order/Rpc.antt =====
-- services/order_service/handler/grpc/server.go: what each remote procedure of `OrderServer` answers.
-- `caller` is what `UserIDFromContext` finds.
pub mod Hidden
use inno_taxi.Base.{ℕ, String, Option, none, some, Bool, true, false, List, map}
use inno_taxi.Base.Int.{ℤ, pos, eqb_ℤ}
use inno_taxi.Base.Action.{Result, ok, err}
use inno_taxi.Base.Tests.{◌==◌, if◌then◌else◌}
use inno_taxi.Order.Entity.{
  Error, invalid_taxi_type, invalid_location, insufficient_funds, order_not_found,
  order_not_cancellable, order_not_startable, order_not_completable, order_not_ratable,
  order_already_rated, invalid_rating, wrap, Order, Location, CreateOrderInput, OrderSearchFilter,
}
use inno_taxi.Order.Pricing.{FloatOps}
use inno_taxi.Order.World.{Env, World, OrderAction}
use inno_taxi.Order.Service.{
  create_order, cancel_order, start_trip, complete_trip, rate_trip, get_order, list_orders_of,
  search_orders_by,
}
use inno_taxi.Order.Proto.{
  ProtoTaxiType, type_unspecified, ProtoOrder, SearchOrdersRequest, taxi_type_from_proto,
  order_to_proto, search_filter_from_proto,
}

-- The codes of google.golang.org/grpc/codes that the server uses, besides OK.
pub data Code : Type 0 where
  invalid_argument failed_precondition not_found internal : Code

pub data Message : Type 0 where
  text : String → Message
  error_text : Error → Message  -- `err.Error()`

pub data Reply (A : Type 0) : Type 0 where
  refused : Code → Message → Reply A
  replied : A → Reply A

-- The error at the end of a chain, at which `errors.Is` looks.
abbrev pub root : Error → Error
root (wrap m x) = root x
root x = x

abbrev create_code : Error → Code
create_code invalid_taxi_type = invalid_argument
create_code invalid_location = invalid_argument
create_code insufficient_funds = failed_precondition
create_code _ = internal

abbrev cancel_code : Error → Code
cancel_code order_not_found = not_found
cancel_code order_not_cancellable = failed_precondition
cancel_code _ = internal

abbrev start_code : Error → Code
start_code order_not_found = not_found
start_code order_not_startable = failed_precondition
start_code _ = internal

abbrev complete_code : Error → Code
complete_code order_not_found = not_found
complete_code order_not_completable = failed_precondition
complete_code _ = internal

abbrev rate_code : Error → Code
rate_code order_not_found = not_found
rate_code order_not_ratable = failed_precondition
rate_code order_already_rated = failed_precondition
rate_code invalid_rating = failed_precondition
rate_code _ = internal

abbrev get_code : Error → Code
get_code order_not_found = not_found
get_code _ = internal

abbrev internal_code : Error → Code
internal_code x = internal

abbrev reply_of : {A B : Type 0} → (Error → Code) → (A → B) → Result Error A → Reply B
reply_of code f (ok a) = replied (f a)
reply_of code f (err x) = refused (code (root x)) (error_text x)

-- A method of the service, and the reply made of its result.
abbrev respond :
    {F A B : Type 0} → (Error → Code) → (A → B) → OrderAction F A → World F → Reply B × World F
respond code f m w = (reply_of code f (m w).0, (m w).1)

abbrev missing_user : {F B : Type 0} → World F → Reply B × World F
missing_user w = (refused invalid_argument (text "missing user ID"), w)

-- The tests on the caller and on the order's id, which five procedures share.
abbrev for_order :
    {F B : Type 0}
    → Option String
    → String
    → (String → World F → Reply B × World F)
    → World F
    → Reply B × World F
for_order none k go w = missing_user w
for_order (some u) k go w =
    if k == "" then (refused invalid_argument (text "order id is required"), w) else go u w

abbrev is_unspecified : ProtoTaxiType → Bool
is_unspecified p = eqb_ℤ p type_unspecified

pub record CreateOrderRequest (F : Type 0) : Type 0 where
  pub taxi_type : ProtoTaxiType
  pub start : Option (Location F)
  pub destination : Option (Location F)

abbrev comment_of : String → Option String
comment_of s = if s == "" then none else some s

module _ {F : Type 0} (fl : FloatOps F) (e : Env F) (format : ℕ → String)
    (parse : String → Option ℕ) where
  -- `locationFromProto`: the getters read 0 from a message that is not there.
  abbrev location_from_proto : Option (Location F) → Location F
  location_from_proto none = record { lat = fl.of_int (pos 0); lng = fl.of_int (pos 0) }
  location_from_proto (some l) = l

  abbrev order_reply : Order F → ProtoOrder F
  order_reply = order_to_proto format

  abbrev page_reply : List (Order F) × ℤ → List (ProtoOrder F) × ℤ
  page_reply p = (map order_reply p.0, p.1)

  abbrev input_from_proto : String → CreateOrderRequest F → CreateOrderInput F
  input_from_proto u q = record {
    user_id = u;
    taxi_type = taxi_type_from_proto q.taxi_type;
    start = location_from_proto q.start;
    destination = location_from_proto q.destination;
  }

  unfoldable pub create_order_rpc :
      Option String → CreateOrderRequest F → World F → Reply (ProtoOrder F) × World F
  create_order_rpc none q w = missing_user w
  create_order_rpc (some u) q w =
      if is_unspecified q.taxi_type
      then (refused invalid_argument (text "taxi type unspecified"), w)
      else respond create_code order_reply (create_order fl e (input_from_proto u q)) w

  unfoldable pub cancel_order_rpc :
      Option String → String → World F → Reply (ProtoOrder F) × World F
  cancel_order_rpc caller k =
      for_order caller k λ u. respond cancel_code order_reply (cancel_order fl e k u)

  unfoldable pub start_trip_rpc : Option String → String → World F → Reply (ProtoOrder F) × World F
  start_trip_rpc caller k =
      for_order caller k λ u. respond start_code order_reply (start_trip fl e k u)

  unfoldable pub complete_trip_rpc :
      Option String → String → World F → Reply (ProtoOrder F) × World F
  complete_trip_rpc caller k =
      for_order caller k λ u. respond complete_code order_reply (complete_trip fl e k u)

  unfoldable pub rate_trip_rpc :
      Option String → String → ℤ → String → World F → Reply (ProtoOrder F) × World F
  rate_trip_rpc caller k rating comment =
      for_order caller k
        λ u. respond rate_code order_reply (rate_trip fl e k u rating (comment_of comment))

  unfoldable pub get_order_rpc : Option String → String → World F → Reply (ProtoOrder F) × World F
  get_order_rpc caller k = for_order caller k λ u. respond get_code order_reply (get_order fl e k u)

  unfoldable pub list_orders_rpc :
      Option String → ℤ → ℤ → World F → Reply (List (ProtoOrder F) × ℤ) × World F
  list_orders_rpc none limit offset w = missing_user w
  list_orders_rpc (some u) limit offset w =
      respond internal_code page_reply (list_orders_of fl e u limit offset) w

  abbrev searched :
      Result Error OrderSearchFilter → World F → Reply (List (ProtoOrder F) × ℤ) × World F
  searched (err x) w = (refused invalid_argument (error_text x), w)
  searched (ok filter) w = respond internal_code page_reply (search_orders_by fl e filter) w

  unfoldable pub search_orders_rpc :
      SearchOrdersRequest → World F → Reply (List (ProtoOrder F) × ℤ) × World F
  search_orders_rpc q = searched (search_filter_from_proto parse q)
