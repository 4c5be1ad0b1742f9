-- ===== src/Order/Search.antt =====
-- services/order_service/repository/es_repo/search_orders.go: the query that a filter becomes, and what
-- is read from the answer. A zero time of a filter is 0, and `Format` of Go's `time` is a parameter.
pub mod Selected
mod Tests
use inno_taxi.Base.{
  ℕ, zero, suc, String, Option, none, some, Bool, true, false, ◌&&◌, ◌||◌, List, [], ◌∷◌, ◌++◌, map,
  ◌≡◌, refl, arith,
}
use inno_taxi.Base.Int.{ℤ}
use inno_taxi.Base.Tests.{◌==◌, if◌then◌else◌}
use inno_taxi.Base.Action.{Result, ok, err}
use inno_taxi.Order.Entity.{Order, OrderSearchFilter}
use inno_taxi.Order.Document.{OrderDocument, to_domain, is_zero_int}

-- `{"term": {field: value}}`, and `{"range": {field: {"gte": …, "lte": …}}}` with dates or with numbers.
pub data Clause : Type 0 where
  term : String → String → Clause
  date_range : String → Option String → Option String → Clause
  number_range : String → Option ℤ → Option ℤ → Clause

pub data Query : Type 0 where
  match_all : Query
  bool_filter : List Clause → Query

pub record SearchBody : Type 0 where
  pub query : Query
  pub sort : List (String × String)

unfoldable pub is_zero_time : ℕ → Bool
is_zero_time zero = true
is_zero_time (suc n) = false

abbrev pub term_clause : String → String → List Clause
term_clause field s = if s == "" then [] else term field s ∷ []

abbrev pub bound {ℓ} : {A : Type ℓ} → Bool → A → Option A
bound unset v = if unset then none else some v

abbrev pub range_clause {ℓ} :
    {A : Type ℓ} → (Option A → Option A → Clause) → Option A → Option A → List Clause
range_clause between none none = []
range_clause between gte lte = between gte lte ∷ []

abbrev pub query_of : List Clause → Query
query_of [] = match_all
query_of (c ∷ cs) = bool_filter (c ∷ cs)

abbrev pub price_clause : ℤ → ℤ → List Clause
price_clause low high =
    range_clause (number_range "price_minor_units") (bound (is_zero_int low) low)
      (bound (is_zero_int high) high)

module _ (format : ℕ → String) where
  abbrev pub created_clause : ℕ → ℕ → List Clause
  created_clause after before =
      range_clause (date_range "created_at") (bound (is_zero_time after) (format after))
        (bound (is_zero_time before) (format before))

  unfoldable pub clauses_of : OrderSearchFilter → List Clause
  clauses_of f =
      term_clause "taxi_type" f.taxi_type
      ++ (term_clause "status" f.status
          ++ (created_clause f.created_after f.created_before
              ++ price_clause f.min_price_minor_units f.max_price_minor_units))

  unfoldable pub build_search_query : OrderSearchFilter → SearchBody
  build_search_query f = record {
    query = query_of (clauses_of f);
    sort = ("created_at", "desc") ∷ [];
  }

-- What comes back: nothing, a status of failure, a body that is not JSON, or the hits with their total.
pub data Answer (F : Type 0) : Type 0 where
  unreachable : String → Answer F
  failed : ℕ → Answer F
  malformed : String → Answer F
  hits : ℤ → List (OrderDocument F) → Answer F

pub data SearchError : Type 0 where
  search_failed decode_failed : String → SearchError
  unexpected_status : ℕ → SearchError

module _ {F : Type 0} where
  abbrev parsed : Answer F → Result SearchError (List (Order F) × ℤ)
  parsed (unreachable m) = err (search_failed m)
  parsed (failed status) = err (unexpected_status status)
  parsed (malformed m) = err (decode_failed m)
  parsed (hits total ds) = ok (map (λ (d : OrderDocument F). to_domain d) ds, total)

  -- The client sends the body with the offset and the limit.
  unfoldable pub search_orders :
      (ℕ → String)
      → (SearchBody → ℤ → ℤ → Answer F)
      → OrderSearchFilter
      → Result SearchError (List (Order F) × ℤ)
  search_orders format search f = parsed (search (build_search_query format f) f.offset f.limit)
