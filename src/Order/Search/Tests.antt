-- ===== src/Order/Search/Tests.antt =====
-- A search for completed rides of one second that cost at least 100.
use inno_taxi.Base.{ℕ, zero, suc, ◌/◌, ◌+◌, String, Bool, true, ◌&&◌, ◌≡◌, refl}
use inno_taxi.Base.Int.{pos, leb_ℤ}
use inno_taxi.Base.Tests.{◌==◌, leb, if◌then◌else◌}
use inno_taxi.Order.Entity.{OrderSearchFilter, status_completed, taxi_type_economy}
use inno_taxi.Order.Document.{OrderDocument}
use inno_taxi.Order.Search.{
  Clause, term, date_range, number_range, Query, match_all, bool_filter, build_search_query,
}
use inno_taxi.Order.Search.Selected.{
  admits, all_of, ReadsQueries, selects, build_search_query-selects,
}

-- The first second of 2026 is the number 1 here, and its times are formatted without their fraction.
abbrev stamp : ℕ → String
stamp zero = "0001-01-01T00:00:00Z"
stamp (suc t) = "2026-01-01T00:00:00Z"

abbrev first_of : String → ℕ
first_of s = if s == "2026-01-01T00:00:00Z" then 1000 else 0

abbrev last_of : String → ℕ
last_of s = first_of s + 999

abbrev holds : Clause → OrderDocument ℕ → Bool
holds (term field s) d = if field == "taxi_type" then d.taxi_type == s else d.status == s
holds (date_range field gte lte) d =
    admits (λ s. leb (first_of s) (d.created_at / 1000000)) gte
    && admits (λ s. leb (d.created_at / 1000000) (last_of s)) lte
holds (number_range field gte lte) d =
    admits (λ n. leb_ℤ n d.price_minor_units) gte && admits (λ n. leb_ℤ d.price_minor_units n) lte

abbrev matches : Query → OrderDocument ℕ → Bool
matches match_all d = true
matches (bool_filter cs) d = all_of holds cs d

reads : ReadsQueries first_of last_of holds matches
reads = record {
  everything = λ d. refl;
  every_clause = λ cs d. refl;
  taxi_type_term = λ s d. refl;
  status_term = λ s d. refl;
  created_range = λ gte lte d. refl;
  price_range = λ gte lte d. refl;
}

abbrev filter : OrderSearchFilter
filter = record {
  taxi_type = "";
  status = status_completed;
  created_after = 1700000000;
  created_before = 1200000000;
  min_price_minor_units = pos 100;
  max_price_minor_units = pos 0;
  limit = pos 20;
  offset = pos 0;
}

abbrev document : OrderDocument ℕ
document = record {
  id = "o1";
  user_id = "u1";
  driver_id = "d1";
  taxi_type = taxi_type_economy;
  start_lat = 0;
  start_lng = 0;
  destination_lat = 1;
  destination_lng = 1;
  status = status_completed;
  price_minor_units = pos 250;
  rating = pos 0;
  comment = "";
  created_at = 1500000000;
  updated_at = 1600000000;
}

build_search_query-selects_example :
    matches (build_search_query stamp filter).query document ≡ selects filter document
build_search_query-selects_example =
    build_search_query-selects first_of last_of holds matches reads document stamp filter refl refl
