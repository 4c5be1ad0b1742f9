-- ===== src/Order/Search/Selected.antt =====
-- What the query of services/order_service/repository/es_repo/search_orders.go selects. What Elasticsearch
-- makes of a query is a parameter, with the documented meaning of `match_all`, of the `filter` of a
-- `bool`, of `term` on a keyword and of `range` as hypotheses: a date is kept to the millisecond, and a
-- date of a query that names no fraction begins with its second as a lower bound and ends with it as an
-- upper one. Times are in nanoseconds.
use inno_taxi.Base.{
  ℕ, ◌/◌, ◌*◌, ◌+◌, String, Option, none, some, Bool, true, false, ◌&&◌, ◌||◌, List, [], ◌∷◌, ◌++◌,
  ◌≡◌, refl, arith, ◌∙◌,
}
use inno_taxi.Base.Int.{ℤ, leb_ℤ}
use inno_taxi.Base.Tests.{◌==◌, leb}
use inno_taxi.Order.Entity.{OrderSearchFilter}
use inno_taxi.Order.Document.{OrderDocument, is_zero_int}
use inno_taxi.Order.Search.{
  Clause, term, date_range, number_range, Query, match_all, bool_filter, query_of, is_zero_time,
  term_clause, range_clause, bound, created_clause, price_clause, clauses_of, build_search_query,
}

-- An absent bound, and one that is given.
abbrev pub admits : {A : Type 0} → (A → Bool) → Option A → Bool
admits test none = true
admits test (some a) = test a

abbrev millisecond : ℕ → ℕ
millisecond t = t / 1000000

abbrev pub second : ℕ → ℕ
second t = t / 1000000000

leb-begin : (a t : ℕ) → leb (a * 1000) (millisecond t) ≡ leb a (second t)
leb-begin a t = ground arith

leb-end : (a t : ℕ) → leb (millisecond t) (a * 1000 + 999) ≡ leb (second t) a
leb-end a t = ground arith

module _ {F : Type 0} where
  unfoldable pub all_of : (Clause → OrderDocument F → Bool) → List Clause → OrderDocument F → Bool
  all_of holds [] d = true
  all_of holds (c ∷ cs) d = holds c d && all_of holds cs d

  -- How Elasticsearch documents that it reads a query. A date of a query is read as its first
  -- millisecond after `gte` and as its last one after `lte`.
  pub record ReadsQueries (first last : String → ℕ) (holds : Clause → OrderDocument F → Bool)
      (matches : Query → OrderDocument F → Bool) : Type 0 where
    pub everything : (d : OrderDocument F) → matches match_all d ≡ true
    pub every_clause :
        (cs : List Clause) (d : OrderDocument F) → matches (bool_filter cs) d ≡ all_of holds cs d
    pub taxi_type_term :
        (s : String) (d : OrderDocument F) → holds (term "taxi_type" s) d ≡ (d.taxi_type == s)
    pub status_term :
        (s : String) (d : OrderDocument F) → holds (term "status" s) d ≡ (d.status == s)
    pub created_range :
        (gte lte : Option String) (d : OrderDocument F)
        → holds (date_range "created_at" gte lte) d ≡ (
            admits (λ s. leb (first s) (millisecond d.created_at)) gte
            && admits (λ s. leb (millisecond d.created_at) (last s)) lte)
    pub price_range :
        (gte lte : Option ℤ) (d : OrderDocument F)
        → holds (number_range "price_minor_units" gte lte) d ≡ (
            admits (λ n. leb_ℤ n d.price_minor_units) gte
            && admits (λ n. leb_ℤ d.price_minor_units n) lte)

  -- What a filter asks for: each of its fields, where it is given, and times to the second.
  unfoldable pub selects : OrderSearchFilter → OrderDocument F → Bool
  selects f d =
      (f.taxi_type == "" || d.taxi_type == f.taxi_type)
      && ((f.status == "" || d.status == f.status)
          && (((is_zero_time f.created_after || leb (second f.created_after) (second d.created_at))
                && (is_zero_time f.created_before
                    || leb (second d.created_at) (second f.created_before)))
              && ((is_zero_int f.min_price_minor_units
                    || leb_ℤ f.min_price_minor_units d.price_minor_units)
                  && (is_zero_int f.max_price_minor_units
                      || leb_ℤ d.price_minor_units f.max_price_minor_units))))

  module _ (first last : String → ℕ) (holds : Clause → OrderDocument F → Bool)
      (matches : Query → OrderDocument F → Bool) (reads : ReadsQueries first last holds matches)
      (d : OrderDocument F) where
    all_of-++ :
        (xs ys : List Clause) → all_of holds (xs ++ ys) d ≡ (all_of holds xs d && all_of holds ys d)
    unfolding all_of
    all_of-++ [] ys = refl
    all_of-++ (x ∷ xs) ys = ground (arith, all_of-++ xs ys)

    matches-query_of : (cs : List Clause) → matches (query_of cs) d ≡ all_of holds cs d
    unfolding all_of
    matches-query_of [] = reads.everything d
    matches-query_of (c ∷ cs) = reads.every_clause (c ∷ cs) d

    all_of-taxi_type :
        (s : String) → all_of holds (term_clause "taxi_type" s) d ≡ (s == "" || d.taxi_type == s)
    unfolding all_of
    all_of-taxi_type s = ground (arith, reads.taxi_type_term s d)

    all_of-status :
        (s : String) → all_of holds (term_clause "status" s) d ≡ (s == "" || d.status == s)
    unfolding all_of
    all_of-status s = ground (arith, reads.status_term s d)

    all_of-range :
        {A : Type 0} (between : Option A → Option A → Clause) (p q : A → Bool)
        → ((gte lte : Option A) → holds (between gte lte) d ≡ (admits p gte && admits q lte))
        → (u v : Bool) (a b : A)
        → all_of holds (range_clause between (bound u a) (bound v b)) d ≡ ((u || p a) && (v || q b))
    unfolding all_of
    all_of-range between p q law true true a b = refl
    all_of-range between p q law true false a b = ground (arith, law none (some b))
    all_of-range between p q law false true a b = ground (arith, law (some a) none)
    all_of-range between p q law false false a b = ground (arith, law (some a) (some b))

    all_of-created :
        (format : ℕ → String) (after before : ℕ)
        → first (format after) ≡ second after * 1000
        → last (format before) ≡ second before * 1000 + 999
        → all_of holds (created_clause format after before) d ≡ (
            (is_zero_time after || leb (second after) (second d.created_at))
            && (is_zero_time before || leb (second d.created_at) (second before)))
    all_of-created format after before begins ends =
        all_of-range (date_range "created_at") (λ s. leb (first s) (millisecond d.created_at))
          (λ s. leb (millisecond d.created_at) (last s)) (λ gte lte. reads.created_range gte lte d)
          (is_zero_time after) (is_zero_time before) (format after) (format before)
        ∙ rw
            (
              begins,
              ends,
              leb-begin (second after) d.created_at,
              leb-end (second before) d.created_at,
            )
            refl

    all_of-price :
        (low high : ℤ)
        → all_of holds (price_clause low high) d ≡ (
            (is_zero_int low || leb_ℤ low d.price_minor_units)
            && (is_zero_int high || leb_ℤ d.price_minor_units high))
    all_of-price low high =
        all_of-range (number_range "price_minor_units") (λ n. leb_ℤ n d.price_minor_units)
          (λ n. leb_ℤ d.price_minor_units n) (λ gte lte. reads.price_range gte lte d)
          (is_zero_int low) (is_zero_int high) low high

    -- Where Elasticsearch reads queries as documented, and the times of the filter are formatted to the
    -- second, the query that a filter becomes matches exactly the documents that agree with the filter
    -- in each field that it gives, times compared by their seconds.
    pub build_search_query-selects :
        (format : ℕ → String) (f : OrderSearchFilter)
        → first (format f.created_after) ≡ second f.created_after * 1000
        → last (format f.created_before) ≡ second f.created_before * 1000 + 999
        → matches (build_search_query format f).query d ≡ selects f d
    unfolding build_search_query clauses_of selects
    build_search_query-selects format f after before =
        matches-query_of _
        ∙ all_of-++ (term_clause "taxi_type" f.taxi_type) _
        ∙ rw
            (
              all_of-++ (term_clause "status" f.status) (
                  created_clause format f.created_after f.created_before
                  ++ price_clause f.min_price_minor_units f.max_price_minor_units),
              all_of-++ (created_clause format f.created_after f.created_before)
                  (price_clause f.min_price_minor_units f.max_price_minor_units),
              all_of-taxi_type f.taxi_type,
              all_of-status f.status,
            )
            (rw
              (
                all_of-created format f.created_after f.created_before after before,
                all_of-price f.min_price_minor_units f.max_price_minor_units,
              )
              refl)
