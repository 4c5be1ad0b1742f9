-- ===== src/Analytic/Store.antt =====
-- services/analytic_service/repository/ch_repo: the statements on the three tables of ClickHouse, each
-- a `ReplacingMergeTree` by its id: a query with `FINAL` sees the last row of an id. A statement may be
-- lost before or after it takes effect.
use inno_taxi.Base.{ℕ, suc, String, Bool, false, not, ◌&&◌, ◌||◌, List, [], ◌∷◌, ◌++◌, map}
use inno_taxi.Base.Int.{ℤ, pos, ◌+ℤ◌, int64}
use inno_taxi.Base.Action.{ok, err, Action}
use inno_taxi.Base.Lists.{take, length}
use inno_taxi.Base.Tests.{◌==◌, leb, ltb, if◌then◌else◌}
use inno_taxi.Analytic.Entity.{
  AnalyticError, outside, wrap, OrderEvent, DriverRatingEvent, UserEvent, OrderStats,
  DailyOrderCount, DriverRatingStats,
}

pub data Statement : Type 0 where
  insert_order insert_rating insert_user query_stats query_daily query_rating : Statement

pub data Fault : Type 0 where
  no_fault : Fault
  request_lost reply_lost : String → Fault

-- What the outside answers, by the statements sent so far, the latest first.
pub record Env : Type 0 where
  pub database : List Statement → Fault

-- The rows of the tables in the order of `ingested_at`, the version of a row that `FINAL` keeps the
-- greatest of: the latest last.
pub record World : Type 0 where
  pub order_events : List OrderEvent
  pub driver_ratings : List DriverRatingEvent
  pub user_registration_events : List UserEvent
  pub statements : List Statement

abbrev pub AnalyticAction : Type 0 → Type 0
AnalyticAction A = Action World AnalyticError A

unfoldable pub has_order : String → List OrderEvent → Bool
has_order i [] = false
has_order i (x ∷ xs) = x.order_id == i || has_order i xs

-- `FROM order_events FINAL`
unfoldable pub final_orders : List OrderEvent → List OrderEvent
final_orders [] = []
final_orders (x ∷ xs) = if has_order x.order_id xs then final_orders xs else x ∷ final_orders xs

unfoldable pub has_rating : String → List DriverRatingEvent → Bool
has_rating i [] = false
has_rating i (x ∷ xs) = x.order_id == i || has_rating i xs

-- `FROM driver_ratings FINAL WHERE driver_id = ?`
unfoldable pub final_ratings : String → List DriverRatingEvent → List DriverRatingEvent
final_ratings d [] = []
final_ratings d (x ∷ xs) =
    let rest = final_ratings d xs in
    if not (has_rating x.order_id xs) && x.driver_id == d then x ∷ rest else rest

-- `WHERE order_created_at >= ? AND order_created_at < ?`
unfoldable pub in_range : ℕ → ℕ → List OrderEvent → List OrderEvent
in_range from until [] = []
in_range from until (x ∷ xs) =
    let rest = in_range from until xs in
    if leb from x.created_at && ltb x.created_at until then x ∷ rest else rest

-- A row of the answer: a status, a taxi type and how many there are.
pub record Group : Type 0 where
  pub status : String
  pub taxi_type : String
  pub count : ℕ

-- `GROUP BY status, taxi_type`
unfoldable pub add_to_group : OrderEvent → List Group → List Group
add_to_group x [] = record { status = x.status; taxi_type = x.taxi_type; count = 1 } ∷ []
add_to_group x (g ∷ gs) =
    if g.status == x.status && g.taxi_type == x.taxi_type
    then record g { count = suc g.count } ∷ gs
    else g ∷ add_to_group x gs

unfoldable pub group_by : List OrderEvent → List Group
group_by [] = []
group_by (x ∷ xs) = add_to_group x (group_by xs)

-- `m[k] += n` on a map of `int64`.
unfoldable pub add_count : String → ℕ → List (String × ℤ) → List (String × ℤ)
add_count k n [] = (k, int64 (pos 0 +ℤ int64 (pos n))) ∷ []
add_count k n ((k', m) ∷ ms) =
    if k' == k then (k', int64 (m +ℤ int64 (pos n))) ∷ ms else (k', m) ∷ add_count k n ms

abbrev pub no_stats : OrderStats
no_stats = record { total_orders = pos 0; counts_by_status = []; counts_by_taxi_type = [] }

abbrev pub scan_row : OrderStats → Group → OrderStats
scan_row s g = record {
  total_orders = int64 (s.total_orders +ℤ int64 (pos g.count));
  counts_by_status = add_count g.status g.count s.counts_by_status;
  counts_by_taxi_type = add_count g.taxi_type g.count s.counts_by_taxi_type;
}

-- The loop over the rows.
unfoldable pub scan_rows : OrderStats → List Group → OrderStats
scan_rows s [] = s
scan_rows s (g ∷ gs) = scan_rows (scan_row s g) gs

abbrev run_statement :
    {A : Type 0} → Env → Statement → String → (World → World) → (World → A) → AnalyticAction A
run_statement e s m effect answer w =
    let v = record w { statements = s ∷ w.statements } in
    elim (e.database v.statements) [
      | no_fault ↦ (ok (answer w), effect v)
      | request_lost x ↦ (err (wrap m (outside x)), v)
      | reply_lost x ↦ (err (wrap m (outside x)), effect v)
    ]

-- `GROUP BY d ORDER BY d`: the days in their order, each with how many there are.
unfoldable pub add_to_day : ℕ → List (ℕ × ℕ) → List (ℕ × ℕ)
add_to_day d [] = (d, 1) ∷ []
add_to_day d ((d', n) ∷ ds) =
    let rest = add_to_day d ds in
    if ltb d d'
    then (d, 1) ∷ (d', n) ∷ ds
    else if ltb d' d
    then (d', n) ∷ rest
    else (d', suc n) ∷ ds

unfoldable pub group_days : (ℕ → ℕ) → List OrderEvent → List (ℕ × ℕ)
group_days to_date [] = []
group_days to_date (x ∷ xs) = add_to_day (to_date x.created_at) (group_days to_date xs)

abbrev daily_count : (ℕ → String) → ℕ × ℕ → DailyOrderCount
daily_count format (d, n) = record { date = format d; count = int64 (pos n) }

-- Without a row, the statistics are zero.
abbrev rating_stats : {F : Type 0} → F → (List ℤ → F) → List ℤ → DriverRatingStats F
rating_stats zero avg [] = record { average = zero; count = pos 0 }
rating_stats zero avg (r ∷ rs) = record {
  average = avg (r ∷ rs);
  count = int64 (pos (length (r ∷ rs)));
}

module _ (e : Env) where
  unfoldable pub insert_order_event : OrderEvent → AnalyticAction (Unit {0})
  insert_order_event x =
      run_statement e insert_order "insert order event"
        (λ w. record w { order_events = w.order_events ++ x ∷ [] }) (λ w. tt)

  unfoldable pub insert_driver_rating : DriverRatingEvent → AnalyticAction (Unit {0})
  insert_driver_rating x =
      run_statement e insert_rating "insert driver rating"
        (λ w. record w { driver_ratings = w.driver_ratings ++ x ∷ [] }) (λ w. tt)

  unfoldable pub insert_user_registered_event : UserEvent → AnalyticAction (Unit {0})
  insert_user_registered_event x =
      run_statement e insert_user "insert user registered event"
        (λ w. record w { user_registration_events = w.user_registration_events ++ x ∷ [] })
        (λ w. tt)

  unfoldable pub get_order_stats_rows : ℕ → ℕ → AnalyticAction OrderStats
  get_order_stats_rows from until =
      run_statement e query_stats "query order stats" (λ w. w)
        (λ w. scan_rows no_stats (group_by (in_range from until (final_orders w.order_events))))

  -- The average of the ratings, and the order by `rated_at`, the latest first, are parameters.
  unfoldable pub get_driver_rating_rows :
      {F : Type 0}
      → F
      → (List ℤ → F)
      → (List DriverRatingEvent → List DriverRatingEvent)
      → String
      → AnalyticAction (DriverRatingStats F)
  get_driver_rating_rows zero avg latest_first d =
      run_statement e query_rating "query driver rating stats" (λ w. w)
        (λ w.
          let rows = take 20 (latest_first (final_ratings d w.driver_ratings)) in
          rating_stats zero avg (map (λ (r : DriverRatingEvent). r.rating) rows))

  -- `toDate` and the format of a day are parameters.
  unfoldable pub get_daily_rows :
      (ℕ → ℕ) → (ℕ → String) → ℕ → ℕ → AnalyticAction (List DailyOrderCount)
  get_daily_rows to_date format from until =
      run_statement e query_daily "query daily order counts" (λ w. w)
        (λ w.
          map (daily_count format)
            (group_days to_date (in_range from until (final_orders w.order_events))))
