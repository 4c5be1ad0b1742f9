-- ===== src/Analytic/Http.antt =====
-- services/analytic_service/handler/http: what each endpoint answers. `Parse` of a date and `AddDate`
-- of Go's `time` are parameters.
use inno_taxi.Base.{ℕ, String, Option, none, some, List}
use inno_taxi.Base.Int.{ℤ}
use inno_taxi.Base.Action.{Result, ok, err}
use inno_taxi.Base.Tests.{◌==◌, if◌then◌else◌}
use inno_taxi.Analytic.Entity.{
  AnalyticError, invalid_date_range, DriverRatingEvent, OrderStats, DailyOrderCount,
  DriverRatingStats,
}
use inno_taxi.Analytic.Store.{Env, World}
use inno_taxi.Analytic.Service.{get_order_stats, get_daily_order_counts, get_driver_rating_stats}

pub record Calendar : Type 0 where
  pub parse_date : String → Option ℕ
  pub days_before : ℕ → ℕ → ℕ
  pub days_after : ℕ → ℕ → ℕ
  pub to_date : ℕ → ℕ
  pub format_date : ℕ → String

pub data Body (F : Type 0) : Type 0 where
  bad_date invalid_range internal_error : Body F
  stats_body : OrderStats → Body F
  daily_body : List DailyOrderCount → Body F
  rating_body : DriverRatingStats F → Body F

pub record Response (F : Type 0) : Type 0 where
  pub status : ℕ
  pub body : Body F

module _ (cal : Calendar) where
  -- A query parameter that is not given, and one that is.
  abbrev date_or : ℕ → (ℕ → ℕ) → String → Option ℕ
  date_or default shift raw =
      if raw == ""
      then some default
      else elim (cal.parse_date raw) [ none ↦ none | some t ↦ some (shift t) ]

  abbrev both : Option ℕ → Option ℕ → Option (ℕ × ℕ)
  both none until = none
  both (some from) none = none
  both (some from) (some until) = some (from, until)

  unfoldable pub parse_date_range : ℕ → String → String → Option (ℕ × ℕ)
  parse_date_range now from until =
      both (date_or (cal.days_before 30 now) (λ t. t) from) (date_or now (cal.days_after 1) until)

module _ {F : Type 0} where
  abbrev answer : ℕ → Body F → Response F
  answer s b = record { status = s; body = b }

  -- `errors.Is`
  abbrev range_failure : AnalyticError → Response F
  range_failure invalid_date_range = answer 422 invalid_range
  range_failure x = answer 500 internal_error

  abbrev stats_response : Result AnalyticError OrderStats → Response F
  stats_response (ok s) = answer 200 (stats_body s)
  stats_response (err x) = range_failure x

  abbrev daily_response : Result AnalyticError (List DailyOrderCount) → Response F
  daily_response (ok ds) = answer 200 (daily_body ds)
  daily_response (err x) = range_failure x

  abbrev rating_response : Result AnalyticError (DriverRatingStats F) → Response F
  rating_response (ok s) = answer 200 (rating_body s)
  rating_response (err x) = answer 500 internal_error

module _ {F : Type 0} (cal : Calendar) (e : Env) (now : ℕ) where
  unfoldable pub show_order_stats : String → String → World → Response F × World
  show_order_stats from until w = elim (parse_date_range cal now from until) [
    | none ↦ (answer 400 bad_date, w)
    | some range ↦ (let (r, w') = get_order_stats e range.0 range.1 w in (stats_response r, w'))
  ]

  unfoldable pub show_daily_counts : String → String → World → Response F × World
  show_daily_counts from until w = elim (parse_date_range cal now from until) [
    | none ↦ (answer 400 bad_date, w)
    | some range ↦
        (let (r, w') = get_daily_order_counts e cal.to_date cal.format_date range.0 range.1 w in
          (daily_response r, w'))
  ]

  unfoldable pub show_driver_rating :
      F
      → (List ℤ → F)
      → (List DriverRatingEvent → List DriverRatingEvent)
      → String
      → World
      → Response F × World
  show_driver_rating zero avg latest_first d w =
      let (r, w') = get_driver_rating_stats e zero avg latest_first d w in (rating_response r, w')
