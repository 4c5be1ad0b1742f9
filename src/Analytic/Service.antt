-- ===== src/Analytic/Service.antt =====
-- services/analytic_service/service: the methods of `AnalyticService`.
use inno_taxi.Base.{ℕ, String, List}
use inno_taxi.Base.Int.{ℤ}
use inno_taxi.Base.Action.{raise_if, ◌>>◌}
use inno_taxi.Base.Tests.{ltb}
use inno_taxi.Analytic.Entity.{
  invalid_date_range, OrderEvent, DriverRatingEvent, UserEvent, OrderStats, DailyOrderCount,
  DriverRatingStats,
}
use inno_taxi.Analytic.Store.{
  Env, AnalyticAction, insert_order_event, insert_driver_rating, insert_user_registered_event,
  get_order_stats_rows, get_driver_rating_rows, get_daily_rows,
}

module _ (e : Env) where
  unfoldable pub ingest_order_event : OrderEvent → AnalyticAction (Unit {0})
  ingest_order_event x = insert_order_event e x

  unfoldable pub ingest_driver_rating : DriverRatingEvent → AnalyticAction (Unit {0})
  ingest_driver_rating x = insert_driver_rating e x

  unfoldable pub ingest_user_registered_event : UserEvent → AnalyticAction (Unit {0})
  ingest_user_registered_event x = insert_user_registered_event e x

  unfoldable pub get_order_stats : ℕ → ℕ → AnalyticAction OrderStats
  get_order_stats from until = do
    raise_if (ltb until from) invalid_date_range
    get_order_stats_rows e from until

  unfoldable pub get_daily_order_counts :
      (ℕ → ℕ) → (ℕ → String) → ℕ → ℕ → AnalyticAction (List DailyOrderCount)
  get_daily_order_counts to_date format from until = do
    raise_if (ltb until from) invalid_date_range
    get_daily_rows e to_date format from until

  unfoldable pub get_driver_rating_stats :
      {F : Type 0}
      → F
      → (List ℤ → F)
      → (List DriverRatingEvent → List DriverRatingEvent)
      → String
      → AnalyticAction (DriverRatingStats F)
  get_driver_rating_stats zero avg latest_first d = get_driver_rating_rows e zero avg latest_first d
