-- ===== src/Driver/Ratings.antt =====
-- services/driver_service/gateway/analytic_service: the rating of a driver is asked for by a request
-- to the analytic service, whose response, a status and a body that is decoded where it can be, is a
-- parameter.
use inno_taxi.Base.{ℕ, String, Option, none, some, ◌&&◌}
use inno_taxi.Base.Int.{ℤ}
use inno_taxi.Base.Action.{Result, ok, err}
use inno_taxi.Base.Tests.{leb, if◌then◌else◌}

pub record DriverRatingResp (F : Type 0) : Type 0 where
  pub average : F
  pub count : ℤ

pub data Exchange (F : Type 0) : Type 0 where
  not_sent : String → Exchange F
  responded : ℕ → Option (DriverRatingResp F) → Exchange F

module _ {F : Type 0} where
  abbrev decoded : Option (DriverRatingResp F) → Result String (F × ℤ)
  decoded none = err "decode get driver rating stats response"
  decoded (some r) = ok (r.average, r.count)

  -- `GetDriverRatingStats`
  unfoldable pub get_driver_rating_stats : (String → Exchange F) → String → Result String (F × ℤ)
  get_driver_rating_stats send u = elim (send u) [
    | not_sent m ↦ err m
    | responded s body ↦
        if leb s 200 && leb 200 s
        then decoded body
        else err "analytic service get driver rating stats returned unexpected status"
  ]
