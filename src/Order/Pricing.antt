-- ===== src/Order/Pricing.antt =====
-- services/order_service/service/pricing.go. Go's `float64` and `math` are the parameter `FloatOps`.
use inno_taxi.Base.{Bool, ◌&&◌}
use inno_taxi.Base.Int.{ℤ, pos, ◌+ℤ◌, int64}
use inno_taxi.Base.Tests.{◌==◌, if◌then◌else◌}
use inno_taxi.Order.Entity.{
  TaxiType, taxi_type_economy, taxi_type_comfort, taxi_type_business, Location,
}

pub record FloatOps (F : Type 0) : Type 0 where
  pub of_int : ℤ → F  -- `float64(n)`, and the integer literals
  pub pi : F
  pub add : F → F → F
  pub sub : F → F → F
  pub mul : F → F → F
  pub div : F → F → F
  pub sin : F → F
  pub cos : F → F
  pub asin : F → F
  pub sqrt : F → F
  pub round : F → F
  pub to_int : F → ℤ  -- `int64(x)`
  pub eq : F → F → Bool

abbrev pub base_fare_economy_minor_units : ℤ
base_fare_economy_minor_units = pos 200

abbrev pub base_fare_comfort_minor_units : ℤ
base_fare_comfort_minor_units = pos 300

abbrev pub base_fare_business_minor_units : ℤ
base_fare_business_minor_units = pos 500

abbrev pub per_km_rate_economy_minor_units : ℤ
per_km_rate_economy_minor_units = pos 15

abbrev pub per_km_rate_comfort_minor_units : ℤ
per_km_rate_comfort_minor_units = pos 25

abbrev pub per_km_rate_business_minor_units : ℤ
per_km_rate_business_minor_units = pos 40

abbrev pub earth_radius_km : ℤ
earth_radius_km = pos 6371

module _ {F : Type 0} (fl : FloatOps F) where
  open fl use {of_int, pi, sub, mul, div, sin, cos, asin, sqrt, round, to_int, eq}

  -- `Location.IsZero`
  unfoldable pub is_zero : Location F → Bool
  is_zero l = eq l.lat (of_int (pos 0)) && eq l.lng (of_int (pos 0))

  abbrev radians : F → F
  radians x = div (mul x pi) (of_int (pos 180))

  abbrev half : F → F
  half x = div x (of_int (pos 2))

  unfoldable pub haversine_km : Location F → Location F → F
  haversine_km a b =
      let a_lat = radians a.lat in
      let a_lng = radians a.lng in
      let b_lat = radians b.lat in
      let b_lng = radians b.lng in
      let d_lat = sub b_lat a_lat in
      let d_lng = sub b_lng a_lng in
      let h =
        fl.add (mul (sin (half d_lat)) (sin (half d_lat)))
          (mul (mul (mul (cos a_lat) (cos b_lat)) (sin (half d_lng))) (sin (half d_lng))) in
      mul (mul (of_int (pos 2)) (of_int earth_radius_km)) (asin (sqrt h))

  -- `int64(math.Round(float64(rate) * distanceKm))`
  unfoldable pub metered_fare : ℤ → F → ℤ
  metered_fare rate distance = to_int (round (mul (of_int rate) distance))

  unfoldable pub price_for_trip : TaxiType → Location F → Location F → ℤ
  price_for_trip t start destination =
      let distance = haversine_km start destination in
      if t == taxi_type_economy
      then int64
          (base_fare_economy_minor_units +ℤ metered_fare per_km_rate_economy_minor_units distance)
      else if t == taxi_type_comfort
      then int64
          (base_fare_comfort_minor_units +ℤ metered_fare per_km_rate_comfort_minor_units distance)
      else if t == taxi_type_business
      then int64
          (base_fare_business_minor_units +ℤ metered_fare per_km_rate_business_minor_units distance)
      else pos 0
