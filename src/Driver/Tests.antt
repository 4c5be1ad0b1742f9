-- ===== src/Driver/Tests.antt =====
-- Two drivers, of whom one is claimed after the other.
use inno_taxi.Base.{String, List, [], ◌∷◌, ◌≡◌, ◌≢◌, refl}
use inno_taxi.Base.Action.{ok}
use inno_taxi.Base.Tests.{==_ne}
use inno_taxi.Driver.Entity.{
  TaxiType, Status, status_available, status_on_trip, is_valid_taxi_type, Driver,
}
use inno_taxi.Driver.Repository.{
  Env, World, no_fault, update_one, claim_first, claimed_row, update_taxi_type_row, claim_row,
  lookup,
}
use inno_taxi.Driver.Service.{claim_available_driver, update_taxi_type_by_user}
use inno_taxi.Driver.Requests.{Request, set_taxi_type, handle, run}
use inno_taxi.Driver.Claims.{HasUniqueUsers, claim-exclusive}

abbrev calm : Env
calm = record { database = λ l. no_fault; now = λ l. 7; fresh_id = λ l. "d9" }

abbrev driver : String → Status → TaxiType → Driver
driver u s t = record {
  id = u;
  user_id = u;
  taxi_type = t;
  status = s;
  created_at = 7;
  updated_at = 7;
}

abbrev rank : World
rank = record {
  drivers = driver "u1" status_available "economy" ∷ driver "u2" status_available "economy" ∷ [];
  commands = [];
}

abbrev between : List Request
between = set_taxi_type "u1" "comfort" ∷ []

first_claim :
    (claim_available_driver calm "economy" rank).0 ≡ ok (driver "u1" status_on_trip "economy")
unfolding claim_available_driver claim_row claimed_row is_valid_taxi_type
first_claim = refl

second_claim :
    (claim_available_driver calm "economy"
      (run calm between (claim_available_driver calm "economy" rank).1)).0
    ≡ ok (driver "u2" status_on_trip "economy")
unfolding claim_available_driver claim_row claimed_row claim_first run handle
    update_taxi_type_by_user update_taxi_type_row update_one lookup is_valid_taxi_type
second_claim = refl

rank-HasUniqueUsers : HasUniqueUsers rank.drivers
rank-HasUniqueUsers = ((==_ne "u2" "u1" refl, tt), (tt, tt))

claim-exclusive_example :
    (driver "u2" status_on_trip "economy").user_id ≢ (driver "u1" status_on_trip "economy").user_id
claim-exclusive_example =
    claim-exclusive calm "economy" "economy" between rank (driver "u1" status_on_trip "economy")
      (driver "u2" status_on_trip "economy") rank-HasUniqueUsers first_claim (tt, tt) second_claim
