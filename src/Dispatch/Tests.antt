-- ===== src/Dispatch/Tests.antt =====
-- A driver who is claimed for an order, with the response lost.
use inno_taxi.Base.{ℕ, [], ◌∷◌}
use inno_taxi.Driver.Entity.{status_available, Driver}
use inno_taxi.Driver.Repository.{Env, World, no_fault}
use inno_taxi.Dispatch.{response_lost, gateway_claim}
use inno_taxi.Dispatch.Claimed.{ClaimEnds, gateway_claim-ClaimEnds}

abbrev calm : Env
calm = record { database = λ l. no_fault; now = λ l. 7; fresh_id = λ l. "d9" }

abbrev free : Driver
free = record {
  id = "d1";
  user_id = "u1";
  taxi_type = "economy";
  status = status_available;
  created_at = 7;
  updated_at = 7;
}

abbrev rank : World
rank = record { drivers = free ∷ []; commands = [] }

abbrev no_rating : ℕ
no_rating = 0

gateway_claim-ClaimEnds_example :
    ClaimEnds "economy" 7 rank.drivers
      (gateway_claim no_rating calm response_lost "economy" rank).0
      (gateway_claim no_rating calm response_lost "economy" rank).1.drivers
gateway_claim-ClaimEnds_example =
    gateway_claim-ClaimEnds no_rating calm response_lost "economy" rank
