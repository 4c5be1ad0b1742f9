-- ===== src/Dispatch.antt =====
-- How the order service finds drivers: services/order_service/gateway/driver_service, which sends the
-- requests that services/driver_service/handler/http answers.
pub mod Claimed
mod Tests
use inno_taxi.Base.{ℕ, String, Option, none, some, Bool, true, false, ◌&&◌, List, []}
use inno_taxi.Base.Action.{Result, ok, err}
use inno_taxi.Base.Tests.{leb, if◌then◌else◌}
use inno_taxi.Driver.Entity.{TaxiType, status_available}
use inno_taxi.Driver.Repository.{Env, World}
use inno_taxi.Driver.Http.{Body, driver_body, Response, post_claim, patch_status_internal}

-- How a request fares on the network: it does not arrive, its response does not come back, or all
-- goes well.
pub data Network : Type 0 where
  unreachable response_lost delivered : Network

-- `ClaimAvailableDriver` answers a user, or that there is none.
pub data ClaimAnswer : Type 0 where
  claimed : String → ClaimAnswer
  nobody_free : ClaimAnswer

abbrev is_status : ℕ → ℕ → Bool
is_status a b = leb a b && leb b a

module _ {F : Type 0} where
  -- The body of a response, as `driverResp`.
  abbrev pub decode_driver : Body F → Result String ClaimAnswer
  decode_driver (driver_body d) = ok (claimed d.user_id)
  decode_driver _ = err "decode claim driver response"

  -- The `switch` on the status.
  abbrev pub read_claim : Response F → Result String ClaimAnswer
  read_claim r =
      if is_status r.status 200
      then decode_driver r.body
      else if is_status r.status 404
      then ok nobody_free
      else err "driver service claim returned unexpected status"

  abbrev pub read_release : Response F → Result String (Unit {0})
  read_release r =
      if is_status r.status 200
      then ok tt
      else err "driver service release returned unexpected status"

-- `client.Do`, with the endpoint that serves it.
abbrev pub exchange :
    {R A : Type 0}
    → Network
    → (World → R × World)
    → (R → Result String A)
    → World
    → Result String A × World
exchange unreachable endpoint read w = (err "call driver service", w)
exchange response_lost endpoint read w = (err "call driver service", (endpoint w).1)
exchange delivered endpoint read w = let (r, w') = endpoint w in (read r, w')

module _ {F : Type 0} (zero : F) (e : Env) (n : Network) where
  unfoldable pub gateway_claim : TaxiType → World → Result String ClaimAnswer × World
  gateway_claim t = exchange n (post_claim zero e (some t)) read_claim

  unfoldable pub gateway_release : String → World → Result String (Unit {0}) × World
  gateway_release u =
      exchange n (patch_status_internal zero e u (some status_available)) read_release
