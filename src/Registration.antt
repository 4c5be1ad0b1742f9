-- ===== src/Registration.antt =====
-- What follows a registration: the consumers of the topic `user_registered` in
-- services/driver_service/handler/kafka and services/wallet_service/handler/kafka. Reading protobuf is
-- a parameter: a message comes as its event, or none where it is malformed.
pub mod Registered
mod Tests
use inno_taxi.Base.{String, Option, none, some, List, [], ◌∷◌, ◌++◌}
use inno_taxi.Base.Tests.{◌==◌, if◌then◌else◌}
use inno_taxi.Driver.Entity.{TaxiType}
use inno_taxi.Driver.Repository.{Env as DriverEnv, World as DriverWorld}
use inno_taxi.Driver.Service.{create_driver}
use inno_taxi.Wallet.Store.{Env as WalletEnv, World as WalletWorld}
use inno_taxi.Wallet.Service.{create_wallet}

-- The fields of `UserRegisteredEvent` that the two consumers read.
pub record UserRegisteredEvent : Type 0 where
  pub user_id : String
  pub role : String

abbrev pub Message : Type 0
Message = Option UserRegisteredEvent

-- `ConsumeClaim`, on the messages that come before the claim or the session ends: each is handled, and
-- marked whatever came of it. The messages that were marked are kept, the latest last.
unfoldable pub consume_claim :
    {W : Type 0} → (Message → W → W) → List Message → W × List Message → W × List Message
consume_claim handle [] s = s
consume_claim handle (m ∷ ms) (w, marked) = consume_claim handle ms (handle m w, marked ++ m ∷ [])

abbrev pub default_taxi_type : TaxiType
default_taxi_type = "economy"

-- `handleMessage` of the driver service; an error, be it that the driver is there, is logged.
unfoldable pub handle_driver_message : DriverEnv → Message → DriverWorld → DriverWorld
handle_driver_message e none w = w
handle_driver_message e (some event) w =
    if event.role == "driver" then (create_driver e event.user_id default_taxi_type w).1 else w

-- `handleMessage` of the wallet service.
unfoldable pub handle_wallet_message : WalletEnv → Message → WalletWorld → WalletWorld
handle_wallet_message e none w = w
handle_wallet_message e (some event) w = (create_wallet e event.user_id w).1
