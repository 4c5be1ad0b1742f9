-- ===== src/Wallet/Requests.antt =====
-- The requests of handlers/http and handlers/grpc that reach `WalletService`, one after another.
pub mod Booked
use inno_taxi.Base.{String, List, [], ◌∷◌}
use inno_taxi.Base.Int.{ℤ}
use inno_taxi.Wallet.Store.{Env, World}
use inno_taxi.Wallet.Service.{create_wallet, get_wallet, charge, refund, list_recent_transactions}

pub data Request : Type 0 where
  create_wallet_of get_wallet_of list_recent_of : String → Request
  charge_to refund_to : String → ℤ → String → Request

module _ (e : Env) where
  unfoldable pub handle : Request → World → World
  handle (create_wallet_of u) w = (create_wallet e u w).1
  handle (get_wallet_of u) w = (get_wallet e u w).1
  handle (list_recent_of u) w = (list_recent_transactions e u w).1
  handle (charge_to u amount reference) w = (charge e u amount reference w).1
  handle (refund_to u amount reference) w = (refund e u amount reference w).1

  unfoldable pub run : List Request → World → World
  unfolding handle
  run [] w = w
  run (q ∷ qs) w = run qs (handle q w)
