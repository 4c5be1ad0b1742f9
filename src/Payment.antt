-- ===== src/Payment.antt =====
-- How the order service pays: services/order_service/gateway/wallet_service, which sends the request
-- that services/wallet_service/handler/http answers.
pub mod Paid
mod Tests
use inno_taxi.Base.{ℕ, String, Option, none, some, Bool, true, false, ◌||◌}
use inno_taxi.Base.Int.{ℤ}
use inno_taxi.Base.Tests.{leb, if◌then◌else◌, ◌==◌}
use inno_taxi.Order.Entity.{Error, insufficient_funds, external}
use inno_taxi.Wallet.Store.{Env, World}
use inno_taxi.Wallet.Http.{Response, TransactionReq, post_charge, post_refund}

-- How a request fares on the network: it does not arrive, its response does not come back, or all
-- goes well.
pub data Network : Type 0 where
  unreachable response_lost delivered : Network

abbrev eq_ℕ : ℕ → ℕ → Bool
eq_ℕ a b = if leb a b then leb b a else false

-- The `switch` on the status of the response.
abbrev pub error_of_status : ℕ → Option Error
error_of_status s =
    if eq_ℕ s 200 || eq_ℕ s 201
    then none
    else if eq_ℕ s 402
    then some insufficient_funds
    else some (external "wallet service returned unexpected status")

-- `doTransaction`, with the endpoint that serves it.
abbrev pub do_transaction : Network → (World → Response × World) → World → Option Error × World
do_transaction unreachable endpoint w = (some (external "call wallet service"), w)
do_transaction response_lost endpoint w = (some (external "call wallet service"), (endpoint w).1)
do_transaction delivered endpoint w = (error_of_status (endpoint w).0.status, (endpoint w).1)

abbrev transaction_req : ℤ → String → TransactionReq
transaction_req amount reference = record { amount_minor_units = amount; reference_id = reference }

module _ (e : Env) (n : Network) where
  unfoldable pub gateway_charge : String → ℤ → String → World → Option Error × World
  gateway_charge u amount reference =
      do_transaction n (post_charge e u (some (transaction_req amount reference)))

  unfoldable pub gateway_refund : String → ℤ → String → World → Option Error × World
  gateway_refund u amount reference =
      do_transaction n (post_refund e u (some (transaction_req amount reference)))
