-- ===== src/Payment/Tests.antt =====
-- A charge and a refund across the network, on a small table.
use inno_taxi.Base.{none, [], ◌∷◌}
use inno_taxi.Base.Int.{pos}
use inno_taxi.Base.Action.{ok}
use inno_taxi.Wallet.Store.{Env, World, no_fault}
use inno_taxi.Wallet.Service.InTransaction.{Charges, Refunds}
use inno_taxi.Payment.{response_lost, delivered, gateway_charge, gateway_refund}
use inno_taxi.Payment.Paid.{
  Concludes, gateway_moves-Concludes, gateway_charge-retry, gateway_refund-retry,
}

abbrev quiet : Env
quiet = record {
  database = λ l. no_fault;
  now = λ l. 7;
  fresh_id = λ l. "t9";
  recent_first = λ rs. rs;
  cached = λ l. ok none;
  cache_write = λ l. none;
}

abbrev rich : World
rich = record {
  tables = record {
    wallets =
        record {
          id = "w1";
          user_id = "u1";
          balance_minor_units = pos 100;
          created_at = 1;
          updated_at = 1;
        }
        ∷ [];
    transactions = [];
  };
  statements = [];
}

abbrev charge_lost : World
charge_lost = (gateway_charge quiet response_lost "u1" (pos 30) "o1" rich).1

abbrev refund_lost : World
refund_lost = (gateway_refund quiet response_lost "u1" (pos 30) "o1" rich).1

gateway_moves-Concludes_example :
    Concludes
      (Charges "u1" (pos 30) "o1")
      rich
      (gateway_charge quiet delivered "u1" (pos 30) "o1" rich).0
      (gateway_charge quiet delivered "u1" (pos 30) "o1" rich).1
    × Concludes
        (Refunds "u1" (pos 30) "o1")
        rich
        (gateway_refund quiet delivered "u1" (pos 30) "o1" rich).0
        (gateway_refund quiet delivered "u1" (pos 30) "o1" rich).1
gateway_moves-Concludes_example = gateway_moves-Concludes quiet delivered "u1" (pos 30) "o1" rich

gateway_charge-retry_example :
    Concludes
      (Charges "u1" (pos 30) "o1")
      rich
      (gateway_charge quiet delivered "u1" (pos 30) "o1" charge_lost).0
      (gateway_charge quiet delivered "u1" (pos 30) "o1" charge_lost).1
gateway_charge-retry_example =
    gateway_charge-retry quiet response_lost delivered "u1" (pos 30) "o1" rich

gateway_refund-retry_example :
    Concludes
      (Refunds "u1" (pos 30) "o1")
      rich
      (gateway_refund quiet delivered "u1" (pos 30) "o1" refund_lost).0
      (gateway_refund quiet delivered "u1" (pos 30) "o1" refund_lost).1
gateway_refund-retry_example =
    gateway_refund-retry quiet response_lost delivered "u1" (pos 30) "o1" rich
