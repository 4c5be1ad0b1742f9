-- ===== src/Wallet/Tests.antt =====
-- Runs of the wallet's methods on two small tables.
use inno_taxi.Base.{none, some, true, false, [], ◌∷◌, ◌≡◌, refl, arith}
use inno_taxi.Base.Int.{ℤ, pos, ◌+ℤ◌, ◌-ℤ◌, ◌<ℤ◌, int64}
use inno_taxi.Base.Action.{ok}
use inno_taxi.Wallet.Entity.{Wallet, Transaction, transaction_type_debit, transaction_type_credit}
use inno_taxi.Wallet.Store.{
  Env, World, no_fault, find_wallet, has_wallet, set_balance, lookup_transaction, invalidate,
}
use inno_taxi.Wallet.Transact.{
  get_wallet_for_update, set_wallet_balance, find_transaction_by_reference, create_transaction,
  transactional_operation, finish, has_transaction,
}
use inno_taxi.Wallet.Service.{charge, refund}
use inno_taxi.Wallet.Service.InTransaction.{Charges, Refunds}
use inno_taxi.Wallet.Service.Posting.{Ends, charge-Charges, refund-Refunds}
use inno_taxi.Wallet.Service.Balance.{charge-once, refund-once}
use inno_taxi.Wallet.Service.Answers.{
  Answers, charge_verdict, refund_verdict, charge-Answers, refund-Answers,
}
use inno_taxi.Wallet.Service.Solvent.{Solvent, charge-Solvent, refund-overflow}
use inno_taxi.Wallet.Ledger.{Booked, net}
use inno_taxi.Wallet.Requests.{
  create_wallet_of, get_wallet_of, list_recent_of, charge_to, refund_to, run,
}
use inno_taxi.Wallet.Requests.Booked.{run-Booked}

-- Everything gets through.
abbrev calm : Env
calm = record {
  database = λ l. no_fault;
  now = λ l. 7;
  fresh_id = λ l. "t9";
  recent_first = λ rs. rs;
  cached = λ l. ok none;
  cache_write = λ l. none;
}

abbrev topped_up : Transaction
topped_up = record {
  id = "t1";
  wallet_id = "w1";
  type = transaction_type_credit;
  amount_minor_units = pos 100;
  reference_id = "top-up";
  created_at = 1;
}

abbrev purse : ℤ → Wallet
purse b = record {
  id = "w1";
  user_id = "u1";
  balance_minor_units = b;
  created_at = 1;
  updated_at = 1;
}

abbrev funded : World
funded = record {
  tables = record { wallets = purse (pos 100) ∷ []; transactions = topped_up ∷ [] };
  statements = [];
}

-- One below 2 ^ 63.
abbrev brim : World
brim = record {
  tables = record { wallets = purse (pos 9223372036854775807) ∷ []; transactions = [] };
  statements = [];
}

abbrev ride_debit : Transaction
ride_debit = record {
  id = "t9";
  wallet_id = "w1";
  type = transaction_type_debit;
  amount_minor_units = pos 30;
  reference_id = "o1";
  created_at = 7;
}

abbrev ride_credit : ℤ → Transaction
ride_credit n = record {
  id = "t9";
  wallet_id = "w1";
  type = transaction_type_credit;
  amount_minor_units = n;
  reference_id = "o1";
  created_at = 7;
}

funded-Booked : Booked funded.tables
unfolding net has_wallet int64 ◌+ℤ◌
funded-Booked = ((refl, tt), (refl, tt))

charge-funded : (charge calm "u1" (pos 30) "o1" funded).0 ≡ ok (ride_debit, true)
unfolding charge get_wallet_for_update set_wallet_balance find_transaction_by_reference
    create_transaction transactional_operation finish has_transaction find_wallet set_balance
    lookup_transaction invalidate int64 ◌-ℤ◌
charge-funded = refl

charge_again :
    (charge calm "u1" (pos 99) "o1" (charge calm "u1" (pos 30) "o1" funded).1).0
    ≡ ok (ride_debit, false)
unfolding charge get_wallet_for_update set_wallet_balance find_transaction_by_reference
    create_transaction transactional_operation finish has_transaction find_wallet set_balance
    lookup_transaction invalidate int64 ◌-ℤ◌
charge_again = refl

refund-funded : (refund calm "u1" (pos 30) "o1" funded).0 ≡ ok (ride_credit (pos 30), true)
unfolding refund get_wallet_for_update set_wallet_balance find_transaction_by_reference
    create_transaction transactional_operation finish has_transaction find_wallet set_balance
    lookup_transaction invalidate int64 ◌+ℤ◌
refund-funded = refl

refund_again :
    (refund calm "u1" (pos 99) "o1" (refund calm "u1" (pos 30) "o1" funded).1).0
    ≡ ok (ride_credit (pos 30), false)
unfolding refund get_wallet_for_update set_wallet_balance find_transaction_by_reference
    create_transaction transactional_operation finish has_transaction find_wallet set_balance
    lookup_transaction invalidate int64 ◌+ℤ◌
refund_again = refl

refund-brim : (refund calm "u1" (pos 1) "o1" brim).0 ≡ ok (ride_credit (pos 1), true)
unfolding refund get_wallet_for_update set_wallet_balance find_transaction_by_reference
    create_transaction transactional_operation finish has_transaction find_wallet set_balance
    lookup_transaction invalidate int64 ◌+ℤ◌
refund-brim = refl

run-Booked_example :
    Booked
      (run calm
        (create_wallet_of "u2"
          ∷ charge_to "u1" (pos 30) "o1"
          ∷ refund_to "u1" (pos 30) "o1"
          ∷ get_wallet_of "u1"
          ∷ list_recent_of "u1"
          ∷ [])
        funded).tables
run-Booked_example =
    run-Booked calm
      (create_wallet_of "u2"
        ∷ charge_to "u1" (pos 30) "o1"
        ∷ refund_to "u1" (pos 30) "o1"
        ∷ get_wallet_of "u1"
        ∷ list_recent_of "u1"
        ∷ [])
      funded funded-Booked

charge-Charges_example :
    Ends calm
      (Charges "u1" (pos 30) "o1")
      funded
      (charge calm "u1" (pos 30) "o1" funded).0
      (charge calm "u1" (pos 30) "o1" funded).1
charge-Charges_example = charge-Charges calm "u1" (pos 30) "o1" funded

refund-Refunds_example :
    Ends calm
      (Refunds "u1" (pos 30) "o1")
      funded
      (refund calm "u1" (pos 30) "o1" funded).0
      (refund calm "u1" (pos 30) "o1" funded).1
refund-Refunds_example = refund-Refunds calm "u1" (pos 30) "o1" funded

charge-once_example :
    (ride_debit ≡ ride_debit)
    × (false ≡ false)
    × ((charge calm "u1" (pos 99) "o1" (charge calm "u1" (pos 30) "o1" funded).1).1.tables
        ≡ (charge calm "u1" (pos 30) "o1" funded).1.tables)
charge-once_example =
    charge-once calm "u1" (pos 30) (pos 99) "o1" funded (charge calm "u1" (pos 30) "o1" funded).1
      ride_debit ride_debit true false charge-funded refl charge_again

refund-once_example :
    (ride_credit (pos 30) ≡ ride_credit (pos 30))
    × (false ≡ false)
    × ((refund calm "u1" (pos 99) "o1" (refund calm "u1" (pos 30) "o1" funded).1).1.tables
        ≡ (refund calm "u1" (pos 30) "o1" funded).1.tables)
refund-once_example =
    refund-once calm "u1" (pos 30) (pos 99) "o1" funded (refund calm "u1" (pos 30) "o1" funded).1
      (ride_credit (pos 30)) (ride_credit (pos 30)) true false refund-funded refl refund_again

no_t9 : has_transaction "t9" funded.tables.transactions ≡ false
unfolding has_transaction
no_t9 = refl

charge-Answers_example :
    Answers
      (charge_verdict "u1" (pos 30) "o1" funded.tables)
      (charge calm "u1" (pos 30) "o1" funded).0
charge-Answers_example =
    charge-Answers calm (λ l. refl) "u1" (pos 30) "o1" funded (λ l. no_t9) (omega arith)

refund-Answers_example :
    Answers
      (refund_verdict "u1" (pos 30) "o1" funded.tables)
      (refund calm "u1" (pos 30) "o1" funded).0
refund-Answers_example =
    refund-Answers calm (λ l. refl) "u1" (pos 30) "o1" funded (λ l. no_t9) (omega arith)

charge-Solvent_example : Solvent (charge calm "u1" (pos 30) "o1" funded).1.tables
charge-Solvent_example =
    charge-Solvent calm "u1" (pos 30) "o1" funded ((omega arith, omega arith), tt)

brim-owner : find_wallet "u1" brim.tables.wallets ≡ some (purse (pos 9223372036854775807))
unfolding find_wallet
brim-owner = refl

brim-over : pos 9223372036854775807 +ℤ pos 1 ≡ pos 9223372036854775808
unfolding ◌+ℤ◌
brim-over = refl

refund-overflow_example :
    (x : Wallet) × (find_wallet "u1" (refund calm "u1" (pos 1) "o1" brim).1.tables.wallets ≡ some x)
    × (x.balance_minor_units <ℤ pos 0)
refund-overflow_example =
    refund-overflow calm "u1" (pos 1) "o1" brim (purse (pos 9223372036854775807))
      (ride_credit (pos 1)) brim-owner (omega arith) (omega arith) (rw brim-over (omega arith))
      refund-brim
