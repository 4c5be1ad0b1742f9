-- ===== src/Wallet/Service.antt =====
-- services/wallet_service/service: the methods of `WalletService`. Log lines are left out.
pub mod InTransaction
pub mod Posting
pub mod Answers
pub mod Solvent
pub mod Balance
use inno_taxi.Base.{ℕ, String, Option, none, some, Bool, true, false, List}
use inno_taxi.Base.Int.{ℤ, pos, ◌+ℤ◌, ◌-ℤ◌, ltb_ℤ, leb_ℤ, int64}
use inno_taxi.Base.Action.{
  Result, ok, err, Action, pure, raise, raise_if, attempt, best_effort, ◌>>=◌, ◌>>◌,
}
use inno_taxi.Base.Tests.{if◌then◌else◌}
use inno_taxi.Wallet.Entity.{
  WalletError, invalid_amount, insufficient_funds, Wallet, Transaction, TransactionType,
  transaction_type_debit, transaction_type_credit,
}
use inno_taxi.Wallet.Store.{
  Env, World, WalletAction, get_wallet_by_user_id, create_wallet_row, list_recent_rows, get_recent,
  set_recent, invalidate,
}
use inno_taxi.Wallet.Transact.{
  Tx, TxAction, get_wallet_for_update, set_wallet_balance, find_transaction_by_reference,
  create_transaction, transactional_operation,
}

abbrev pub recent_transactions_limit : ℕ
recent_transactions_limit = 20

module _ (e : Env) where
  unfoldable pub create_wallet : String → WalletAction Wallet
  create_wallet u = create_wallet_row e u

  unfoldable pub get_wallet : String → WalletAction Wallet
  get_wallet u = get_wallet_by_user_id e u

  -- The new balance is written, then the transaction.
  pub record_transaction : Wallet → TransactionType → ℤ → ℤ → String → TxAction (Transaction × Bool)
  record_transaction x ty amount balance reference = do
    set_wallet_balance e x.id balance
    create_transaction e x.id ty amount reference

  -- No debit has this reference yet.
  pub debit : Wallet → ℤ → String → Option Transaction → TxAction (Transaction × Bool)
  unfolding record_transaction
  debit x amount reference (some existing) = pure (existing, false)
  debit x amount reference none = do
    raise_if (ltb_ℤ x.balance_minor_units amount) insufficient_funds
    record_transaction x transaction_type_debit amount (int64 (x.balance_minor_units -ℤ amount))
        reference

  -- The function that `Charge` hands to `transactionalOperation`.
  pub charge_in_tx : String → ℤ → String → TxAction (Transaction × Bool)
  unfolding debit
  charge_in_tx u amount reference = do
    x ← get_wallet_for_update e u
    existing ← find_transaction_by_reference e x.id reference transaction_type_debit
    debit x amount reference existing

  pub credit : Wallet → ℤ → String → Option Transaction → TxAction (Transaction × Bool)
  unfolding record_transaction
  credit x amount reference (some existing) = pure (existing, false)
  credit x amount reference none =
      record_transaction x transaction_type_credit amount (int64 (x.balance_minor_units +ℤ amount))
        reference

  -- The function that `Refund` hands to `transactionalOperation`.
  pub refund_in_tx : String → ℤ → String → TxAction (Transaction × Bool)
  unfolding credit
  refund_in_tx u amount reference = do
    x ← get_wallet_for_update e u
    existing ← find_transaction_by_reference e x.id reference transaction_type_credit
    credit x amount reference existing

  -- After the transaction: a new one makes the cached list stale.
  pub settle : Transaction × Bool → WalletAction (Transaction × Bool)
  settle (result, true) = best_effort (invalidate e result.wallet_id) >> pure (result, true)
  settle (result, false) = pure (result, false)

  unfoldable pub charge : String → ℤ → String → WalletAction (Transaction × Bool)
  unfolding charge_in_tx settle
  charge u amount reference = do
    raise_if (leb_ℤ amount (pos 0)) invalid_amount
    done ← transactional_operation e (charge_in_tx u amount reference)
    settle done

  unfoldable pub refund : String → ℤ → String → WalletAction (Transaction × Bool)
  unfolding refund_in_tx settle
  refund u amount reference = do
    raise_if (leb_ℤ amount (pos 0)) invalid_amount
    done ← transactional_operation e (refund_in_tx u amount reference)
    settle done

  -- The cached list, or that of the database, which is then cached.
  unfoldable pub recent_or_cached :
      Wallet → Result WalletError (Option (List Transaction)) → WalletAction (List Transaction)
  recent_or_cached x (ok (some cached)) = pure cached
  recent_or_cached x missed = do
    txs ← list_recent_rows e x.id recent_transactions_limit
    best_effort (set_recent e x.id txs)
    pure txs

  unfoldable pub list_recent_transactions : String → WalletAction (List Transaction)
  unfolding recent_or_cached
  list_recent_transactions u = do
    x ← get_wallet_by_user_id e u
    r ← attempt (get_recent e x.id)
    recent_or_cached x r
