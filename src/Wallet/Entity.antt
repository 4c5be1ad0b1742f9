-- ===== src/Wallet/Entity.antt =====
-- services/wallet_service/entity/service and errorsx: wallets, transactions and errors.
use inno_taxi.Base.{ℕ, String}
use inno_taxi.Base.Int.{ℤ}

-- `errors.New` values, `fmt.Errorf("...: %w", err)`, and an error that the code gets from outside.
pub data WalletError : Type 0 where
  wallet_already_exists wallet_not_found invalid_amount insufficient_funds : WalletError
  outside : String → WalletError
  wrap : String → WalletError → WalletError

pub record Wallet : Type 0 where
  pub id : String
  pub user_id : String
  pub balance_minor_units : ℤ  -- int64
  pub created_at : ℕ
  pub updated_at : ℕ

abbrev pub TransactionType : Type 0
TransactionType = String

abbrev pub transaction_type_debit : TransactionType
transaction_type_debit = "debit"

abbrev pub transaction_type_credit : TransactionType
transaction_type_credit = "credit"

pub record Transaction : Type 0 where
  pub id : String
  pub wallet_id : String
  pub type : TransactionType
  pub amount_minor_units : ℤ  -- int64
  pub reference_id : String
  pub created_at : ℕ
