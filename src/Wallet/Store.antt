-- ===== src/Wallet/Store.antt =====
-- services/wallet_service/repository/pg_repo: the SQL statements on the tables `wallets` and
-- `transactions` (services/wallet_service/migrations/postgres), and the cache of redis_repo.
use inno_taxi.Base.{
  ℕ, String, Option, none, some, Bool, true, false, ◌&&◌, ◌||◌, List, [], ◌∷◌, ◌++◌,
}
use inno_taxi.Base.Int.{ℤ, pos}
use inno_taxi.Base.Lists.{take}
use inno_taxi.Base.Action.{Result, ok, err, Action}
use inno_taxi.Base.Tests.{◌==◌, if◌then◌else◌}
use inno_taxi.Wallet.Entity.{
  WalletError, wallet_already_exists, wallet_not_found, outside, wrap, Wallet, Transaction,
  TransactionType,
}

-- The tables, which a Postgres transaction sees whole.
pub record Tables : Type 0 where
  pub wallets : List Wallet
  pub transactions : List Transaction

-- A statement or a command that is sent to Postgres or Redis, in order.
pub data Statement : Type 0 where
  insert_wallet : String → Statement
  select_wallet : String → Statement
  begin : Statement
  commit : Statement
  rollback : Statement
  select_wallet_for_update : String → Statement
  update_balance : String → ℤ → Statement
  find_transaction : String → String → TransactionType → Statement
  insert_transaction : String → TransactionType → ℤ → String → Statement
  list_recent : String → ℕ → Statement
  cache_get : String → Statement
  cache_set : String → List Transaction → Statement
  cache_delete : String → Statement

pub data Fault : Type 0 where
  no_fault : Fault
  request_lost : String → Fault
  reply_lost : String → Fault

-- The answers of the database and the cache, by the statements sent so far, the latest first.
-- `fresh_id` is `uuidv7()`, `recent_first` is `ORDER BY created_at DESC`, and `cached` is what the
-- cache holds for a wallet (entries leave it when their time is up, as `cached` decides).
pub record Env : Type 0 where
  pub database : List Statement → Fault
  pub now : List Statement → ℕ
  pub fresh_id : List Statement → String
  pub recent_first : List Transaction → List Transaction
  pub cached : List Statement → Result WalletError (Option (List Transaction))
  pub cache_write : List Statement → Option WalletError

pub record World : Type 0 where
  pub tables : Tables
  pub statements : List Statement

abbrev pub WalletAction : Type 0 → Type 0
WalletAction A = Action World WalletError A

-- `WHERE user_id = $1`; `user_id` is unique.
unfoldable pub find_wallet : String → List Wallet → Option Wallet
find_wallet u [] = none
find_wallet u (x ∷ ws) = if x.user_id == u then some x else find_wallet u ws

-- A wallet with that primary key.
unfoldable pub has_wallet : String → List Wallet → Bool
has_wallet i [] = false
has_wallet i (x ∷ ws) = x.id == i || has_wallet i ws

-- `UPDATE wallets SET balance_minor_units = $1, updated_at = now() WHERE id = $2`
unfoldable pub set_balance : String → ℤ → ℕ → List Wallet → List Wallet
set_balance i b t [] = []
set_balance i b t (x ∷ ws) =
    (if x.id == i then record x { balance_minor_units = b; updated_at = t } else x)
    ∷ set_balance i b t ws

-- `WHERE wallet_id = $1 AND reference_id = $2 AND type = $3`; the three are unique together.
abbrev pub has_key : String → String → TransactionType → Transaction → Bool
has_key i reference ty x = x.wallet_id == i && (x.reference_id == reference && x.type == ty)

unfoldable pub lookup_transaction :
    String → String → TransactionType → List Transaction → Option Transaction
lookup_transaction i reference ty [] = none
lookup_transaction i reference ty (x ∷ xs) =
    if has_key i reference ty x then some x else lookup_transaction i reference ty xs

unfoldable pub transactions_of : String → List Transaction → List Transaction
transactions_of i [] = []
transactions_of i (x ∷ xs) =
    if x.wallet_id == i then x ∷ transactions_of i xs else transactions_of i xs

abbrev pub send : Statement → World → World
send s w = record w { statements = s ∷ w.statements }

abbrev pub is_some : {A : Type 0} → Option A → Bool
is_some none = false
is_some (some a) = true

abbrev pub found_or : WalletError → Option Wallet → Result WalletError Wallet
found_or e none = err e
found_or e (some x) = ok x

-- A statement outside a transaction.
abbrev pub run_statement :
    {A : Type 0}
    → Env
    → Statement
    → (Tables → Tables)
    → (Tables → Result WalletError A)
    → String
    → WalletAction A
run_statement e s effect answer message w =
    let w' = send s w in
    elim (e.database w'.statements) [
      | no_fault ↦ (answer w'.tables, record w' { tables = effect w'.tables })
      | request_lost m ↦ (err (wrap message (outside m)), w')
      | reply_lost m ↦ (err (wrap message (outside m)), record w' { tables = effect w'.tables })
    ]

module _ (e : Env) where
  -- `GetWalletByUserID`
  unfoldable pub get_wallet_by_user_id : String → WalletAction Wallet
  get_wallet_by_user_id u =
      run_statement e (select_wallet u) (λ t. t)
        (λ t. found_or wallet_not_found (find_wallet u t.wallets)) "get wallet by user id"

  abbrev pub new_wallet : String → World → Wallet
  new_wallet u w = record {
    id = e.fresh_id w.statements;
    user_id = u;
    balance_minor_units = pos 0;
    created_at = e.now w.statements;
    updated_at = e.now w.statements;
  }

  -- `CreateWallet`: error 23505 is that of the `UNIQUE` on `user_id` and of the primary key.
  unfoldable pub create_wallet_row : String → WalletAction Wallet
  create_wallet_row u w =
      let x = new_wallet u w in
      if is_some (find_wallet u w.tables.wallets) || has_wallet x.id w.tables.wallets
      then run_statement e (insert_wallet u) (λ t. t) (λ t. err wallet_already_exists)
          "create wallet" w
      else run_statement e (insert_wallet u) (λ t. record t { wallets = t.wallets ++ x ∷ [] })
          (λ t. ok x) "create wallet" w

  -- `ListRecentTransactions`
  unfoldable pub list_recent_rows : String → ℕ → WalletAction (List Transaction)
  list_recent_rows i limit =
      run_statement e (list_recent i limit) (λ t. t)
        (λ t. ok (take limit (e.recent_first (transactions_of i t.transactions))))
        "list recent transactions"

  -- `GetRecent`, `SetRecent` and `Invalidate` of `TransactionCache`
  unfoldable pub get_recent : String → WalletAction (Option (List Transaction))
  get_recent i w = let w' = send (cache_get i) w in (e.cached w'.statements, w')

  abbrev cache_command : Statement → WalletAction (Unit {0})
  cache_command s w =
      let w' = send s w in
      (elim (e.cache_write w'.statements) [ none ↦ ok tt | some x ↦ err x ], w')

  unfoldable pub set_recent : String → List Transaction → WalletAction (Unit {0})
  set_recent i xs = cache_command (cache_set i xs)

  unfoldable pub invalidate : String → WalletAction (Unit {0})
  invalidate i = cache_command (cache_delete i)
