-- ===== src/Wallet/Transact.antt =====
-- Postgres transactions: services/wallet_service/service/transactional_operation.go, pg_atomic.go,
-- and the statements of pg_repo that run in a transaction. The row lock of `SELECT ... FOR UPDATE`
-- keeps two transactions on one wallet apart, so a transaction runs here in one step.
pub mod Laws
pub mod Healthy
use inno_taxi.Base.{ℕ, String, Option, none, some, Bool, true, false, ◌||◌, List, [], ◌∷◌, ◌++◌}
use inno_taxi.Base.Int.{ℤ}
use inno_taxi.Base.Action.{Result, ok, err, Action, pure, raise, ◌>>=◌, attempt}
use inno_taxi.Base.Tests.{◌==◌, if◌then◌else◌}
use inno_taxi.Wallet.Entity.{
  WalletError, wallet_not_found, outside, wrap, Wallet, Transaction, TransactionType,
}
use inno_taxi.Wallet.Store.{
  Tables, Statement, begin, commit, rollback, select_wallet_for_update, update_balance,
  find_transaction, insert_transaction, Fault, no_fault, request_lost, reply_lost, Env, World,
  WalletAction, find_wallet, set_balance, lookup_transaction, send, found_or, is_some,
}

-- An open transaction: the tables as it sees them, the statements sent, and whether a statement
-- failed, after which Postgres refuses the others.
pub record Tx : Type 0 where
  pub tables : Tables
  pub statements : List Statement
  pub aborted : Bool

abbrev pub TxAction : Type 0 → Type 0
TxAction A = Action Tx WalletError A

abbrev pub tx_send : Statement → Tx → Tx
tx_send s x = record x { statements = s ∷ x.statements }

abbrev break_off : {A : Type 0} → String → String → TxAction A
break_off message m x = (err (wrap message (outside m)), record x { aborted = true })

-- A statement in a transaction.
abbrev tx_statement :
    {A : Type 0}
    → Env
    → Statement
    → String
    → (Tables → Tables)
    → (Tables → Result WalletError A)
    → TxAction A
tx_statement e s message effect answer x =
    let x' = tx_send s x in
    if x'.aborted
    then break_off message "current transaction is aborted" x'
    else elim (e.database x'.statements) [
      | no_fault ↦ (answer x'.tables, record x' { tables = effect x'.tables })
      | request_lost m ↦ break_off message m x'
      | reply_lost m ↦ break_off message m x'
    ]

-- The two ways an `INSERT` comes back: the row, or error 23505.
pub data Inserted : Type 0 where
  inserted : Transaction → Inserted
  violated : Inserted

unfoldable pub has_transaction : String → List Transaction → Bool
has_transaction i [] = false
has_transaction i (x ∷ xs) = x.id == i || has_transaction i xs

module _ (e : Env) where
  unfoldable pub get_wallet_for_update : String → TxAction Wallet
  get_wallet_for_update u =
      tx_statement e (select_wallet_for_update u) "get wallet for update" (λ t. t)
        (λ t. found_or wallet_not_found (find_wallet u t.wallets))

  unfoldable pub set_wallet_balance : String → ℤ → TxAction (Unit {0})
  set_wallet_balance i b x =
      tx_statement e (update_balance i b) "update balance"
        (λ t. record t { wallets = set_balance i b (e.now x.statements) t.wallets }) (λ t. ok tt) x

  unfoldable pub find_transaction_by_reference :
      String → String → TransactionType → TxAction (Option Transaction)
  find_transaction_by_reference i reference ty =
      tx_statement e (find_transaction i reference ty) "find transaction by reference" (λ t. t)
        (λ t. ok (lookup_transaction i reference ty t.transactions))

  abbrev pub new_transaction : String → TransactionType → ℤ → String → Tx → Transaction
  new_transaction i ty amount reference x = record {
    id = e.fresh_id x.statements;
    wallet_id = i;
    type = ty;
    amount_minor_units = amount;
    reference_id = reference;
    created_at = e.now x.statements;
  }

  -- The `INSERT` of `CreateTransaction`, with the primary key and
  -- `UNIQUE (wallet_id, reference_id, type)`.
  insert_row : String → TransactionType → ℤ → String → TxAction Inserted
  insert_row i ty amount reference x =
      let row = new_transaction i ty amount reference x in
      if is_some (lookup_transaction i reference ty x.tables.transactions)
        || has_transaction row.id x.tables.transactions
      then (let (r, x') =
            tx_statement e (insert_transaction i ty amount reference) "create transaction" (λ t. t)
              (λ t. ok violated) x in
          (r, record x' { aborted = true }))
      else tx_statement e (insert_transaction i ty amount reference) "create transaction"
          (λ t. record t { transactions = t.transactions ++ row ∷ [] }) (λ t. ok (inserted row)) x

  -- What `CreateTransaction` makes of the row of the winner, after error 23505.
  abbrev pub refetched : Result WalletError (Option Transaction) → TxAction (Transaction × Bool)
  refetched (err y) =
      raise (wrap "create transaction: lost the unique-constraint race and couldn't refetch it" y)
  refetched (ok none) =
      raise (outside "create transaction: unique constraint violated but no matching row found")
  refetched (ok (some existing)) = pure (existing, false)

  abbrev pub after_insert :
      String → String → TransactionType → Inserted → TxAction (Transaction × Bool)
  after_insert i reference ty (inserted row) = pure (row, true)
  after_insert i reference ty violated =
      attempt (find_transaction_by_reference i reference ty) >>= refetched

  unfoldable pub create_transaction :
      String → TransactionType → ℤ → String → TxAction (Transaction × Bool)
  unfolding insert_row find_transaction_by_reference
  create_transaction i ty amount reference =
      insert_row i ty amount reference >>= after_insert i reference ty

  -- `Finish`: what was done becomes visible if the commit arrives.
  unfoldable pub finish : {A : Type 0} → A → Tx → World → Result WalletError A × World
  finish a x w =
      let w' = send commit (record w { statements = x.statements }) in
      if x.aborted
      then (err (outside "commit of an aborted transaction"), w')
      else elim (e.database w'.statements) [
        | no_fault ↦ (ok a, record w' { tables = x.tables })
        | request_lost m ↦ (err (outside m), w')
        | reply_lost m ↦ (err (outside m), record w' { tables = x.tables })
      ]

  -- After `fn`: commit, or the deferred `Abort` alone.
  close : {A : Type 0} → Result WalletError A → Tx → World → Result WalletError A × World
  unfolding finish
  close (ok a) x w = finish a x w
  close (err y) x w = (err y, send rollback (record w { statements = x.statements }))

  -- A transaction just begun.
  abbrev pub opened : World → Tx
  opened w = record { tables = w.tables; statements = begin ∷ w.statements; aborted = false }

  -- `transactionalOperation`
  unfoldable pub transactional_operation : {A : Type 0} → TxAction A → WalletAction A
  unfolding close
  transactional_operation fn w =
      let w' = send begin w in
      elim (e.database w'.statements) [
        | no_fault ↦ close (fn (opened w)).0 (fn (opened w)).1 w'
        | request_lost m ↦ (err (outside m), w')
        | reply_lost m ↦ (err (outside m), w')
      ]
