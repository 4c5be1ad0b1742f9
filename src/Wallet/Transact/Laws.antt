-- ===== src/Wallet/Transact/Laws.antt =====
-- What a statement in a transaction has done when it succeeded.
use inno_taxi.Base.{
  String, Option, some, Bool, true, [], ◌∷◌, ◌++◌, ◌≡◌, refl, ◌⊎◌, inl, inr, arith,
}
use inno_taxi.Base.Int.{ℤ}
use inno_taxi.Base.Action.{Result, ok, err, continue}
use inno_taxi.Wallet.Entity.{WalletError, Wallet, Transaction, TransactionType}
use inno_taxi.Wallet.Store.{Env, World, find_wallet, set_balance, lookup_transaction}
use inno_taxi.Wallet.Transact.{
  Tx, TxAction, Inserted, inserted, violated, get_wallet_for_update, set_wallet_balance,
  find_transaction_by_reference, insert_row, after_insert, create_transaction, new_transaction,
  transactional_operation, opened,
}

module _ (e : Env) where
  pub get_wallet_for_update-ok :
      (u : String) (x : Tx) (a : Wallet)
      → (get_wallet_for_update e u x).0 ≡ ok a
      → (find_wallet u x.tables.wallets ≡ some a)
        × ((get_wallet_for_update e u x).1.tables ≡ x.tables)
  unfolding get_wallet_for_update
  get_wallet_for_update-ok u x a h = ground arith

  pub find_transaction-ok :
      (i reference : String) (ty : TransactionType) (x : Tx) (o : Option Transaction)
      → (find_transaction_by_reference e i reference ty x).0 ≡ ok o
      → (o ≡ lookup_transaction i reference ty x.tables.transactions)
        × ((find_transaction_by_reference e i reference ty x).1.tables ≡ x.tables)
  unfolding find_transaction_by_reference
  find_transaction-ok i reference ty x o h = ground arith

  pub set_wallet_balance-ok :
      (i : String) (b : ℤ) (x : Tx)
      → (set_wallet_balance e i b x).0 ≡ ok tt
      → (set_wallet_balance e i b x).1.tables ≡ record {
        wallets = set_balance i b (e.now x.statements) x.tables.wallets;
        transactions = x.tables.transactions;
      }
  unfolding set_wallet_balance
  set_wallet_balance-ok i b x h = ground arith

  insert_row-ok :
      (i : String) (ty : TransactionType) (amount : ℤ) (reference : String) (x : Tx) (n : Inserted)
      → (insert_row e i ty amount reference x).0 ≡ ok n
      → ((n ≡ inserted (new_transaction e i ty amount reference x))
          × ((insert_row e i ty amount reference x).1.tables ≡ record {
            wallets = x.tables.wallets;
            transactions = x.tables.transactions ++ new_transaction e i ty amount reference x ∷ [];
          }))
        ⊎ ((n ≡ violated) × ((insert_row e i ty amount reference x).1.aborted ≡ true))
  unfolding insert_row
  insert_row-ok i ty amount reference x n h = ground arith

  -- A transaction whose insert was refused returns no row.
  after_violation :
      (i reference : String) (ty : TransactionType) (x : Tx) {r : Transaction × Bool}
      → x.aborted ≡ true
      → (after_insert e i reference ty violated x).0 ≡ ok r
      → ⊥
  unfolding find_transaction_by_reference
  after_violation i reference ty x a h = ground arith

  pub create_transaction-ok :
      (i : String) (ty : TransactionType) (amount : ℤ) (reference : String) (x : Tx)
      (r : Transaction) (b : Bool)
      → (create_transaction e i ty amount reference x).0 ≡ ok (r, b)
      → (b ≡ true)
        × (r ≡ new_transaction e i ty amount reference x)
        × ((create_transaction e i ty amount reference x).1.tables
            ≡ record { wallets = x.tables.wallets; transactions = x.tables.transactions ++ r ∷ [] })
  unfolding create_transaction
  create_transaction-ok i ty amount reference x r b h =
      go (insert_row e i ty amount reference x).0 (insert_row e i ty amount reference x).1
        (insert_row-ok i ty amount reference x) h
    where
      row : Transaction
      row = new_transaction e i ty amount reference x

      go :
          (n : Result WalletError Inserted) (v : Tx)
          → ((m : Inserted)
              → n ≡ ok m
              → ((m ≡ inserted row)
                  × (v.tables ≡ record {
                    wallets = x.tables.wallets;
                    transactions = x.tables.transactions ++ row ∷ [];
                  }))
                ⊎ ((m ≡ violated) × (v.aborted ≡ true)))
          → (continue (after_insert e i reference ty) n v).0 ≡ ok (r, b)
          → (b ≡ true)
            × (r ≡ row)
            × ((continue (after_insert e i reference ty) n v).1.tables ≡ record {
              wallets = x.tables.wallets;
              transactions = x.tables.transactions ++ r ∷ [];
            })
      go (ok (inserted m)) v ins h = ground (arith, ins (inserted m) refl)
      go (ok violated) v ins h = elim (ins violated refl) [
        | inl (p, q) ↦ cc
        | inr (p, q) ↦ absurd (after_violation i reference ty v q h)
      ]
      go (err y) v ins h = cc

  -- What a transaction that returned did: its function succeeded, and what it did is in the tables.
  pub transactional_operation-ok :
      {A : Type 0} (fn : TxAction A) (w : World) (a : A)
      → (transactional_operation e fn w).0 ≡ ok a
      → let x = opened e w in
        ((fn x).0 ≡ ok a) × ((transactional_operation e fn w).1.tables ≡ (fn x).1.tables)
  unfolding transactional_operation
  transactional_operation-ok fn w a h = ground arith

  -- A transaction that failed left the tables as they were, or its commit went through and only the
  -- reply was lost.
  pub transactional_operation-err :
      {A : Type 0} (fn : TxAction A) (w : World) (y : WalletError)
      → (transactional_operation e fn w).0 ≡ err y
      → let x = opened e w in
        ((transactional_operation e fn w).1.tables ≡ w.tables)
        ⊎ ((a : A) × ((fn x).0 ≡ ok a)
            × ((transactional_operation e fn w).1.tables ≡ (fn x).1.tables))
  unfolding transactional_operation
  transactional_operation-err fn w y h = ground arith
