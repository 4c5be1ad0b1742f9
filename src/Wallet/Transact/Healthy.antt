-- ===== src/Wallet/Transact/Healthy.antt =====
-- The statements of a transaction when every one gets through.
use inno_taxi.Base.{String, none, true, false, List, [], ◌∷◌, ◌++◌, ◌≡◌, refl}
use inno_taxi.Base.Int.{ℤ}
use inno_taxi.Base.Action.{Result, ok, err}
use inno_taxi.Wallet.Entity.{WalletError, wallet_not_found, TransactionType}
use inno_taxi.Wallet.Store.{
  Tables, Statement, no_fault, Env, World, find_wallet, lookup_transaction, found_or, set_balance,
  begin, commit, select_wallet_for_update, update_balance, find_transaction, insert_transaction,
}
use inno_taxi.Wallet.Transact.{
  Tx, TxAction, opened, get_wallet_for_update, set_wallet_balance, find_transaction_by_reference,
  create_transaction, insert_row, new_transaction, transactional_operation, has_transaction, close,
  finish,
}

-- Every statement gets through.
abbrev pub Healthy : Env → Type 0
Healthy e = (l : List Statement) → e.database l ≡ no_fault

-- No transaction has an id yet to be given.
abbrev pub FreshIds : Env → Tables → Type 0
FreshIds e t = (l : List Statement) → has_transaction (e.fresh_id l) t.transactions ≡ false

-- An open transaction no statement of which failed.
abbrev pub unbroken : Tables → List Statement → Tx
unbroken t l = record { tables = t; statements = l; aborted = false }

module _ (e : Env) (healthy : Healthy e) where
  pub get_wallet_for_update-healthy :
      (u : String) (t : Tables) (l : List Statement)
      → get_wallet_for_update e u (unbroken t l) ≡ (
        found_or wallet_not_found (find_wallet u t.wallets),
        unbroken t (select_wallet_for_update u ∷ l),
      )
  unfolding get_wallet_for_update
  get_wallet_for_update-healthy u t l = rw (healthy (select_wallet_for_update u ∷ l)) refl

  pub find_transaction-healthy :
      (i reference : String) (ty : TransactionType) (t : Tables) (l : List Statement)
      → find_transaction_by_reference e i reference ty (unbroken t l) ≡ (
        ok (lookup_transaction i reference ty t.transactions),
        unbroken t (find_transaction i reference ty ∷ l),
      )
  unfolding find_transaction_by_reference
  find_transaction-healthy i reference ty t l =
      rw (healthy (find_transaction i reference ty ∷ l)) refl

  pub set_wallet_balance-healthy :
      (i : String) (b : ℤ) (t : Tables) (l : List Statement)
      → set_wallet_balance e i b (unbroken t l) ≡ (
        ok tt,
        unbroken
            (record {
              wallets = set_balance i b (e.now l) t.wallets;
              transactions = t.transactions;
            })
            (update_balance i b ∷ l),
      )
  unfolding set_wallet_balance
  set_wallet_balance-healthy i b t l = rw (healthy (update_balance i b ∷ l)) refl

  pub create_transaction-healthy :
      (i : String) (ty : TransactionType) (amount : ℤ) (reference : String) (t : Tables)
      (l : List Statement)
      → FreshIds e t
      → lookup_transaction i reference ty t.transactions ≡ none
      → let row = new_transaction e i ty amount reference (unbroken t l) in
        create_transaction e i ty amount reference (unbroken t l) ≡ (
          ok (row, true),
          unbroken
              (record { wallets = t.wallets; transactions = t.transactions ++ row ∷ [] })
              (insert_transaction i ty amount reference ∷ l),
        )
  unfolding create_transaction insert_row
  create_transaction-healthy i ty amount reference t l fresh free =
      rw free rw (fresh l) rw (healthy (insert_transaction i ty amount reference ∷ l)) refl

  -- The transaction answers as its function does, if no statement of it failed.
  pub transactional_operation-healthy :
      {A : Type 0} (fn : TxAction A) (w : World)
      → ((a : A) → (fn (opened e w)).0 ≡ ok a → (fn (opened e w)).1.aborted ≡ false)
      → (transactional_operation e fn w).0 ≡ (fn (opened e w)).0
  unfolding transactional_operation finish close
  transactional_operation-healthy {A = A} fn w clean =
      rw (transactional_operation, healthy (begin ∷ w.statements))
        (go (fn (opened e w)).0 (fn (opened e w)).1 clean)
    where
      go :
          (a : Result WalletError A) (x : Tx)
          → ((b : A) → a ≡ ok b → x.aborted ≡ false)
          → (close e a x (record w { statements = begin ∷ w.statements })).0 ≡ a
      go (ok b) x clean = rw (clean b refl) rw (healthy (commit ∷ x.statements)) refl
      go (err y) x clean = refl
