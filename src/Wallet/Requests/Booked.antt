-- ===== src/Wallet/Requests/Booked.antt =====
-- The books stay balanced whatever requests are served and whatever statements fail.
use inno_taxi.Base.{
  String, none, Bool, false, List, [], ◌∷◌, ◌++◌, ◌≡◌, refl, sym, ◌⊎◌, inl, inr, arith,
}
use mathlib.Core.Path.{subst}
use inno_taxi.Base.Int.{ℤ}
use inno_taxi.Base.Action.{Result, ok, err}
use inno_taxi.Wallet.Entity.{
  WalletError, Transaction, TransactionType, transaction_type_debit, transaction_type_credit,
}
use inno_taxi.Wallet.Store.{
  Tables, Env, World, create_wallet_row, get_wallet_by_user_id, get_recent, list_recent_rows,
  set_recent, new_wallet, has_wallet, find_wallet,
}
use inno_taxi.Wallet.Spec.{Posts, replayed, posted}
use inno_taxi.Wallet.Ledger.{Booked, Booked-posted, Booked-created, entered}
use inno_taxi.Wallet.Service.{create_wallet, get_wallet, list_recent_transactions, recent_or_cached}
use inno_taxi.Wallet.Service.InTransaction.{Charges, Refunds, after_debit, after_credit}
use inno_taxi.Wallet.Service.Posting.{Ends, charge-Charges, refund-Refunds}
use inno_taxi.Wallet.Requests.{
  Request, create_wallet_of, get_wallet_of, list_recent_of, charge_to, refund_to, handle, run,
}

Posts-Booked :
    (ty : TransactionType) (next : ℤ → ℤ) (Allows : ℤ → Type 0) (u : String) (amount : ℤ)
    (reference : String) (t t' : Tables) (r : Transaction) (b : Bool)
    → ((y : Transaction) (n : ℤ)
        → y.type ≡ ty
        → y.amount_minor_units ≡ amount
        → next n ≡ entered y n)
    → Posts ty next Allows u amount reference t t' r b
    → Booked t
    → Booked t'
Posts-Booked ty next Allows u amount reference t t' r b enters (replayed x found there old same) h =
    subst Booked (sym same) h
Posts-Booked ty next Allows u amount reference t t' r b enters
      (posted x now found free allowed is_new mine type_is amount_is ref_is same) h =
    subst Booked (sym same) (
      Booked-posted t u x r (next x.balance_minor_units) now found mine
        (enters r x.balance_minor_units type_is amount_is) h)

Charges-Booked :
    (u : String) (amount : ℤ) (reference : String) (t t' : Tables) (r : Transaction) (b : Bool)
    → Charges u amount reference t t' r b
    → Booked t
    → Booked t'
Charges-Booked u amount reference t t' r b p h =
    Posts-Booked transaction_type_debit (after_debit amount) _ u amount reference t t' r b
      (λ y n is_debit is_amount. rw is_debit rw is_amount refl) p h

Refunds-Booked :
    (u : String) (amount : ℤ) (reference : String) (t t' : Tables) (r : Transaction) (b : Bool)
    → Refunds u amount reference t t' r b
    → Booked t
    → Booked t'
Refunds-Booked u amount reference t t' r b p h =
    Posts-Booked transaction_type_credit (after_credit amount) _ u amount reference t t' r b
      (λ y n is_credit is_amount. rw is_credit rw is_amount refl) p h

module _ (e : Env) where
  Ends-Booked :
      (P : Tables → Tables → Transaction → Bool → Type 0) (w w' : World)
      (a : Result WalletError (Transaction × Bool))
      → ((t' : Tables) (r : Transaction) (b : Bool) → P w.tables t' r b → Booked t')
      → Ends e P w a w'
      → Booked w.tables
      → Booked w'.tables
  Ends-Booked P w w' (ok (r, b)) keeps p h = keeps w'.tables r b p
  Ends-Booked P w w' (err y) keeps (inl same) h = subst Booked (sym same) h
  Ends-Booked P w w' (err y) keeps (inr (r, b, p)) h = keeps w'.tables r b p

  create_wallet-tables :
      (u : String) (w : World)
      → ((create_wallet e u w).1.tables ≡ w.tables)
        ⊎ ((has_wallet (new_wallet e u w).id w.tables.wallets ≡ false)
            × (find_wallet u w.tables.wallets ≡ none)
            × ((create_wallet e u w).1.tables ≡ record {
              wallets = w.tables.wallets ++ new_wallet e u w ∷ [];
              transactions = w.tables.transactions;
            }))
  unfolding create_wallet create_wallet_row
  create_wallet-tables u w = ground arith

  get_wallet-tables : (u : String) (w : World) → (get_wallet_by_user_id e u w).1.tables ≡ w.tables
  unfolding get_wallet_by_user_id
  get_wallet-tables u w = ground arith

  list_recent-tables :
      (u : String) (w : World) → (list_recent_transactions e u w).1.tables ≡ w.tables
  unfolding list_recent_transactions recent_or_cached get_wallet_by_user_id get_recent
      list_recent_rows set_recent
  list_recent-tables u w = ground arith

  handle-Booked : (q : Request) (w : World) → Booked w.tables → Booked (handle e q w).tables
  unfolding handle get_wallet
  handle-Booked (create_wallet_of u) w h = elim (create_wallet-tables u w) [
    | inl same ↦ subst Booked (sym same) h
    | inr (fresh, free, same) ↦
        subst Booked (sym same) (Booked-created w.tables (new_wallet e u w) fresh refl h)
  ]
  handle-Booked (get_wallet_of u) w h = subst Booked (sym (get_wallet-tables u w)) h
  handle-Booked (list_recent_of u) w h = subst Booked (sym (list_recent-tables u w)) h
  handle-Booked (charge_to u amount reference) w h =
      Ends-Booked (Charges u amount reference) w _ _
        (λ t' r b p. Charges-Booked u amount reference w.tables t' r b p h)
        (charge-Charges e u amount reference w) h
  handle-Booked (refund_to u amount reference) w h =
      Ends-Booked (Refunds u amount reference) w _ _
        (λ t' r b p. Refunds-Booked u amount reference w.tables t' r b p h)
        (refund-Refunds e u amount reference w) h

  -- Whatever requests are served, and whichever statements fail, a wallet's balance stays the int64
  -- sum of its transactions, credits less debits, and each transaction keeps its wallet.
  pub run-Booked : (qs : List Request) (w : World) → Booked w.tables → Booked (run e qs w).tables
  unfolding run
  run-Booked [] w h = h
  run-Booked (q ∷ qs) w h = run-Booked qs (handle e q w) (handle-Booked q w h)
