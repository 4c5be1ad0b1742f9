-- ===== src/Wallet/Service/Answers.antt =====
-- What `Charge` and `Refund` answer when every statement gets through.
use inno_taxi.Base.{
  String, Option, none, some, Bool, true, false, List, ◌∷◌, ◌≡◌, refl, sym, inl, inr, arith,
}
use mathlib.Core.Path.{subst}
use inno_taxi.Base.Int.{ℤ, pos, ◌<ℤ◌, ltb_ℤ, leb_ℤ}
use inno_taxi.Base.Action.{Result, ok, err, continue, ◌>>=◌}
use inno_taxi.Base.Tests.{Bool-cases}
use inno_taxi.Wallet.Entity.{
  WalletError, wallet_not_found, insufficient_funds, Wallet, Transaction, TransactionType,
  transaction_type_debit, transaction_type_credit,
}
use inno_taxi.Wallet.Store.{
  Tables, select_wallet_for_update, find_transaction, update_balance, begin, Statement, Env, World,
  find_wallet, lookup_transaction, found_or, set_balance,
}
use inno_taxi.Wallet.Transact.{
  Tx, TxAction, opened, find_transaction_by_reference, transactional_operation,
}
use inno_taxi.Wallet.Transact.Healthy.{
  Healthy, FreshIds, unbroken, get_wallet_for_update-healthy, find_transaction-healthy,
  set_wallet_balance-healthy, create_transaction-healthy, transactional_operation-healthy,
}
use inno_taxi.Wallet.Service.Posting.{settle-result}
use inno_taxi.Wallet.Service.{
  charge, refund, charge_in_tx, refund_in_tx, settle, debit, credit, record_transaction,
}

-- What a caller is to be told.
pub data Verdict : Type 0 where
  refuse : WalletError → Verdict
  already : Transaction → Verdict
  accept : Verdict

abbrev pub judged : Bool → Option Transaction → Verdict
judged short (some r) = already r
judged true none = refuse insufficient_funds
judged false none = accept

abbrev on_wallet : TransactionType → (Wallet → Bool) → String → Tables → Option Wallet → Verdict
on_wallet ty short reference t none = refuse wallet_not_found
on_wallet ty short reference t (some x) =
    judged (short x) (lookup_transaction x.id reference ty t.transactions)

abbrev pub charge_verdict : String → ℤ → String → Tables → Verdict
charge_verdict u amount reference t =
    on_wallet transaction_type_debit (λ x. ltb_ℤ x.balance_minor_units amount) reference t
      (find_wallet u t.wallets)

-- A credit has no balance to cover it.
abbrev never_short : Wallet → Bool
never_short x = false

abbrev pub refund_verdict : String → ℤ → String → Tables → Verdict
refund_verdict u amount reference t =
    on_wallet transaction_type_credit never_short reference t (find_wallet u t.wallets)

abbrev pub Answers : Verdict → Result WalletError (Transaction × Bool) → Type 0
Answers (refuse y) a = a ≡ err y
Answers (already r) a = a ≡ ok (r, false)
Answers accept a = (r : Transaction) × (a ≡ ok (r, true))

module _ (e : Env) (healthy : Healthy e) where
  -- How a chain in a transaction answers, which has failed no statement if it succeeds.
  abbrev Replies : Verdict → Result WalletError (Transaction × Bool) × Tx → Type 0
  Replies v p = Answers v p.0 × (((r : Transaction × Bool) → p.0 ≡ ok r → p.1.aborted ≡ false))

  record_transaction-Replies :
      (a : Wallet) (ty : TransactionType) (amount balance : ℤ) (reference : String) (t : Tables)
      (l : List Statement)
      → FreshIds e t
      → lookup_transaction a.id reference ty t.transactions ≡ none
      → Replies accept (record_transaction e a ty amount balance reference (unbroken t l))
  unfolding record_transaction
  record_transaction-Replies a ty amount balance reference t l fresh free =
      rw (set_wallet_balance-healthy e healthy a.id balance t l) (
        rw
          (create_transaction-healthy e healthy a.id ty amount reference
            (record {
              wallets = set_balance a.id balance (e.now l) t.wallets;
              transactions = t.transactions;
            })
            (update_balance a.id balance ∷ l) fresh free)
          ((_, refl), λ r h. refl))

  debit-Replies :
      (a : Wallet) (amount : ℤ) (reference : String) (t : Tables) (l : List Statement)
      (o : Option Transaction)
      → FreshIds e t
      → o ≡ lookup_transaction a.id reference transaction_type_debit t.transactions
      → Replies
          (judged (ltb_ℤ a.balance_minor_units amount) o)
          (debit e a amount reference o (unbroken t l))
  unfolding debit
  debit-Replies a amount reference t l (some old) fresh was = (refl, λ r h. refl)
  debit-Replies a amount reference t l none fresh was =
      elim (Bool-cases (ltb_ℤ a.balance_minor_units amount)) [
        | inl short ↦ rw short (refl, λ r h. refl)
        | inr covered ↦ rw covered (
            record_transaction-Replies a transaction_type_debit amount _ reference t l fresh
              (sym was))
      ]

  charge_in_tx-Replies :
      (u : String) (amount : ℤ) (reference : String) (t : Tables) (l : List Statement)
      → FreshIds e t
      → Replies
          (charge_verdict u amount reference t)
          (charge_in_tx e u amount reference (unbroken t l))
  unfolding charge_in_tx
  charge_in_tx-Replies u amount reference t l fresh =
      rw (get_wallet_for_update-healthy e healthy u t l) (go (find_wallet u t.wallets))
    where
      l' : List Statement
      l' = select_wallet_for_update u ∷ l

      go :
          (o : Option Wallet)
          → Replies
              (on_wallet transaction_type_debit
                (λ a. ltb_ℤ a.balance_minor_units amount)
                reference
                t
                o)
              (continue
                (λ (a : Wallet).
                  find_transaction_by_reference e a.id reference transaction_type_debit
                  >>= debit e a amount reference)
                (found_or wallet_not_found o)
                (unbroken t l'))
      go none = (refl, λ r h. refl)
      go (some a) =
          rw (find_transaction-healthy e healthy a.id reference transaction_type_debit t l') (
            debit-Replies a amount reference t
              (find_transaction a.id reference transaction_type_debit ∷ l') _ fresh refl)

  transaction-Answers :
      (v : Verdict) (fn : TxAction (Transaction × Bool)) (w : World)
      → Replies v (fn (opened e w))
      → Answers v ((transactional_operation e fn >>= settle e) w).0
  transaction-Answers v fn w (answers, clean) =
      go (transactional_operation e fn w).0 (transactional_operation e fn w).1
        (subst (Answers v) (sym (transactional_operation-healthy e healthy fn w clean)) answers)
    where
      go :
          (a : Result WalletError (Transaction × Bool)) (w' : World)
          → Answers v a
          → Answers v (continue (settle e) a w').0
      go (ok p) w' h = subst (Answers v) (sym (settle-result e p w')) h
      go (err y) w' h = h

  credit-Replies :
      (a : Wallet) (amount : ℤ) (reference : String) (t : Tables) (l : List Statement)
      (o : Option Transaction)
      → FreshIds e t
      → o ≡ lookup_transaction a.id reference transaction_type_credit t.transactions
      → Replies (judged false o) (credit e a amount reference o (unbroken t l))
  unfolding credit
  credit-Replies a amount reference t l (some old) fresh was = (refl, λ r h. refl)
  credit-Replies a amount reference t l none fresh was =
      record_transaction-Replies a transaction_type_credit amount _ reference t l fresh (sym was)

  refund_in_tx-Replies :
      (u : String) (amount : ℤ) (reference : String) (t : Tables) (l : List Statement)
      → FreshIds e t
      → Replies
          (refund_verdict u amount reference t)
          (refund_in_tx e u amount reference (unbroken t l))
  unfolding refund_in_tx
  refund_in_tx-Replies u amount reference t l fresh =
      rw (get_wallet_for_update-healthy e healthy u t l) (go (find_wallet u t.wallets))
    where
      l' : List Statement
      l' = select_wallet_for_update u ∷ l

      go :
          (o : Option Wallet)
          → Replies (on_wallet transaction_type_credit never_short reference t o) (
              continue
                (λ (a : Wallet).
                  find_transaction_by_reference e a.id reference transaction_type_credit
                  >>= credit e a amount reference)
                (found_or wallet_not_found o)
                (unbroken t l'))
      go none = (refl, λ r h. refl)
      go (some a) =
          rw (find_transaction-healthy e healthy a.id reference transaction_type_credit t l') (
            credit-Replies a amount reference t
              (find_transaction a.id reference transaction_type_credit ∷ l') _ fresh refl)

  -- Where every statement gets through and new ids are fresh, `Charge` of a positive amount answers
  -- as the tables say: an unknown user is refused, a reference that was used gets its transaction
  -- again, a balance that is too small is refused, and otherwise there is a new transaction.
  pub charge-Answers :
      (u : String) (amount : ℤ) (reference : String) (w : World)
      → FreshIds e w.tables
      → pos 0 <ℤ amount
      → Answers (charge_verdict u amount reference w.tables) (charge e u amount reference w).0
  unfolding charge
  charge-Answers u amount reference w fresh positive =
      let good : leb_ℤ amount (pos 0) ≡ false = ground arith in
      rw good (
        transaction-Answers (charge_verdict u amount reference w.tables)
          (charge_in_tx e u amount reference) w
          (charge_in_tx-Replies u amount reference w.tables (begin ∷ w.statements) fresh))

  -- Where every statement gets through and new ids are fresh, `Refund` of a positive amount answers
  -- as the tables say: an unknown user is refused, a reference that was used gets its transaction
  -- again, and otherwise there is a new transaction.
  pub refund-Answers :
      (u : String) (amount : ℤ) (reference : String) (w : World)
      → FreshIds e w.tables
      → pos 0 <ℤ amount
      → Answers (refund_verdict u amount reference w.tables) (refund e u amount reference w).0
  unfolding refund
  refund-Answers u amount reference w fresh positive =
      let good : leb_ℤ amount (pos 0) ≡ false = ground arith in
      rw good (
        transaction-Answers (refund_verdict u amount reference w.tables)
          (refund_in_tx e u amount reference) w
          (refund_in_tx-Replies u amount reference w.tables (begin ∷ w.statements) fresh))
