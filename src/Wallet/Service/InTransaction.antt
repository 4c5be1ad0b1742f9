-- ===== src/Wallet/Service/InTransaction.antt =====
-- The functions that `Charge` and `Refund` hand to `transactionalOperation` do what Wallet.Spec says.
use inno_taxi.Base.{
  ℕ, String, Option, none, some, Bool, [], ◌∷◌, ◌++◌, ◌≡◌, sym, ap, ◌∙◌, inl, inr, arith,
}
use mathlib.Core.Path.{subst}
use inno_taxi.Base.Int.{ℤ, ◌+ℤ◌, ◌-ℤ◌, ◌≤ℤ◌, ltb_ℤ, int64}
use inno_taxi.Base.Action.{Result, ok, ◌>>=◌, >>=-eq-ok}
use inno_taxi.Base.Tests.{Bool-cases}
use inno_taxi.Wallet.Entity.{
  WalletError, Wallet, Transaction, TransactionType, transaction_type_debit,
  transaction_type_credit,
}
use inno_taxi.Wallet.Store.{Tables, Env, find_wallet, set_balance, lookup_transaction}
use inno_taxi.Wallet.Transact.{
  Tx, TxAction, get_wallet_for_update, set_wallet_balance, find_transaction_by_reference,
  create_transaction,
}
use inno_taxi.Wallet.Transact.Laws.{
  get_wallet_for_update-ok, find_transaction-ok, set_wallet_balance-ok, create_transaction-ok,
}
use inno_taxi.Wallet.Spec.{Posts, replayed, posted}
use inno_taxi.Wallet.Service.{record_transaction, debit, charge_in_tx, credit, refund_in_tx}

abbrev pub after_debit : ℤ → ℤ → ℤ
after_debit amount balance = int64 (balance -ℤ amount)

abbrev pub after_credit : ℤ → ℤ → ℤ
after_credit amount balance = int64 (balance +ℤ amount)

abbrev pub Covers : ℤ → ℤ → Type 0
Covers amount balance = amount ≤ℤ balance

abbrev pub Anything : ℤ → Type 0
Anything balance = Unit

-- A charge or a refund on the tables.
abbrev pub Charges : String → ℤ → String → Tables → Tables → Transaction → Bool → Type 0
Charges u amount = Posts transaction_type_debit (after_debit amount) (Covers amount) u amount

abbrev pub Refunds : String → ℤ → String → Tables → Tables → Transaction → Bool → Type 0
Refunds u amount = Posts transaction_type_credit (after_credit amount) Anything u amount

abbrev add_row : Transaction → Tables → Tables
add_row r y = record { wallets = y.wallets; transactions = y.transactions ++ r ∷ [] }

abbrev balanced : String → ℤ → ℕ → Tables → Tables
balanced i b now y = record {
  wallets = set_balance i b now y.wallets;
  transactions = y.transactions;
}

-- How a chain in a transaction ended.
abbrev Ended : Type 0
Ended = Result WalletError (Transaction × Bool) × Tx

abbrev result : Ended → Result WalletError (Transaction × Bool)
result p = p.0

module _ (e : Env) where
  record_transaction-posted :
      (a : Wallet) (ty : TransactionType) (next : ℤ → ℤ) (Allows : ℤ → Type 0) (u : String)
      (amount : ℤ) (reference : String) (t : Tables) (x : Tx) (r : Transaction) (b : Bool)
      → find_wallet u t.wallets ≡ some a
      → lookup_transaction a.id reference ty t.transactions ≡ none
      → Allows a.balance_minor_units
      → x.tables ≡ t
      → (record_transaction e a ty amount (next a.balance_minor_units) reference x).0 ≡ ok (r, b)
      → Posts ty next Allows u amount reference t
          (record_transaction e a ty amount (next a.balance_minor_units) reference x).1.tables
          r
          b
  unfolding record_transaction
  record_transaction-posted a ty next Allows u amount reference t x r b found free allowed same h =
      let balance : ℤ = next a.balance_minor_units in
      let (done, set, rest) =
        >>=-eq-ok (set_wallet_balance e a.id balance)
          (λ _. create_transaction e a.id ty amount reference) x h in
      let v : Tx = (set_wallet_balance e a.id balance x).1 in
      let tables = set_wallet_balance-ok e a.id balance x set in
      let (is_new, is_row, stored) =
        create_transaction-ok e a.id ty amount reference v r b
          (ap (λ (p : Result WalletError (Transaction × Bool) × Tx). p.0) rest ∙ h) in
      posted a (e.now x.statements) found free allowed is_new
        (ap (λ (y : Transaction). y.wallet_id) is_row) (ap (λ (y : Transaction). y.type) is_row)
        (ap (λ (y : Transaction). y.amount_minor_units) is_row)
        (ap (λ (y : Transaction). y.reference_id) is_row)
        (sym (ap (λ (p : Result WalletError (Transaction × Bool) × Tx). p.1.tables) rest)
          ∙ stored
          ∙ ap (λ (y : Tables). add_row r y) tables
          ∙ ap (λ (y : Tables). add_row r (balanced a.id balance (e.now x.statements) y)) same)

  debit-posts :
      (a : Wallet) (u : String) (amount : ℤ) (reference : String) (t : Tables) (x : Tx)
      (o : Option Transaction) (r : Transaction) (b : Bool)
      → find_wallet u t.wallets ≡ some a
      → o ≡ lookup_transaction a.id reference transaction_type_debit t.transactions
      → x.tables ≡ t
      → (debit e a amount reference o x).0 ≡ ok (r, b)
      → Charges u amount reference t (debit e a amount reference o x).1.tables r b
  unfolding debit
  debit-posts a u amount reference t x (some old) r b found was same h =
      replayed a found (sym was ∙ ap some (ground arith)) (ground arith) same
  debit-posts a u amount reference t x none r b found was same h =
      elim (Bool-cases (ltb_ℤ a.balance_minor_units amount)) [
        | inl short ↦ absurd (ground (arith, short))
        | inr covered ↦ rw covered (
            record_transaction-posted a transaction_type_debit (after_debit amount) (Covers amount)
              u amount reference t x r b found (sym was) (ground (arith, covered)) same
              (rw covered at h))
      ]

  credit-posts :
      (a : Wallet) (u : String) (amount : ℤ) (reference : String) (t : Tables) (x : Tx)
      (o : Option Transaction) (r : Transaction) (b : Bool)
      → find_wallet u t.wallets ≡ some a
      → o ≡ lookup_transaction a.id reference transaction_type_credit t.transactions
      → x.tables ≡ t
      → (credit e a amount reference o x).0 ≡ ok (r, b)
      → Refunds u amount reference t (credit e a amount reference o x).1.tables r b
  unfolding credit
  credit-posts a u amount reference t x (some old) r b found was same h =
      replayed a found (sym was ∙ ap some (ground arith)) (ground arith) same
  credit-posts a u amount reference t x none r b found was same h =
      record_transaction-posted a transaction_type_credit (after_credit amount) Anything u amount
        reference t x r b found (sym was) tt same h

  -- Both functions read the wallet and then the transaction under the reference.
  after_reads :
      (ty : TransactionType) (f : Wallet → Option Transaction → TxAction (Transaction × Bool))
      (G : Tables → Type 0) (u reference : String) (x : Tx) (r : Transaction × Bool)
      → ((a : Wallet) (o : Option Transaction) (v : Tx)
          → find_wallet u x.tables.wallets ≡ some a
          → o ≡ lookup_transaction a.id reference ty x.tables.transactions
          → v.tables ≡ x.tables
          → (f a o v).0 ≡ ok r
          → G (f a o v).1.tables)
      → let m = get_wallet_for_update e u >>= λ a.
          find_transaction_by_reference e a.id reference ty >>= f a in
        (m x).0 ≡ ok r → G (m x).1.tables
  after_reads ty f G u reference x r step h =
      let (a, got, rest) =
        >>=-eq-ok (get_wallet_for_update e u)
          (λ a. find_transaction_by_reference e a.id reference ty >>= f a) x h in
      let v : Tx = (get_wallet_for_update e u x).1 in
      let (found, same) = get_wallet_for_update-ok e u x a got in
      let (o, looked, rest') =
        >>=-eq-ok (find_transaction_by_reference e a.id reference ty) (f a) v
          (ap result rest ∙ h) in
      let (is_o, same') = find_transaction-ok e a.id reference ty v o looked in
      let whole = rest' ∙ rest in
      subst (λ (p : Ended). G p.1.tables) whole
        (step a o _ found
          (is_o ∙ ap (λ (y : Tables). lookup_transaction a.id reference ty y.transactions) same)
          (same' ∙ same) (ap result whole ∙ h))

  pub charge_in_tx-posts :
      (u : String) (amount : ℤ) (reference : String) (x : Tx) (r : Transaction) (b : Bool)
      → (charge_in_tx e u amount reference x).0 ≡ ok (r, b)
      → Charges u amount reference x.tables (charge_in_tx e u amount reference x).1.tables r b
  unfolding charge_in_tx
  charge_in_tx-posts u amount reference x r b h =
      after_reads transaction_type_debit (λ a. debit e a amount reference)
        (λ t'. Charges u amount reference x.tables t' r b) u reference x (r, b)
        (λ a o v found is_o same. debit-posts a u amount reference x.tables v o r b found is_o same)
        h

  pub refund_in_tx-posts :
      (u : String) (amount : ℤ) (reference : String) (x : Tx) (r : Transaction) (b : Bool)
      → (refund_in_tx e u amount reference x).0 ≡ ok (r, b)
      → Refunds u amount reference x.tables (refund_in_tx e u amount reference x).1.tables r b
  unfolding refund_in_tx
  refund_in_tx-posts u amount reference x r b h =
      after_reads transaction_type_credit (λ a. credit e a amount reference)
        (λ t'. Refunds u amount reference x.tables t' r b) u reference x (r, b)
        (λ a o v found is_o same.
          credit-posts a u amount reference x.tables v o r b found is_o same)
        h
