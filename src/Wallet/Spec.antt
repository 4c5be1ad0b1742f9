-- ===== src/Wallet/Spec.antt =====
-- What a charge or a refund does to the tables, stated apart from the code that does it.
use inno_taxi.Base.{ℕ, String, none, some, Bool, true, false, [], ◌∷◌, ◌++◌, ◌≡◌}
use inno_taxi.Base.Int.{ℤ}
use inno_taxi.Wallet.Entity.{Wallet, Transaction, TransactionType}
use inno_taxi.Wallet.Store.{Tables, find_wallet, set_balance, lookup_transaction}

-- A transaction of type `ty` under `reference` on the wallet of `u`: the one that was there, and
-- nothing changes; or a new one of `amount`, allowed at the balance, that sets the balance to
-- `next` of what it was.
pub data Posts (ty : TransactionType) (next : ℤ → ℤ) (Allows : ℤ → Type 0) (u : String) (amount : ℤ)
    (reference : String) (t t' : Tables) (r : Transaction) (created : Bool) : Type 0 where
  replayed :
      (x : Wallet)
      → find_wallet u t.wallets ≡ some x
      → lookup_transaction x.id reference ty t.transactions ≡ some r
      → created ≡ false
      → t' ≡ t
      → Posts ty next Allows u amount reference t t' r created
  posted :
      (x : Wallet) (now : ℕ)
      → find_wallet u t.wallets ≡ some x
      → lookup_transaction x.id reference ty t.transactions ≡ none
      → Allows x.balance_minor_units
      → created ≡ true
      → r.wallet_id ≡ x.id
      → r.type ≡ ty
      → r.amount_minor_units ≡ amount
      → r.reference_id ≡ reference
      → t' ≡ record {
        wallets = set_balance x.id (next x.balance_minor_units) now t.wallets;
        transactions = t.transactions ++ r ∷ [];
      }
      → Posts ty next Allows u amount reference t t' r created
