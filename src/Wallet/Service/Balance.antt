-- ===== src/Wallet/Service/Balance.antt =====
-- `Charge` and `Refund`: a second call under a reference, and the bounds of a balance.
use inno_taxi.Base.{
  ℕ, String, none, some, Bool, true, false, List, [], ◌∷◌, ◌++◌, ◌≡◌, refl, sym, ap, ◌∙◌, inl, inr,
  arith, eq_iff,
}
use mathlib.Core.Path.{subst}
use inno_taxi.Base.Int.{ℤ}
use inno_taxi.Base.Action.{Result, ok}
use inno_taxi.Base.Tests.{◌==◌, Bool-cases, ==_self, some_unique}
use inno_taxi.Wallet.Entity.{
  WalletError, Wallet, Transaction, TransactionType, transaction_type_debit,
  transaction_type_credit,
}
use inno_taxi.Wallet.Store.{
  Tables, Env, World, find_wallet, set_balance, lookup_transaction, has_key,
}
use inno_taxi.Wallet.Spec.{Posts, replayed, posted}
use inno_taxi.Wallet.Service.{charge, refund}
use inno_taxi.Wallet.Service.InTransaction.{Charges, Refunds}
use inno_taxi.Wallet.Service.Posting.{charge-Charges, refund-Refunds, Ends}

pub find_wallet-set_balance :
    (u : String) (a : Wallet) (b : ℤ) (now : ℕ) (ws : List Wallet)
    → find_wallet u ws ≡ some a
    → find_wallet u (set_balance a.id b now ws)
      ≡ some (record a { balance_minor_units = b; updated_at = now })
unfolding find_wallet set_balance
find_wallet-set_balance u a b now [] h = absurd (ground (arith, h))
find_wallet-set_balance u a b now (x ∷ ws) h = elim (Bool-cases (x.user_id == u)) [
  | inl same ↦
      (let here : x ≡ a = ground (arith, h, same) in ground (arith, here, same, ==_self a.id))
  | inr other ↦ ground (arith, other, find_wallet-set_balance u a b now ws (rw other at h))
]

lookup_transaction-append :
    (i reference : String) (ty : TransactionType) (rs : List Transaction) (r : Transaction)
    → lookup_transaction i reference ty rs ≡ none
    → has_key i reference ty r ≡ true
    → lookup_transaction i reference ty (rs ++ r ∷ []) ≡ some r
unfolding lookup_transaction
lookup_transaction-append i reference ty [] r h k = rw k refl
lookup_transaction-append i reference ty (x ∷ rs) r h k =
    elim (Bool-cases (has_key i reference ty x)) [
      | inl same ↦ absurd (ground (arith, rw same at h))
      | inr other ↦ rw other (lookup_transaction-append i reference ty rs r (rw other at h) k)
    ]

-- The wallet and the transaction that a post leaves behind.
abbrev Holds : TransactionType → String → String → Tables → Transaction → Type 0
Holds ty u reference t r =
    (x : Wallet) × (find_wallet u t.wallets ≡ some x)
    × (lookup_transaction x.id reference ty t.transactions ≡ some r)

module _ {ty : TransactionType} {next : ℤ → ℤ} {Allows : ℤ → Type 0} (u : String) {amount : ℤ}
    (reference : String) where
  pub Posts-Holds :
      {t t' : Tables} (r : Transaction) (b : Bool)
      → Posts ty next Allows u amount reference t t' r b
      → Holds ty u reference t' r
  Posts-Holds r b (replayed x found there old same) =
      subst (λ t. Holds ty u reference t r) (sym same) (x, found, there)
  Posts-Holds {t} r b (posted x now found free allowed is_new mine type_is amount_is ref_is same) =
      subst (λ t. Holds ty u reference t r) (sym same)
        (
          record x { balance_minor_units = next x.balance_minor_units; updated_at = now },
          find_wallet-set_balance u x (next x.balance_minor_units) now t.wallets found,
          lookup_transaction-append x.id reference ty t.transactions r free (
              ground (
                arith,
                mine,
                type_is,
                ref_is,
                eq_iff r.wallet_id x.id,
                eq_iff r.type ty,
                eq_iff r.reference_id reference,
              )),
        )

  pub Posts-again :
      (t : Tables) {t' : Tables} (r r' : Transaction) (b' : Bool)
      → Holds ty u reference t r
      → Posts ty next Allows u amount reference t t' r' b'
      → (r' ≡ r) × (b' ≡ false) × (t' ≡ t)
  Posts-again t r r' b' (x, found, there) (replayed y found' there' old same) =
      let are : x ≡ y = some_unique found found' in
      (
        sym (
            some_unique there (
              ap (λ (z : Wallet). lookup_transaction z.id reference ty t.transactions) are
              ∙ there')),
        old,
        same,
      )
  Posts-again t r r' b' (x, found, there)
        (posted y now found' free allowed is_new mine type_is amount_is ref_is same) =
      let are : x ≡ y = some_unique found found' in
      absurd (
        ground (
          arith,
          sym there
              ∙ ap (λ (z : Wallet). lookup_transaction z.id reference ty t.transactions) are
              ∙ free,
        ))

pub Ends-ok :
    (e : Env) (P : Tables → Tables → Transaction → Bool → Type 0) (w w' : World)
    (a : Result WalletError (Transaction × Bool)) (r : Transaction) (b : Bool)
    → Ends e P w a w'
    → a ≡ ok (r, b)
    → P w.tables w'.tables r b
Ends-ok e P w w' a r b p h = subst (λ x. Ends e P w x w') h p

module _ (e : Env) where
  -- When two calls of `Charge` with one user and one reference succeed, the second on the tables that
  -- the first left, the second returns the transaction of the first, says that it is not new, and
  -- changes no table, whatever amount it asks for.
  pub charge-once :
      (u : String) (amount amount' : ℤ) (reference : String) (w w' : World) (r r' : Transaction)
      (b b' : Bool)
      → (charge e u amount reference w).0 ≡ ok (r, b)
      → w'.tables ≡ (charge e u amount reference w).1.tables
      → (charge e u amount' reference w').0 ≡ ok (r', b')
      → (r' ≡ r) × (b' ≡ false) × ((charge e u amount' reference w').1.tables ≡ w'.tables)
  charge-once u amount amount' reference w w' r r' b b' first same second =
      let p =
        Ends-ok e (Charges u amount reference) w _ _ r b (charge-Charges e u amount reference w)
          first in
      let q =
        Ends-ok e (Charges u amount' reference) w' _ _ r' b'
          (charge-Charges e u amount' reference w') second in
      let held =
        subst (λ (t : Tables). Holds transaction_type_debit u reference t r) (sym same)
          (Posts-Holds u reference r b p) in
      Posts-again u reference w'.tables r r' b' held q

  -- When two calls of `Refund` with one user and one reference succeed, the second on the tables that
  -- the first left, the second returns the transaction of the first, says that it is not new, and
  -- changes no table, whatever amount it asks for.
  pub refund-once :
      (u : String) (amount amount' : ℤ) (reference : String) (w w' : World) (r r' : Transaction)
      (b b' : Bool)
      → (refund e u amount reference w).0 ≡ ok (r, b)
      → w'.tables ≡ (refund e u amount reference w).1.tables
      → (refund e u amount' reference w').0 ≡ ok (r', b')
      → (r' ≡ r) × (b' ≡ false) × ((refund e u amount' reference w').1.tables ≡ w'.tables)
  refund-once u amount amount' reference w w' r r' b b' first same second =
      let p =
        Ends-ok e (Refunds u amount reference) w _ _ r b (refund-Refunds e u amount reference w)
          first in
      let q =
        Ends-ok e (Refunds u amount' reference) w' _ _ r' b'
          (refund-Refunds e u amount' reference w') second in
      let held =
        subst (λ (t : Tables). Holds transaction_type_credit u reference t r) (sym same)
          (Posts-Holds u reference r b p) in
      Posts-again u reference w'.tables r r' b' held q
