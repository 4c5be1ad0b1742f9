-- ===== src/Wallet/Service/Solvent.antt =====
-- The bounds of a balance, which is an int64, under `Charge` and `Refund`.
use inno_taxi.Base.{ℕ, String, some, Bool, true, List, [], ◌∷◌, ◌≡◌, sym, ap, ◌∙◌, inl, inr, arith}
use mathlib.Core.Path.{subst}
use inno_taxi.Base.Int.{ℤ, pos, negsuc, ◌+ℤ◌, ◌-ℤ◌, ◌≤ℤ◌, ◌<ℤ◌, leb_ℤ, int64, int64_bound}
use inno_taxi.Base.Lists.{All}
use inno_taxi.Base.Action.{Result, ok, err}
use inno_taxi.Base.Tests.{◌==◌, Bool-cases, some_unique}
use inno_taxi.Wallet.Entity.{WalletError, Wallet, Transaction}
use inno_taxi.Wallet.Store.{Tables, Env, World, find_wallet, set_balance}
use inno_taxi.Wallet.Spec.{replayed, posted}
use inno_taxi.Wallet.Service.{charge, refund}
use inno_taxi.Wallet.Service.InTransaction.{Charges, Refunds, after_debit, after_credit}
use inno_taxi.Wallet.Service.Posting.{charge-Charges, refund-Refunds, Ends, bad_amount}
use inno_taxi.Wallet.Service.Balance.{Ends-ok, find_wallet-set_balance}

-- From 0 to 2 ^ 63 - 1.
abbrev pub InBounds : Wallet → Type 0
InBounds x = (pos 0 ≤ℤ x.balance_minor_units) × (x.balance_minor_units <ℤ pos int64_bound)

abbrev pub Solvent : Tables → Type 0
Solvent t = All InBounds t.wallets

set_balance-Solvent :
    (i : String) (b : ℤ) (now : ℕ) (ws : List Wallet)
    → (pos 0 ≤ℤ b) × (b <ℤ pos int64_bound)
    → All InBounds ws
    → All InBounds (set_balance i b now ws)
unfolding set_balance
set_balance-Solvent i b now [] h ps = tt
set_balance-Solvent i b now (x ∷ ws) h (p, ps) = elim (Bool-cases (x.id == i)) [
  | inl same ↦ (rw same h, set_balance-Solvent i b now ws h ps)
  | inr other ↦ (rw other p, set_balance-Solvent i b now ws h ps)
]

find_wallet-Solvent :
    (u : String) (ws : List Wallet) (a : Wallet)
    → find_wallet u ws ≡ some a
    → All InBounds ws
    → InBounds a
unfolding find_wallet
find_wallet-Solvent u [] a h ps = absurd (ground (arith, h))
find_wallet-Solvent u (x ∷ ws) a h (p, ps) = elim (Bool-cases (x.user_id == u)) [
  | inl same ↦ (let here : x ≡ a = ground (arith, h, same) in subst InBounds here p)
  | inr other ↦ find_wallet-Solvent u ws a (rw other at h) ps
]

after_debit-InBounds :
    (amount n : ℤ)
    → pos 0 <ℤ amount
    → amount ≤ℤ n
    → n <ℤ pos int64_bound
    → (pos 0 ≤ℤ after_debit amount n) × (after_debit amount n <ℤ pos int64_bound)
unfolding ◌-ℤ◌ int64
after_debit-InBounds (pos k) (pos m) low covered high = ground arith
after_debit-InBounds (pos k) (negsuc m) low covered high = absurd (ground arith)
after_debit-InBounds (negsuc k) n low covered high = absurd (ground arith)

Charges-Solvent :
    (u : String) (amount : ℤ) (reference : String) (t t' : Tables) (r : Transaction) (b : Bool)
    → pos 0 <ℤ amount
    → Charges u amount reference t t' r b
    → Solvent t
    → Solvent t'
Charges-Solvent u amount reference t t' r b low (replayed x found there old same) h =
    subst Solvent (sym same) h
Charges-Solvent u amount reference t t' r b low
      (posted x now found free covered is_new mine type_is amount_is ref_is same) h =
    let (zero, top) = find_wallet-Solvent u t.wallets x found h in
    subst Solvent (sym same) (
      set_balance-Solvent x.id (after_debit amount x.balance_minor_units) now t.wallets
        (after_debit-InBounds amount x.balance_minor_units low covered top) h)

-- The balance that an overflow leaves.
overflowed :
    (amount n : ℤ)
    → amount <ℤ pos int64_bound
    → n <ℤ pos int64_bound
    → pos int64_bound ≤ℤ n +ℤ amount
    → after_credit amount n <ℤ pos 0
unfolding ◌+ℤ◌ int64
overflowed (pos k) (pos m) h h' over = ground arith
overflowed (pos k) (negsuc m) h h' over = absurd (ground arith)
overflowed (negsuc k) (pos m) h h' over = absurd (ground arith)
overflowed (negsuc k) (negsuc m) h h' over = absurd (ground arith)

module _ (e : Env) where
  Ends-Solvent :
      (u : String) (amount : ℤ) (reference : String) (w w' : World)
      (a : Result WalletError (Transaction × Bool))
      → pos 0 <ℤ amount
      → Ends e (Charges u amount reference) w a w'
      → Solvent w.tables
      → Solvent w'.tables
  Ends-Solvent u amount reference w w' (ok (r, b)) low p h =
      Charges-Solvent u amount reference _ _ r b low p h
  Ends-Solvent u amount reference w w' (err y) low (inl same) h = subst Solvent (sym same) h
  Ends-Solvent u amount reference w w' (err y) low (inr (r, b, p)) h =
      Charges-Solvent u amount reference _ _ r b low p h

  -- Where every balance is from 0 to 2 ^ 63 - 1, `Charge` keeps it so, whatever it is called with and
  -- whichever statements fail: nothing overdraws a wallet.
  pub charge-Solvent :
      (u : String) (amount : ℤ) (reference : String) (w : World)
      → Solvent w.tables
      → Solvent (charge e u amount reference w).1.tables
  charge-Solvent u amount reference w h = elim (Bool-cases (leb_ℤ amount (pos 0))) [
    | inl bad ↦
        subst (λ (p : Result WalletError (Transaction × Bool) × World). Solvent p.1.tables)
          (sym (bad_amount e u amount reference w (ground (arith, bad))).0) h
    | inr good ↦
        Ends-Solvent u amount reference w _ _ (ground (arith, good))
          (charge-Charges e u amount reference w) h
  ]

  -- `Refund` does not test for overflow: where the balance is an int64 and the sum with an int64
  -- amount reaches 2 ^ 63, a new refund that succeeds leaves the user's balance negative.
  pub refund-overflow :
      (u : String) (amount : ℤ) (reference : String) (w : World) (a : Wallet) (r : Transaction)
      → find_wallet u w.tables.wallets ≡ some a
      → a.balance_minor_units <ℤ pos int64_bound
      → amount <ℤ pos int64_bound
      → pos int64_bound ≤ℤ a.balance_minor_units +ℤ amount
      → (refund e u amount reference w).0 ≡ ok (r, true)
      → (x : Wallet) × (find_wallet u (refund e u amount reference w).1.tables.wallets ≡ some x)
        × (x.balance_minor_units <ℤ pos 0)
  refund-overflow u amount reference w a r found top top' over done = go (
      Ends-ok e (Refunds u amount reference) w _ _ r true (refund-Refunds e u amount reference w)
        done)
    where
      t' : Tables
      t' = (refund e u amount reference w).1.tables

      go :
          Refunds u amount reference w.tables t' r true
          → (x : Wallet) × (find_wallet u t'.wallets ≡ some x) × (x.balance_minor_units <ℤ pos 0)
      go (replayed x found' there old same) = absurd (ground (arith, old))
      go (posted x now found' free covered is_new mine type_is amount_is ref_is same) =
          let is : x ≡ a = some_unique found' found in
          let b : ℤ = after_credit amount x.balance_minor_units in
          (
            record x { balance_minor_units = b; updated_at = now },
            ap (λ (t : Tables). find_wallet u t.wallets) same
                ∙ find_wallet-set_balance u x b now w.tables.wallets found',
            rw is (overflowed amount a.balance_minor_units top' top over),
          )
