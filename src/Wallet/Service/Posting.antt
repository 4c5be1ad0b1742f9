-- ===== src/Wallet/Service/Posting.antt =====
-- `Charge` and `Refund` do what Wallet.Spec says, or leave the tables alone.
use inno_taxi.Base.{String, Bool, true, false, ◌≡◌, refl, sym, ◌∙◌, ◌⊎◌, inl, inr, arith}
use mathlib.Core.Path.{subst}
use inno_taxi.Base.Int.{ℤ, pos, ◌≤ℤ◌, leb_ℤ}
use inno_taxi.Base.Action.{Result, ok, err, continue, ◌>>=◌}
use inno_taxi.Base.Tests.{Bool-cases}
use inno_taxi.Wallet.Entity.{WalletError, invalid_amount, Transaction}
use inno_taxi.Wallet.Store.{Tables, Env, World, invalidate}
use inno_taxi.Wallet.Transact.{Tx, TxAction, opened, transactional_operation}
use inno_taxi.Wallet.Transact.Laws.{transactional_operation-ok, transactional_operation-err}
use inno_taxi.Wallet.Service.{charge_in_tx, refund_in_tx, settle, charge, refund}
use inno_taxi.Wallet.Service.InTransaction.{
  Charges, Refunds, charge_in_tx-posts, refund_in_tx-posts,
}

module _ (e : Env) where
  settle-tables : (p : Transaction × Bool) (w : World) → (settle e p w).1.tables ≡ w.tables
  unfolding settle invalidate
  settle-tables (r, true) w = refl
  settle-tables (r, false) w = refl

  pub settle-result : (p : Transaction × Bool) (w : World) → (settle e p w).0 ≡ ok p
  unfolding settle invalidate
  settle-result (r, true) w = refl
  settle-result (r, false) w = refl

  -- How a call that posts in one transaction ends.
  abbrev pub Ends :
      (Tables → Tables → Transaction → Bool → Type 0)
      → World
      → Result WalletError (Transaction × Bool)
      → World
      → Type 0
  Ends P w (ok (r, b)) w' = P w.tables w'.tables r b
  Ends P w (err y) w' =
      (w'.tables ≡ w.tables) ⊎ ((r : Transaction) × (b : Bool) × P w.tables w'.tables r b)

  transact_then_settle :
      (P : Tables → Tables → Transaction → Bool → Type 0) (fn : TxAction (Transaction × Bool))
      (w : World)
      → ((r : Transaction) (b : Bool)
          → (fn (opened e w)).0 ≡ ok (r, b)
          → P w.tables (fn (opened e w)).1.tables r b)
      → Ends P w
          ((transactional_operation e fn >>= settle e) w).0
          ((transactional_operation e fn >>= settle e) w).1
  transact_then_settle P fn w posts =
      go (transactional_operation e fn w).0 (transactional_operation e fn w).1
        (transactional_operation-ok e fn w) (transactional_operation-err e fn w)
    where
      x : Tx
      x = opened e w

      go :
          (a : Result WalletError (Transaction × Bool)) (v : World)
          → ((p : Transaction × Bool) → a ≡ ok p → ((fn x).0 ≡ ok p) × (v.tables ≡ (fn x).1.tables))
          → ((y : WalletError)
              → a ≡ err y
              → (v.tables ≡ w.tables)
                ⊎ ((p : Transaction × Bool) × ((fn x).0 ≡ ok p) × (v.tables ≡ (fn x).1.tables)))
          → Ends P w (continue (settle e) a v).0 (continue (settle e) a v).1
      go (ok (r, b)) v good bad =
          let (ran, same) = good (r, b) refl in
          rw (settle-result (r, b) v) (
            subst (λ (t' : Tables). P w.tables t' r b) (sym (settle-tables (r, b) v ∙ same))
              (posts r b ran))
      go (err y) v good bad = elim (bad y refl) [
        | inl same ↦ inl same
        | inr ((r, b), ran, same) ↦ inr (r, b, rw same (posts r b ran))
      ]

  -- `Charge` that succeeds has debited the wallet once under the reference, at a balance that covered
  -- the amount, or found the debit that was there. `Charge` that fails changed no table, unless the
  -- debit was committed and only the commit's reply was lost.
  pub charge-Charges :
      (u : String) (amount : ℤ) (reference : String) (w : World)
      → Ends
          (Charges u amount reference)
          w
          (charge e u amount reference w).0
          (charge e u amount reference w).1
  unfolding charge
  charge-Charges u amount reference w = elim (Bool-cases (leb_ℤ amount (pos 0))) [
    | inl bad ↦ rw bad (inl refl)
    | inr good ↦ rw good (
        transact_then_settle (Charges u amount reference) (charge_in_tx e u amount reference) w
          (λ r b. charge_in_tx-posts e u amount reference (opened e w) r b))
  ]

  -- `Refund` that succeeds has credited the wallet once under the reference, or found the credit that
  -- was there. `Refund` that fails changed no table, unless the credit was committed and only the
  -- commit's reply was lost.
  pub refund-Refunds :
      (u : String) (amount : ℤ) (reference : String) (w : World)
      → Ends
          (Refunds u amount reference)
          w
          (refund e u amount reference w).0
          (refund e u amount reference w).1
  unfolding refund
  refund-Refunds u amount reference w = elim (Bool-cases (leb_ℤ amount (pos 0))) [
    | inl bad ↦ rw bad (inl refl)
    | inr good ↦ rw good (
        transact_then_settle (Refunds u amount reference) (refund_in_tx e u amount reference) w
          (λ r b. refund_in_tx-posts e u amount reference (opened e w) r b))
  ]

  -- An amount that is not positive is refused before anything is sent.
  pub bad_amount :
      (u : String) (amount : ℤ) (reference : String) (w : World)
      → amount ≤ℤ pos 0
      → (charge e u amount reference w ≡ (err invalid_amount, w))
        × (refund e u amount reference w ≡ (err invalid_amount, w))
  unfolding charge refund
  bad_amount u amount reference w h = (ground arith, ground arith)
