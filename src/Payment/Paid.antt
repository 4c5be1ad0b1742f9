-- ===== src/Payment/Paid.antt =====
-- What the order service may conclude from the answer of the wallet.
use inno_taxi.Base.{String, Option, none, some, Bool, ◌||◌, ◌≡◌, refl, sym, ◌∙◌, ◌⊎◌, inl, inr, ◌≢◌}
use inno_taxi.Base.Int.{ℤ}
use inno_taxi.Base.Action.{Result, ok, err}
use inno_taxi.Base.Tests.{Bool-cases, ◌==◌}
use inno_taxi.Order.Entity.{Error}
use inno_taxi.Wallet.Entity.{
  WalletError, Transaction, TransactionType, transaction_type_debit, transaction_type_credit,
  insufficient_funds, wallet_not_found, invalid_amount, wallet_already_exists, outside, wrap,
}
use inno_taxi.Wallet.Store.{Tables, Env, World}
use inno_taxi.Wallet.Service.InTransaction.{
  after_debit, after_credit, Covers, Anything, Charges, Refunds,
}
use inno_taxi.Wallet.Service.Posting.{Ends, charge-Charges, refund-Refunds}
use inno_taxi.Wallet.Spec.{Posts}
use inno_taxi.Wallet.Service.Balance.{Posts-Holds, Posts-again}
use inno_taxi.Wallet.Http.{
  Response, root, is_zero_amount, post_charge, post_refund, charge_response, refund_response,
  charge_failure, refund_failure,
}
use inno_taxi.Payment.{
  Network, unreachable, response_lost, delivered, error_of_status, do_transaction, gateway_charge,
  gateway_refund,
}

-- A post that took place.
abbrev pub Took : (Tables → Tables → Transaction → Bool → Type 0) → World → World → Type 0
Took P w w' = (r : Transaction) × (b : Bool) × P w.tables w'.tables r b

-- The wallet did what was asked if the answer is no error. If it is one, the tables are as they were
-- or the wallet did it all the same.
abbrev pub Concludes :
    (Tables → Tables → Transaction → Bool → Type 0) → World → Option Error → World → Type 0
Concludes P w none w' = Took P w w'
Concludes P w (some x) w' = (w'.tables ≡ w.tables) ⊎ Took P w w'

charge_failure-status : (x y : WalletError) → error_of_status (charge_failure x y).status ≢ none
charge_failure-status x wallet_not_found h = cc
charge_failure-status x invalid_amount h = cc
charge_failure-status x insufficient_funds h = cc
charge_failure-status x wallet_already_exists h = cc
charge_failure-status x (outside m) h = cc
charge_failure-status x (wrap m y) h = cc

refund_failure-status : (x y : WalletError) → error_of_status (refund_failure x y).status ≢ none
refund_failure-status x wallet_not_found h = cc
refund_failure-status x invalid_amount h = cc
refund_failure-status x insufficient_funds h = cc
refund_failure-status x wallet_already_exists h = cc
refund_failure-status x (outside m) h = cc
refund_failure-status x (wrap m y) h = cc

module _ (P : Tables → Tables → Transaction → Bool → Type 0) (w : World) where
  -- An endpoint whose success is seen in the status, and that does all or nothing.
  abbrev Settles : Response × World → Type 0
  Settles p =
      (error_of_status p.0.status ≡ none → Took P w p.1) × ((p.1.tables ≡ w.tables) ⊎ Took P w p.1)

  status-Concludes :
      (o : Option Error) (w' : World)
      → (o ≡ none → Took P w w')
      → (w'.tables ≡ w.tables) ⊎ Took P w w'
      → Concludes P w o w'
  status-Concludes none w' good either = good refl
  status-Concludes (some x) w' good either = either

  do_transaction-Concludes :
      (n : Network) (endpoint : World → Response × World)
      → Settles (endpoint w)
      → Concludes P w (do_transaction n endpoint w).0 (do_transaction n endpoint w).1
  do_transaction-Concludes unreachable endpoint h = inl refl
  do_transaction-Concludes response_lost endpoint h = h.1
  do_transaction-Concludes delivered endpoint h =
      status-Concludes (error_of_status (endpoint w).0.status) (endpoint w).1 h.0 h.1

module _ (e : Env) where
  Ends-Settles :
      (P : Tables → Tables → Transaction → Bool → Type 0) (w w' : World)
      (respond : Result WalletError (Transaction × Bool) → Response)
      (a : Result WalletError (Transaction × Bool))
      → ((x : WalletError) → error_of_status (respond (err x)).status ≢ none)
      → Ends e P w a w'
      → Settles P w (respond a, w')
  Ends-Settles P w w' respond (ok (r, b)) fails p = ((λ h. (r, b, p)), inr (r, b, p))
  Ends-Settles P w w' respond (err x) fails p = ((λ h. absurd (fails x h)), p)

  -- When the order service asks the wallet for a charge and sees no error, the wallet has debited the
  -- rider once under the reference or had done so before. When it sees an error, whatever was lost on
  -- the network or in the database, the tables are unchanged or the charge was made all the same.
  gateway_charge-Concludes :
      (n : Network) (u : String) (amount : ℤ) (reference : String) (w : World)
      → Concludes
          (Charges u amount reference)
          w
          (gateway_charge e n u amount reference w).0
          (gateway_charge e n u amount reference w).1
  unfolding gateway_charge post_charge
  gateway_charge-Concludes n u amount reference w =
      do_transaction-Concludes (Charges u amount reference) w n _
        (elim (Bool-cases (is_zero_amount amount || reference == "")) [
          | inl refused ↦ rw refused ((λ h. absurd (cc h)), inl refl)
          | inr bound ↦ rw bound (
              Ends-Settles (Charges u amount reference) w _ charge_response _
                (λ x. charge_failure-status x (root x)) (charge-Charges e u amount reference w))
        ])

  -- When the order service asks the wallet for a refund and sees no error, the wallet has credited the
  -- rider once under the reference or had done so before. When it sees an error, whatever was lost on
  -- the network or in the database, the tables are unchanged or the refund was made all the same.
  gateway_refund-Concludes :
      (n : Network) (u : String) (amount : ℤ) (reference : String) (w : World)
      → Concludes
          (Refunds u amount reference)
          w
          (gateway_refund e n u amount reference w).0
          (gateway_refund e n u amount reference w).1
  unfolding gateway_refund post_refund
  gateway_refund-Concludes n u amount reference w =
      do_transaction-Concludes (Refunds u amount reference) w n _
        (elim (Bool-cases (is_zero_amount amount || reference == "")) [
          | inl refused ↦ rw refused ((λ h. absurd (cc h)), inl refl)
          | inr bound ↦ rw bound (
              Ends-Settles (Refunds u amount reference) w _ refund_response _
                (λ x. refund_failure-status x (root x)) (refund-Refunds e u amount reference w))
        ])

  -- When the order service asks the wallet for a charge or for a refund and sees no error, the wallet
  -- has debited or credited the rider once under the reference or had done so before. When it sees an
  -- error, whatever was lost on the network or in the database, the tables are unchanged or the charge
  -- or the refund was made all the same.
  pub gateway_moves-Concludes :
      (n : Network) (u : String) (amount : ℤ) (reference : String) (w : World)
      → Concludes
          (Charges u amount reference)
          w
          (gateway_charge e n u amount reference w).0
          (gateway_charge e n u amount reference w).1
        × Concludes
            (Refunds u amount reference)
            w
            (gateway_refund e n u amount reference w).0
            (gateway_refund e n u amount reference w).1
  gateway_moves-Concludes n u amount reference w = (
    gateway_charge-Concludes n u amount reference w,
    gateway_refund-Concludes n u amount reference w,
  )

  -- Two takes under one reference are one.
  Took-Took :
      {ty : TransactionType} {next : ℤ → ℤ} {Allows : ℤ → Type 0} (u : String) {amount : ℤ}
      (reference : String) (w v w' : World)
      → Took (Posts ty next Allows u amount reference) w v
      → Took (Posts ty next Allows u amount reference) v w'
      → Took (Posts ty next Allows u amount reference) w w'
  Took-Took u reference w v w' (r, b, p) (r', b', p') =
      let (is_r, is_old, same) =
        Posts-again u reference v.tables r r' b' (Posts-Holds u reference r b p) p' in
      (r, b, rw same p)

  Concludes-twice :
      (ty : TransactionType) (next : ℤ → ℤ) (Allows : ℤ → Type 0) (u : String) (amount : ℤ)
      (reference : String) (w v w' : World) (o o' : Option Error)
      → Concludes (Posts ty next Allows u amount reference) w o v
      → Concludes (Posts ty next Allows u amount reference) v o' w'
      → Concludes (Posts ty next Allows u amount reference) w o' w'
  Concludes-twice ty next Allows u amount reference w v w' o o' first second = go o o' first second
    where
      P : Tables → Tables → Transaction → Bool → Type 0
      P = Posts ty next Allows u amount reference

      after : (v.tables ≡ w.tables) ⊎ Took P w v → Took P v w' → Took P w w'
      after (inl same) (r, b, p) = (r, b, rw (sym same) p)
      after (inr took) again = Took-Took u reference w v w' took again

      unsure :
          (v.tables ≡ w.tables) ⊎ Took P w v
          → (w'.tables ≡ v.tables) ⊎ Took P v w'
          → (w'.tables ≡ w.tables) ⊎ Took P w w'
      unsure f (inr again) = inr (after f again)
      unsure (inl same) (inl still) = inl (still ∙ same)
      unsure (inr (r, b, p)) (inl still) = inr (r, b, rw still p)

      settled : (o : Option Error) → Concludes P w o v → (v.tables ≡ w.tables) ⊎ Took P w v
      settled none took = inr took
      settled (some x) either = either

      go : (o o' : Option Error) → Concludes P w o v → Concludes P v o' w' → Concludes P w o' w'
      go o none f again = after (settled o f) again
      go o (some x) f either = unsure (settled o f) either

  -- A charge that is sent twice under one reference, the network failing either time in any way, has
  -- the effect of one: no error means one debit in all, an error none or one.
  pub gateway_charge-retry :
      (n n' : Network) (u : String) (amount : ℤ) (reference : String) (w : World)
      → let v = (gateway_charge e n u amount reference w).1 in
        Concludes
          (Charges u amount reference)
          w
          (gateway_charge e n' u amount reference v).0
          (gateway_charge e n' u amount reference v).1
  gateway_charge-retry n n' u amount reference w =
      let v = (gateway_charge e n u amount reference w).1 in
      Concludes-twice transaction_type_debit (after_debit amount) (Covers amount) u amount reference
        w v _ (gateway_charge e n u amount reference w).0 _
        (gateway_charge-Concludes n u amount reference w)
        (gateway_charge-Concludes n' u amount reference v)

  -- A refund that is sent twice under one reference, as when a rider cancels again after an error, the
  -- network failing either time in any way, has the effect of one: no error means one credit in all,
  -- an error none or one.
  pub gateway_refund-retry :
      (n n' : Network) (u : String) (amount : ℤ) (reference : String) (w : World)
      → let v = (gateway_refund e n u amount reference w).1 in
        Concludes
          (Refunds u amount reference)
          w
          (gateway_refund e n' u amount reference v).0
          (gateway_refund e n' u amount reference v).1
  gateway_refund-retry n n' u amount reference w =
      let v = (gateway_refund e n u amount reference w).1 in
      Concludes-twice transaction_type_credit (after_credit amount) Anything u amount reference w v
        _ (gateway_refund e n u amount reference w).0 _
        (gateway_refund-Concludes n u amount reference w)
        (gateway_refund-Concludes n' u amount reference v)
