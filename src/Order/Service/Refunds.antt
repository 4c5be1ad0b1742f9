-- ===== src/Order/Service/Refunds.antt =====
-- `CancelOrder` refunds the price before it changes the status; the other methods on an order that
-- exists send the wallet nothing.
use inno_taxi.Base.{
  String, none, some, true, not, ◌∷◌, ◌≡◌, refl, ◌∙◌, ◌⊎◌, inl, inr, arith, eq_iff,
}
use inno_taxi.Base.Action.{Result, ok, err, ◌>>◌}
use inno_taxi.Base.Tests.{◌==◌}
use inno_taxi.Base.Runs.{runs, Runs-post, Then, Runs-bind, Runs-raise_if}
use inno_taxi.Order.Entity.{Error, order_not_found, order_not_cancellable, Order, status_cancelled}
use inno_taxi.Order.Pricing.{FloatOps}
use inno_taxi.Order.World.{Env, World, refund, select_order}
use inno_taxi.Order.Repository.{lookup, log_call}
use inno_taxi.Order.Service.{
  refundable, is_cancellable, refund_price, release_assigned, move_to, cancel_order,
}
use inno_taxi.Order.Service.Stages.{
  Runs-get_order_by_id, refund_price-orders, release_assigned-ok, move_to-ok,
}
use inno_taxi.Order.Service.Payments.{pays, refund_calls, release_assigned-pays, move_to-pays}

module _ {F : Type 0} (fl : FloatOps F) (e : Env F) where
  -- The wallet accepted the refund of an order, where its price calls for one.
  abbrev pub Accepted : String → Order F → World F → Type 0
  Accepted k o w = elim (refundable o) [
    | none ↦ Unit
    | some p ↦ e.wallet (refund o.user_id p o.id ∷ select_order k ∷ w.calls) ≡ none
  ]

  -- The order that a cancellation by `u` may take.
  abbrev pub Takes : String → String → World F → Order F → Type 0
  Takes k u w o = (lookup k w.orders ≡ some o) × (o.user_id ≡ u) × (is_cancellable o ≡ true)

  -- How `CancelOrder` ends, by its payments and the table.
  abbrev pub Cancelled : String → String → World F → Result Error (Order F) → World F → Type 0
  Cancelled k u w (ok o') w' =
      (o : Order F) × Takes k u w o
      × Accepted k o w
      × (pays w' ≡ refund_calls o (pays w))
      × (o'.status ≡ status_cancelled)
      × (lookup k w'.orders ≡ some o')
  Cancelled k u w (err x) w' =
      ((w'.orders ≡ w.orders) × (pays w' ≡ pays w))
      ⊎ ((o : Order F) × Takes k u w o
          × (pays w' ≡ refund_calls o (pays w))
          × ((w'.orders ≡ w.orders) ⊎ Accepted k o w))

  moved-Cancelled :
      (k u : String) (w v : World F) (o : Order F)
      → Takes k u w o
      → Accepted k o w
      → pays v ≡ refund_calls o (pays w)
      → Cancelled k u w (move_to fl e k status_cancelled v).0 (move_to fl e k status_cancelled v).1
  moved-Cancelled k u w v o takes accepted paid =
      go (move_to fl e k status_cancelled v).0 (move_to-ok fl e k status_cancelled v)
    where
      w' : World F
      w' = (move_to fl e k status_cancelled v).1

      go :
          (r : Result Error (Order F))
          → ((o' : Order F)
              → r ≡ ok o'
              → (o'.status ≡ status_cancelled) × (lookup k w'.orders ≡ some o'))
          → Cancelled k u w r w'
      go (ok o') done = (
        o,
        takes,
        accepted,
        move_to-pays fl e k status_cancelled v ∙ paid,
        (done o' refl).0,
        (done o' refl).1,
      )
      go (err x) done = inr (o, takes, move_to-pays fl e k status_cancelled v ∙ paid, inr accepted)

  refund_price-pays :
      (o : Order F) (w : World F) → pays (refund_price fl e o w).1 ≡ refund_calls o (pays w)
  unfolding refund_price
  refund_price-pays o w = ground arith

  refund_price-Accepted :
      (k : String) (o : Order F) (w : World F)
      → (refund_price fl e o (log_call (select_order k) w)).0 ≡ ok tt
      → Accepted k o w
  unfolding refund_price
  refund_price-Accepted k o w h = ground arith

  -- `CancelOrder` succeeds only for the rider's own order in a cancellable status, after the wallet
  -- accepted the refund of its price (one refund, to the rider, under the order's id), and then the
  -- table holds the cancelled order that is returned. If it fails, at most that one refund was sent,
  -- and the table is as it was unless the refund was accepted.
  pub cancel_order-Cancelled :
      (k u : String) (w : World F)
      → Cancelled k u w (cancel_order fl e k u w).0 (cancel_order fl e k u w).1
  unfolding cancel_order
  cancel_order-Cancelled k u w = Runs-post (
      Runs-get_order_by_id e Q k _ w (λ x. inl (refl, refl))
        λ o found.
          Runs-raise_if Q (not (o.user_id == u)) order_not_found _ _ (λ other. inl (refl, refl))
            λ own.
              Runs-raise_if Q (not (is_cancellable o)) order_not_cancellable _ _
                (λ late. inl (refl, refl))
                λ open_order. Runs-bind Q (refund_price fl e o) _ _ (
                  runs (
                    go o (found, ground (arith, eq_iff o.user_id u), ground arith)
                      (refund_price fl e o (log_call (select_order k) w)).0
                      (refund_price fl e o (log_call (select_order k) w)).1
                      (refund_price-Accepted k o w)
                      (refund_price-pays o (log_call (select_order k) w))
                      (refund_price-orders fl e o (log_call (select_order k) w)))))
    where
      Q : Result Error (Order F) → World F → Type 0
      Q = Cancelled k u w

      go :
          (o : Order F)
          → Takes k u w o
          → (r : Result Error (Unit {0})) (v : World F) → (r ≡ ok tt → Accepted k o w)
          → pays v ≡ refund_calls o (pays w)
          → v.orders ≡ w.orders
          → Then Q (λ _. release_assigned fl e o >> move_to fl e k status_cancelled) r v
      go o takes (ok t) v accepted paid same = Runs-bind Q (release_assigned fl e o) _ v (
          runs (
            rw (release_assigned-ok fl e o v) (
              runs (
                moved-Cancelled k u w (release_assigned fl e o v).1 o takes (accepted refl)
                  (release_assigned-pays fl e o v ∙ paid)))))
      go o takes (err x) v accepted paid same = inr (o, takes, paid, inl same)
