-- ===== src/Analytic/Redelivered.antt =====
-- Events that are delivered again change no figure of services/analytic_service, and an order that the
-- order service publishes is stored with its own fields.
use inno_taxi.Base.{
  ℕ, String, Option, none, some, Bool, true, false, ◌||◌, List, [], ◌∷◌, ◌++◌, ◌≡◌, refl, sym, ap,
  ◌∙◌, inl, inr, arith, eq_iff,
}
use inno_taxi.Base.Tests.{◌==◌, if◌then◌else◌, Bool-cases, ==_eq, ==_ne}
use inno_taxi.Analytic.Entity.{OrderEvent}
use inno_taxi.Analytic.Store.{has_order, final_orders, in_range}
use inno_taxi.Analytic.Counted.{count_by}

-- The last event of an order.
unfoldable pub latest : String → List OrderEvent → Option OrderEvent
latest i [] = none
latest i (x ∷ xs) = if has_order i xs then latest i xs else if x.order_id == i then some x else none

pub has_order-append :
    (i : String) (xs : List OrderEvent) (x : OrderEvent)
    → has_order i (xs ++ x ∷ []) ≡ has_order i xs || x.order_id == i
unfolding has_order
has_order-append i [] x = ground arith
has_order-append i (y ∷ ys) x = ground (arith, has_order-append i ys x)

flip : (s t : String) → (s == t) ≡ false → (t == s) ≡ false
flip s t h = elim (Bool-cases (t == s)) [
  | inl same ↦ absurd (==_ne s t h (sym (==_eq t s same)))
  | inr other ↦ other
]

has_order-other :
    (i : String) (xs : List OrderEvent) (x : OrderEvent)
    → (i == x.order_id) ≡ false
    → has_order i (xs ++ x ∷ []) ≡ has_order i xs
has_order-other i xs x other = has_order-append i xs x ∙ ground (arith, flip i x.order_id other)

module _ (from until : ℕ) (P : String → String → Bool) where
  abbrev figure : List OrderEvent → ℕ
  figure xs = count_by P (in_range from until xs)

  figure-cons :
      (x : OrderEvent) (xs ys : List OrderEvent)
      → figure xs ≡ figure ys
      → figure (x ∷ xs) ≡ figure (x ∷ ys)
  unfolding in_range count_by
  figure-cons x xs ys h = ground (arith, h)

  figure-swap :
      (x y : OrderEvent) (xs : List OrderEvent) → figure (x ∷ y ∷ xs) ≡ figure (y ∷ x ∷ xs)
  unfolding in_range count_by
  figure-swap x y xs = ground arith

  -- An event of an order that has none yet.
  figure-fresh :
      (x : OrderEvent) (xs : List OrderEvent)
      → has_order x.order_id xs ≡ false
      → figure (final_orders (xs ++ x ∷ [])) ≡ figure (x ∷ final_orders xs)
  unfolding final_orders has_order
  figure-fresh x [] h = refl
  figure-fresh x (y ∷ ys) h =
      let other : (y.order_id == x.order_id) ≡ false = ground (arith, h) in
      let rest : has_order x.order_id ys ≡ false = ground (arith, h) in
      let same : has_order y.order_id (ys ++ x ∷ []) ≡ has_order y.order_id ys =
        has_order-other y.order_id ys x other in
      elim (Bool-cases (has_order y.order_id ys)) [
        | inl later ↦ rw (same ∙ later) (rw later (figure-fresh x ys rest))
        | inr last ↦ rw (same ∙ last) (
            rw last
              (figure-cons y _ _ (figure-fresh x ys rest) ∙ figure-swap y x (final_orders ys)))
      ]

  -- The last event of an order, once more.
  pub figure-again :
      (x : OrderEvent) (xs : List OrderEvent)
      → latest x.order_id xs ≡ some x
      → figure (final_orders (xs ++ x ∷ [])) ≡ figure (final_orders xs)
  unfolding final_orders latest
  figure-again x [] h = absurd (ground (arith, h))
  figure-again x (y ∷ ys) h = elim (Bool-cases (has_order x.order_id ys)) [
    | inl later ↦
        (let again = figure-again x ys (rw later at h) in
          elim (Bool-cases (y.order_id == x.order_id)) [
            | inl same ↦
                (let mine : has_order y.order_id ys ≡ true =
                    ap (λ i. has_order i ys) (==_eq y.order_id x.order_id same) ∙ later in
                  rw (has_order-append y.order_id ys x) (rw mine again))
            | inr other ↦
                rw (has_order-other y.order_id ys x other)
                  (elim (Bool-cases (has_order y.order_id ys)) [
                    | inl more ↦ rw more again
                    | inr final ↦ rw final (figure-cons y _ _ again)
                  ])
          ])
    | inr last ↦
        (let same : (y.order_id == x.order_id) ≡ true = ground (arith, rw last at h) in
          let ids = ==_eq y.order_id x.order_id same in
          let here : y ≡ x = ground (arith, same, rw last at h) in
          let alone : has_order y.order_id ys ≡ false = ap (λ i. has_order i ys) ids ∙ last in
          let joined : has_order y.order_id (ys ++ x ∷ []) ≡ true =
            has_order-append y.order_id ys x
            ∙ ground (arith, (eq_iff x.order_id y.order_id).1 (sym ids)) in
          rw joined
            (rw alone (figure-fresh x ys last ∙ ap (λ z. figure (z ∷ final_orders ys)) (sym here))))
  ]
