-- ===== src/Analytic/Latest.antt =====
-- Which orders the figures of services/analytic_service are of, told without its query: the last event of
-- every order, where it is in the range, every order once.
use inno_taxi.Base.{
  ℕ, ◌≤◌, ◌<◌, true, false, ◌&&◌, List, [], ◌∷◌, ◌≡◌, ◌≢◌, sym, ap, ◌∙◌, ◌⊎◌, inl, inr, ◌↔◌, arith,
  String,
}
use mathlib.Core.Path.{subst}
use inno_taxi.Base.Lists.{All}
use inno_taxi.Base.Tests.{◌==◌, Bool-cases, ==_eq, ==_ne, leb, ltb}
use inno_taxi.Analytic.Entity.{OrderEvent}
use inno_taxi.Analytic.Store.{has_order, final_orders, in_range}

abbrev pub IsIn : OrderEvent → List OrderEvent → Type 0
IsIn x [] = ⊥
IsIn x (y ∷ ys) = (y ≡ x) ⊎ IsIn x ys

-- `x` is among the events, and none of its order comes later.
abbrev pub IsLatest : OrderEvent → List OrderEvent → Type 0
IsLatest x [] = ⊥
IsLatest x (y ∷ ys) =
    ((y ≡ x) × All (λ (z : OrderEvent). z.order_id ≢ x.order_id) ys) ⊎ IsLatest x ys

abbrev pub AreDistinct : List OrderEvent → Type 0
AreDistinct [] = Unit
AreDistinct (x ∷ xs) = All (λ (z : OrderEvent). z.order_id ≢ x.order_id) xs × AreDistinct xs

-- The orders to count: no order twice, and exactly the last events of orders within the range.
abbrev pub AreOrdersWithin : ℕ → ℕ → List OrderEvent → List OrderEvent → Type 0
AreOrdersWithin from until events os =
    AreDistinct os
    × ((x : OrderEvent)
        → IsIn x os ↔ (IsLatest x events × (from ≤ x.created_at) × (x.created_at < until)))

has_order-none :
    (i : String) (xs : List OrderEvent)
    → has_order i xs ≡ false
    → All (λ (z : OrderEvent). z.order_id ≢ i) xs
unfolding has_order
has_order-none i [] h = tt
has_order-none i (x ∷ xs) h =
    (==_ne x.order_id i (ground (arith, h)), has_order-none i xs (ground (arith, h)))

has_order-some :
    (i : String) (xs : List OrderEvent)
    → has_order i xs ≡ true
    → All (λ (z : OrderEvent). z.order_id ≢ i) xs
    → ⊥
unfolding has_order
has_order-some i [] h ps = absurd (ground (arith, h))
has_order-some i (x ∷ xs) h (p, ps) = elim (Bool-cases (x.order_id == i)) [
  | inl same ↦ p (==_eq x.order_id i same)
  | inr other ↦ has_order-some i xs (rw other at h) ps
]

module _ (P : OrderEvent → Type 0) where
  All-final_orders : (xs : List OrderEvent) → All P xs → All P (final_orders xs)
  unfolding final_orders
  All-final_orders [] ps = tt
  All-final_orders (x ∷ xs) (p, ps) = elim (Bool-cases (has_order x.order_id xs)) [
    | inl later ↦ rw later (All-final_orders xs ps)
    | inr last ↦ rw last (p, All-final_orders xs ps)
  ]

  All-in_range : (from until : ℕ) (xs : List OrderEvent) → All P xs → All P (in_range from until xs)
  unfolding in_range
  All-in_range from until [] ps = tt
  All-in_range from until (x ∷ xs) (p, ps) =
      elim (Bool-cases (leb from x.created_at && ltb x.created_at until)) [
        | inl inside ↦ rw inside (p, All-in_range from until xs ps)
        | inr outside ↦ rw outside (All-in_range from until xs ps)
      ]

final_orders-AreDistinct : (xs : List OrderEvent) → AreDistinct (final_orders xs)
unfolding final_orders
final_orders-AreDistinct [] = tt
final_orders-AreDistinct (x ∷ xs) = elim (Bool-cases (has_order x.order_id xs)) [
  | inl later ↦ rw later (final_orders-AreDistinct xs)
  | inr last ↦ rw last (
    All-final_orders (λ z. z.order_id ≢ x.order_id) xs (has_order-none x.order_id xs last),
    final_orders-AreDistinct xs,
  )
]

in_range-AreDistinct :
    (from until : ℕ) (xs : List OrderEvent) → AreDistinct xs → AreDistinct (in_range from until xs)
unfolding in_range
in_range-AreDistinct from until [] ps = tt
in_range-AreDistinct from until (x ∷ xs) (p, ps) =
    elim (Bool-cases (leb from x.created_at && ltb x.created_at until)) [
      | inl inside ↦ rw inside (
        All-in_range (λ z. z.order_id ≢ x.order_id) from until xs p,
        in_range-AreDistinct from until xs ps,
      )
      | inr outside ↦ rw outside (in_range-AreDistinct from until xs ps)
    ]

module _ (x : OrderEvent) where
  final_orders-IsLatest : (xs : List OrderEvent) → IsIn x (final_orders xs) → IsLatest x xs
  unfolding final_orders
  final_orders-IsLatest [] h = h
  final_orders-IsLatest (y ∷ ys) h = elim (Bool-cases (has_order y.order_id ys)) [
    | inl later ↦ inr (final_orders-IsLatest ys (rw later at h))
    | inr last ↦ elim (rw last at h) [
      | inl same ↦ inl (
        same,
        subst (λ (z : OrderEvent). All (λ (v : OrderEvent). v.order_id ≢ z.order_id) ys) same
            (has_order-none y.order_id ys last),
      )
      | inr rest ↦ inr (final_orders-IsLatest ys rest)
    ]
  ]

  IsLatest-final_orders : (xs : List OrderEvent) → IsLatest x xs → IsIn x (final_orders xs)
  unfolding final_orders
  IsLatest-final_orders [] h = h
  IsLatest-final_orders (y ∷ ys) h = elim (Bool-cases (has_order y.order_id ys)) [
    | inl later ↦ elim h [
      | inl (same, none_later) ↦ absurd (
          has_order-some x.order_id ys
            (ap (λ (z : OrderEvent). has_order z.order_id ys) (sym same) ∙ later) none_later)
      | inr rest ↦ rw later (IsLatest-final_orders ys rest)
    ]
    | inr last ↦ elim h [
      | inl (same, none_later) ↦ rw last (inl same)
      | inr rest ↦ rw last (inr (IsLatest-final_orders ys rest))
    ]
  ]

  in_range-IsIn :
      (from until : ℕ) (ys : List OrderEvent)
      → IsIn x (in_range from until ys)
      → IsIn x ys × (from ≤ x.created_at) × (x.created_at < until)
  unfolding in_range
  in_range-IsIn from until [] h = absurd h
  in_range-IsIn from until (y ∷ ys) h =
      elim (Bool-cases (leb from y.created_at && ltb y.created_at until)) [
        | inl inside ↦ elim (rw inside at h) [
          | inl same ↦
              (let early = ap (λ (z : OrderEvent). z.created_at) same in
                (inl same, ground (arith, inside, early), ground (arith, inside, early)))
          | inr rest ↦
              (let (there, low, high) = in_range-IsIn from until ys rest in (inr there, low, high))
        ]
        | inr outside ↦
            (let (there, low, high) = in_range-IsIn from until ys (rw outside at h) in
              (inr there, low, high))
      ]

  IsIn-in_range :
      (from until : ℕ) (ys : List OrderEvent)
      → IsIn x ys
      → from ≤ x.created_at
      → x.created_at < until
      → IsIn x (in_range from until ys)
  unfolding in_range
  IsIn-in_range from until [] h low high = h
  IsIn-in_range from until (y ∷ ys) (inl same) low high =
      let early = ap (λ (z : OrderEvent). z.created_at) same in
      let inside : (leb from y.created_at && ltb y.created_at until) ≡ true =
        ground (arith, early, low, high) in
      rw inside (inl same)
  IsIn-in_range from until (y ∷ ys) (inr rest) low high =
      elim (Bool-cases (leb from y.created_at && ltb y.created_at until)) [
        | inl inside ↦ rw inside (inr (IsIn-in_range from until ys rest low high))
        | inr outside ↦ rw outside (IsIn-in_range from until ys rest low high)
      ]

-- The rows that the queries read are those to count.
pub in_range-AreOrdersWithin :
    (from until : ℕ) (events : List OrderEvent)
    → AreOrdersWithin from until events (in_range from until (final_orders events))
in_range-AreOrdersWithin from until events = (
  in_range-AreDistinct from until (final_orders events) (final_orders-AreDistinct events),
  λ x. (
    λ h.
        let (there, low, high) = in_range-IsIn x from until (final_orders events) h in
        (final_orders-IsLatest x events there, low, high),
    λ (latest, low, high).
        IsIn-in_range x from until (final_orders events) (IsLatest-final_orders x events latest) low
          high,
  ),
)
