-- ===== src/Order/Service/Listing.antt =====
-- The page of `ListOrders`: its size, whose orders it holds, and the total.
use inno_taxi.Base.{String, true, List, [], ◌∷◌, ◌≡◌, refl, inl, inr, arith, ◌≤◌}
use mathlib.Core.List.{Permᴰ}
use mathlib.Core.Path.{subst}
use inno_taxi.Base.Int.{ℤ, pos, pos_part, ◌≤ℤ◌}
use inno_taxi.Base.Action.{Result, ok, err}
use inno_taxi.Base.Lists.{length, take, drop, length-take, All, All-take, All-drop}
use inno_taxi.Base.Tests.{Bool-cases}
use inno_taxi.Order.Entity.{Error, Order}
use inno_taxi.Order.Pricing.{FloatOps}
use inno_taxi.Order.World.{Env, World}
use inno_taxi.Order.Repository.{is_party, select_party, list_orders_by_user}
use inno_taxi.Order.Service.{clamp_limit, clamp_offset, list_orders_of}

-- The limit that reaches the database is between 1 and 100, and the offset is not negative.
clamp_bounds :
    (limit offset : ℤ)
    → (pos 1 ≤ℤ clamp_limit limit) × (clamp_limit limit ≤ℤ pos 100) × (pos 0 ≤ℤ clamp_offset offset)
unfolding clamp_limit clamp_offset
clamp_bounds limit offset = (ground arith, ground arith, ground arith)

clamp_limit-le : (limit : ℤ) → pos_part (clamp_limit limit) ≤ 100
unfolding clamp_limit
clamp_limit-le limit = ground arith

All-perm : {A : Type 0} (P : A → Type 0) {xs ys : List A} → Permᴰ xs ys → All P xs → All P ys
All-perm P Permᴰ.nil h = h
All-perm P (Permᴰ.cons e p) h = (subst P e h.0, All-perm P p h.1)
All-perm P (Permᴰ.swap e f) h = (subst P f h.1.0, (subst P e h.0, h.1.1))
All-perm P (Permᴰ.trans p q) h = All-perm P q (All-perm P p h)

module _ {F : Type 0} where
  select_party-All :
      (u : String) (os : List (Order F)) → All (λ o. is_party u o ≡ true) (select_party u os)
  unfolding select_party
  select_party-All u [] = tt
  select_party-All u (o ∷ os) = elim (Bool-cases (is_party u o)) [
    | inl own ↦ rw own (own, select_party-All u os)
    | inr other ↦ rw other (select_party-All u os)
  ]

  abbrev pub IsPage : String → World F → Result Error (List (Order F) × ℤ) → Type 0
  IsPage u w (err x) = Unit
  IsPage u w (ok (page, total)) =
      (length page ≤ 100)
      × All (λ o. is_party u o ≡ true) page
      × (total ≡ pos (length (select_party u w.orders)))

module _ {F : Type 0} (fl : FloatOps F) (e : Env F) where
  -- The rows that answer the two queries.
  list_orders_by_user-ok :
      (u : String) (limit offset : ℤ) (w : World F) (page : List (Order F)) (total : ℤ)
      → (list_orders_by_user e u limit offset w).0 ≡ ok (page, total)
      → (page
          ≡ take
              (pos_part limit)
              (drop (pos_part offset) (e.order_by_created (select_party u w.orders))))
        × (total ≡ pos (length (select_party u w.orders)))
  unfolding list_orders_by_user
  list_orders_by_user-ok u limit offset w page total h = ground arith

  -- Where `ORDER BY` only reorders rows, a page of `ListOrders` has at most 100 orders whatever the
  -- caller asked for, all of them the caller's as rider or as driver, and its total counts all such.
  pub list_orders_of-IsPage :
      (u : String) (limit offset : ℤ) (w : World F)
      → ((os : List (Order F)) → Permᴰ os (e.order_by_created os))
      → IsPage u w (list_orders_of fl e u limit offset w).0
  unfolding list_orders_of
  list_orders_of-IsPage u limit offset w reorders =
      go (list_orders_by_user e u l o w).0 (list_orders_by_user-ok u l o w)
    where
      l : ℤ
      l = clamp_limit limit

      o : ℤ
      o = clamp_offset offset

      rows : List (Order F)
      rows = drop (pos_part o) (e.order_by_created (select_party u w.orders))

      rows-All : All (λ x. is_party u x ≡ true) rows
      rows-All =
          All-drop (λ x. is_party u x ≡ true) (pos_part o)
            (e.order_by_created (select_party u w.orders))
            (All-perm (λ x. is_party u x ≡ true) (reorders (select_party u w.orders))
              (select_party-All u w.orders))

      go :
          (r : Result Error (List (Order F) × ℤ))
          → ((page : List (Order F)) (total : ℤ)
              → r ≡ ok (page, total)
              → (page ≡ take (pos_part l) rows) × (total ≡ pos (length (select_party u w.orders))))
          → IsPage u w r
      go (err x) h = tt
      go (ok (page, total)) h =
          let (is_page, is_total) = h page total refl in
          (
            rw is_page (omega (arith, length-take (pos_part l) rows, clamp_limit-le limit)),
            rw is_page (All-take (λ x. is_party u x ≡ true) (pos_part l) rows rows-All),
            is_total,
          )
