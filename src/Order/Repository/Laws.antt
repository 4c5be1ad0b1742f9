-- ===== src/Order/Repository/Laws.antt =====
-- Laws of the statements on the table `orders`, read through `lookup`.
use inno_taxi.Base.{String, Option, none, some, Bool, List, [], ◌∷◌, ◌++◌, ◌≡◌, refl, arith, eq_iff}
use inno_taxi.Base.Tests.{◌==◌, if◌then◌else◌}
use inno_taxi.Order.Entity.{Order}
use inno_taxi.Order.Repository.{lookup, update_where, updated_row}

module _ {F : Type 0} where
  -- A row that is found has the key that was asked for.
  pub lookup-id : (k : String) (os : List (Order F)) (o : Order F) → lookup k os ≡ some o → o.id ≡ k
  unfolding lookup
  lookup-id k [] o h = ground arith
  lookup-id k (x ∷ os) o h = ground (arith, eq_iff x.id k, lookup-id k os o)

  abbrev pub on_match : (Order F → Bool) → (Order F → Order F) → Option (Order F) → Option (Order F)
  on_match cond f none = none
  on_match cond f (some o) = some (if cond o then f o else o)

  -- An update that keeps the key changes the row with that key and no other.
  pub lookup-update_where :
      (j k : String) (cond : Order F → Bool) (f : Order F → Order F) (os : List (Order F))
      → ((o : Order F) → (f o).id ≡ o.id)
      → lookup j (update_where k cond f os)
        ≡ (if k == j then on_match cond f (lookup j os) else lookup j os)
  unfolding lookup update_where
  lookup-update_where j k cond f [] keep = ground arith
  lookup-update_where j k cond f (o ∷ os) keep = ground (
    arith,
    keep o,
    eq_iff o.id k,
    eq_iff o.id j,
    eq_iff k j,
    lookup-update_where j k cond f os keep,
  )

  abbrev pub row_after :
      (Order F → Bool) → (Order F → Order F) → Option (Order F) → Option (Order F)
  row_after cond f none = none
  row_after cond f (some o) = if cond o then some (f o) else none

  -- What `RETURNING` gives back is the row as changed.
  pub updated_row_lem :
      (k : String) (cond : Order F → Bool) (f : Order F → Order F) (os : List (Order F))
      → updated_row k cond f os ≡ row_after cond f (lookup k os)
  unfolding lookup updated_row
  updated_row_lem k cond f [] = refl
  updated_row_lem k cond f (o ∷ os) = ground (arith, updated_row_lem k cond f os)

  abbrev pub or_else : Option (Order F) → Option (Order F) → Option (Order F)
  or_else none d = d
  or_else (some o) d = some o

  -- An inserted row is found by its key unless an older one was there.
  pub lookup-append :
      (j : String) (os : List (Order F)) (o : Order F)
      → lookup j (os ++ o ∷ []) ≡ or_else (lookup j os) (if o.id == j then some o else none)
  unfolding lookup
  lookup-append j [] o = refl
  lookup-append j (x ∷ os) o = ground (arith, lookup-append j os o)
