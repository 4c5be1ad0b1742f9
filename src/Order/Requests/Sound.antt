-- ===== src/Order/Requests/Sound.antt =====
-- What every row of `orders` satisfies, whatever requests were served.
use inno_taxi.Base.{
  String, Option, none, some, Bool, true, List, [], ◌∷◌, ◌++◌, ◌≡◌, refl, ◌⊎◌, inl, inr, arith, ℕ,
}
use mathlib.Core.Path.{subst}
use inno_taxi.Base.Int.{ℤ, pos, ◌≤ℤ◌}
use inno_taxi.Base.Tests.{◌==◌, Bool-cases, Option-cases, ==_eq, ==_self, clash, some_unique}
use inno_taxi.Order.Entity.{
  Order, Status, status_created, status_driver_assigned, status_in_progress, status_completed,
  status_cancelled,
}
use inno_taxi.Order.Pricing.{FloatOps}
use inno_taxi.Order.World.{Env, World}
use inno_taxi.Order.Repository.{
  lookup, update_where, always, is_unrated, set_status, set_driver, set_rating, inserted_row,
}
use inno_taxi.Order.Repository.Laws.{lookup-update_where, lookup-append}
use inno_taxi.Order.Spec.{
  Effect, unchanged, moved, rated, added, assigned, ◌⟶◌, begin_trip, finish_trip, drop_created,
  drop_assigned,
}
use inno_taxi.Order.Requests.{Request, handle, run, handle-Effect}

-- The status is one of the five, there is a driver exactly where the status says so (a cancelled
-- order may have had one), and only a completed order is rated, by 1 to 5.
pub data RowIsSound {F : Type 0} (o : Order F) : Type 0 where
  created : o.status ≡ status_created → o.driver_id ≡ none → o.rating ≡ none → RowIsSound o
  taken :
      (d : String)
      → o.status ≡ status_driver_assigned
      → o.driver_id ≡ some d
      → o.rating ≡ none
      → RowIsSound o
  riding :
      (d : String)
      → o.status ≡ status_in_progress
      → o.driver_id ≡ some d
      → o.rating ≡ none
      → RowIsSound o
  completed :
      (d : String)
      → o.status ≡ status_completed
      → o.driver_id ≡ some d
      → (o.rating ≡ none) ⊎ ((r : ℤ) × (o.rating ≡ some r) × (pos 1 ≤ℤ r) × (r ≤ℤ pos 5))
      → RowIsSound o
  cancelled : o.status ≡ status_cancelled → o.rating ≡ none → RowIsSound o

abbrev pub TableIsSound : {F : Type 0} → List (Order F) → Type 0
TableIsSound {F} os = (k : String) (o : Order F) → lookup k os ≡ some o → RowIsSound o

module _ {F : Type 0} where
  move-RowIsSound :
      (o : Order F) (s : Status) (t : ℕ)
      → RowIsSound o
      → ◌⟶◌ o.status s
      → RowIsSound (set_status s t o)
  move-RowIsSound o s t (created a b c) (begin_trip p q) =
      absurd (clash status_created status_driver_assigned refl a p)
  move-RowIsSound o s t (created a b c) (finish_trip p q) =
      absurd (clash status_created status_in_progress refl a p)
  move-RowIsSound o s t (created a b c) (drop_created p q) = cancelled q c
  move-RowIsSound o s t (created a b c) (drop_assigned p q) =
      absurd (clash status_created status_driver_assigned refl a p)
  move-RowIsSound o s t (taken d a b c) (begin_trip p q) = riding d q b c
  move-RowIsSound o s t (taken d a b c) (finish_trip p q) =
      absurd (clash status_driver_assigned status_in_progress refl a p)
  move-RowIsSound o s t (taken d a b c) (drop_created p q) =
      absurd (clash status_driver_assigned status_created refl a p)
  move-RowIsSound o s t (taken d a b c) (drop_assigned p q) = cancelled q c
  move-RowIsSound o s t (riding d a b c) (begin_trip p q) =
      absurd (clash status_in_progress status_driver_assigned refl a p)
  move-RowIsSound o s t (riding d a b c) (finish_trip p q) = completed d q b (inl c)
  move-RowIsSound o s t (riding d a b c) (drop_created p q) =
      absurd (clash status_in_progress status_created refl a p)
  move-RowIsSound o s t (riding d a b c) (drop_assigned p q) =
      absurd (clash status_in_progress status_driver_assigned refl a p)
  move-RowIsSound o s t (completed d a b c) (begin_trip p q) =
      absurd (clash status_completed status_driver_assigned refl a p)
  move-RowIsSound o s t (completed d a b c) (finish_trip p q) =
      absurd (clash status_completed status_in_progress refl a p)
  move-RowIsSound o s t (completed d a b c) (drop_created p q) =
      absurd (clash status_completed status_created refl a p)
  move-RowIsSound o s t (completed d a b c) (drop_assigned p q) =
      absurd (clash status_completed status_driver_assigned refl a p)
  move-RowIsSound o s t (cancelled a b) (begin_trip p q) =
      absurd (clash status_cancelled status_driver_assigned refl a p)
  move-RowIsSound o s t (cancelled a b) (finish_trip p q) =
      absurd (clash status_cancelled status_in_progress refl a p)
  move-RowIsSound o s t (cancelled a b) (drop_created p q) =
      absurd (clash status_cancelled status_created refl a p)
  move-RowIsSound o s t (cancelled a b) (drop_assigned p q) =
      absurd (clash status_cancelled status_driver_assigned refl a p)

  -- A row after an update is the old row, or that of the key as changed.
  update-cases :
      (j k : String) (cond : Order F → Bool) (f : Order F → Order F) (os : List (Order F))
      (o' : Order F)
      → ((o : Order F) → (f o).id ≡ o.id)
      → lookup j (update_where k cond f os) ≡ some o'
      → (lookup j os ≡ some o')
        ⊎ ((o : Order F) × (lookup k os ≡ some o) × (cond o ≡ true) × (k ≡ j) × (f o ≡ o'))
  update-cases j k cond f os o' keep h = elim (Bool-cases (k == j)) [
    | inl same ↦ elim (Option-cases (lookup j os)) [
      | inl missing ↦ inl (ground (arith, lookup-update_where j k cond f os keep))
      | inr (o, found) ↦ elim (Bool-cases (cond o)) [
        | inl fits ↦ inr (
          o,
          rw (==_eq k j same) found,
          fits,
          ==_eq k j same,
          ground (arith, lookup-update_where j k cond f os keep),
        )
        | inr not_fits ↦ inl (ground (arith, lookup-update_where j k cond f os keep))
      ]
    ]
    | inr other ↦ inl (ground (arith, lookup-update_where j k cond f os keep))
  ]

  update-TableIsSound :
      (k : String) (cond : Order F → Bool) (f : Order F → Order F) (os : List (Order F))
      → ((o : Order F) → (f o).id ≡ o.id)
      → TableIsSound os
      → ((o : Order F) → lookup k os ≡ some o → cond o ≡ true → RowIsSound (f o))
      → TableIsSound (update_where k cond f os)
  update-TableIsSound k cond f os keep sound step j o' h =
      elim (update-cases j k cond f os o' keep h) [
        | inl old ↦ sound j o' old
        | inr (o, found, fits, same, changed) ↦ rw (← changed) (step o found fits)
      ]

  append-TableIsSound :
      (os : List (Order F)) (o : Order F)
      → TableIsSound os
      → RowIsSound o
      → TableIsSound (os ++ o ∷ [])
  append-TableIsSound os o sound new j o' h = elim (Option-cases (lookup j os)) [
    | inl missing ↦ subst RowIsSound (ground (arith, lookup-append j os o)) new
    | inr (x, found) ↦ sound j o' (ground (arith, lookup-append j os o))
  ]

  -- The row that a rating finds is completed and unrated, and its driver stays.
  rate-RowIsSound :
      (o : Order F) (r : ℤ) (c : Option String) (t : ℕ)
      → RowIsSound o
      → o.status ≡ status_completed
      → pos 1 ≤ℤ r
      → r ≤ℤ pos 5
      → RowIsSound (set_rating r c t o)
  rate-RowIsSound o r c t (created a b n) done low high =
      absurd (clash status_created status_completed refl a done)
  rate-RowIsSound o r c t (taken d a b n) done low high =
      absurd (clash status_driver_assigned status_completed refl a done)
  rate-RowIsSound o r c t (riding d a b n) done low high =
      absurd (clash status_in_progress status_completed refl a done)
  rate-RowIsSound o r c t (completed d a b n) done low high =
      completed d a b (inr (r, refl, low, high))
  rate-RowIsSound o r c t (cancelled a n) done low high =
      absurd (clash status_cancelled status_completed refl a done)

  -- Every change of `Effect` keeps the rows sound.
  Effect-TableIsSound :
      {os os' : List (Order F)} → Effect os os' → TableIsSound os → TableIsSound os'
  Effect-TableIsSound (unchanged e) h = rw e h
  Effect-TableIsSound {os} (moved k s t o found edge e) h = rw e (
      update-TableIsSound k always (set_status s t) os (λ x. refl) h
        (λ x hx fits.
          move-RowIsSound x s t (h k x hx)
            (subst (λ (y : Order F). ◌⟶◌ y.status s) (some_unique found hx) edge)))
  Effect-TableIsSound {os} (rated k r c t o found done low high e) h = rw e (
      update-TableIsSound k is_unrated (set_rating r c t) os (λ x. refl) h
        (λ x hx fits.
          rate-RowIsSound x r c t (h k x hx)
            (subst (λ (y : Order F). y.status ≡ status_completed) (some_unique found hx) done) low
            high))
  Effect-TableIsSound {os} (added k p input t free e) h =
      rw e (append-TableIsSound os (inserted_row k p input t) h (created refl refl refl))
  Effect-TableIsSound {os} (assigned k p input t d t' free e) h = rw e (
      update-TableIsSound k always (set_driver d t') (os ++ inserted_row k p input t ∷ [])
        (λ x. refl) (append-TableIsSound os (inserted_row k p input t) h (created refl refl refl))
        (λ x hx fits.
          taken d refl refl
            (ground (arith, free, lookup-append k os (inserted_row k p input t), ==_self k))))

module _ {F : Type 0} (fl : FloatOps F) (e : Env F) where
  -- From a table with sound rows, any requests in any order, with any failures of the database and
  -- the other services, leave a table with sound rows.
  pub run-TableIsSound :
      (rs : List (Request F)) (w : World F)
      → TableIsSound w.orders
      → TableIsSound (run fl e rs w).orders
  unfolding run
  run-TableIsSound [] w h = h
  run-TableIsSound (r ∷ rs) w h =
      run-TableIsSound rs (handle fl e r w) (Effect-TableIsSound (handle-Effect fl e r w) h)
