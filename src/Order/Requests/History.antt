-- ===== src/Order/Requests/History.antt =====
-- What becomes of one order over a sequence of requests.
use inno_taxi.Base.{
  String, Option, none, some, Bool, true, List, [], ◌∷◌, ◌++◌, ◌≡◌, refl, ◌∙◌, ◌⊎◌, inl, inr, arith,
  ℕ,
}
use mathlib.Core.Path.{subst}
use inno_taxi.Base.Int.{ℤ}
use inno_taxi.Base.Tests.{◌==◌, Bool-cases, ==_eq, clash, some_unique}
use inno_taxi.Order.Entity.{
  Order, Status, status_created, status_driver_assigned, status_in_progress, status_completed,
  status_cancelled,
}
use inno_taxi.Order.Pricing.{FloatOps}
use inno_taxi.Order.World.{Env, World}
use inno_taxi.Order.Repository.{
  lookup, update_where, always, is_unrated, set_status, set_driver, set_rating, inserted_row,
}
use inno_taxi.Order.Repository.Laws.{lookup-update_where, lookup-append}
use inno_taxi.Order.Spec.{
  Effect, unchanged, moved, rated, added, assigned, ◌⟶◌, begin_trip, finish_trip, drop_created,
  drop_assigned,
}
use inno_taxi.Order.Requests.{Request, handle, run, handle-Effect}

-- Some moves along the lifecycle.
pub data ◌⟶*◌ : Status → Status → Type 0 where
  here : {s : Status} → ◌⟶*◌ s s
  next : {s t u : Status} → ◌⟶◌ s t → ◌⟶*◌ t u → ◌⟶*◌ s u

-- A later state of one order: its identity, owner, route and price stay, the driver stays, the
-- status has moved along the lifecycle, and a rating once given stays.
pub record Evolves {F : Type 0} (o o' : Order F) : Type 0 where
  pub same_id : o'.id ≡ o.id
  pub same_user : o'.user_id ≡ o.user_id
  pub same_driver : o'.driver_id ≡ o.driver_id
  pub same_taxi_type : o'.taxi_type ≡ o.taxi_type
  pub same_start : o'.start ≡ o.start
  pub same_destination : o'.destination ≡ o.destination
  pub same_price : o'.price_minor_units ≡ o.price_minor_units
  pub same_created : o'.created_at ≡ o.created_at
  pub status_moves : ◌⟶*◌ o.status o'.status
  pub rating_stays : (o.rating ≡ none) ⊎ (o'.rating ≡ o.rating)

⟶*-trans : {s t u : Status} → ◌⟶*◌ s t → ◌⟶*◌ t u → ◌⟶*◌ s u
⟶*-trans here q = q
⟶*-trans (next a p) q = next a (⟶*-trans p q)

module _ {F : Type 0} where
  Evolves-refl : (o : Order F) → Evolves o o
  Evolves-refl o = record {
    same_id = refl;
    same_user = refl;
    same_driver = refl;
    same_taxi_type = refl;
    same_start = refl;
    same_destination = refl;
    same_price = refl;
    same_created = refl;
    status_moves = here;
    rating_stays = inr refl;
  }

  Evolves-trans : (o p q : Order F) → Evolves o p → Evolves p q → Evolves o q
  Evolves-trans o p q a b = record {
    same_id = b.same_id ∙ a.same_id;
    same_user = b.same_user ∙ a.same_user;
    same_driver = b.same_driver ∙ a.same_driver;
    same_taxi_type = b.same_taxi_type ∙ a.same_taxi_type;
    same_start = b.same_start ∙ a.same_start;
    same_destination = b.same_destination ∙ a.same_destination;
    same_price = b.same_price ∙ a.same_price;
    same_created = b.same_created ∙ a.same_created;
    status_moves = ⟶*-trans a.status_moves b.status_moves;
    rating_stays = ground (arith, a.rating_stays, b.rating_stays);
  }

  -- The order under a key is still there, and is a later state of itself.
  abbrev pub Keeps : List (Order F) → List (Order F) → Type 0
  Keeps os os' =
      (j : String) (o : Order F)
      → lookup j os ≡ some o
      → (o' : Order F) × (lookup j os' ≡ some o') × Evolves o o'

  update-Keeps :
      (k : String) (cond : Order F → Bool) (f : Order F → Order F) (os : List (Order F))
      → ((o : Order F) → (f o).id ≡ o.id)
      → ((o : Order F) → lookup k os ≡ some o → cond o ≡ true → Evolves o (f o))
      → Keeps os (update_where k cond f os)
  update-Keeps k cond f os keep step j o h = elim (Bool-cases (k == j)) [
    | inl same ↦ elim (Bool-cases (cond o)) [
      | inl fits ↦ (
        f o,
        ground (arith, lookup-update_where j k cond f os keep),
        step o (rw (==_eq k j same) h) fits,
      )
      | inr not_fits ↦ (o, ground (arith, lookup-update_where j k cond f os keep), Evolves-refl o)
    ]
    | inr other ↦ (o, ground (arith, lookup-update_where j k cond f os keep), Evolves-refl o)
  ]

  append-Keeps : (os : List (Order F)) (o : Order F) → Keeps os (os ++ o ∷ [])
  append-Keeps os new j o h = (o, ground (arith, lookup-append j os new), Evolves-refl o)

  -- The driver is set on the row just added, whose key was free.
  assign-Keeps :
      (k d : String) (t : ℕ) (os : List (Order F)) (new : Order F)
      → lookup k os ≡ none
      → Keeps os (update_where k always (set_driver d t) (os ++ new ∷ []))
  assign-Keeps k d t os new free j o h = elim (Bool-cases (k == j)) [
    | inl same ↦ cc (==_eq k j same)
    | inr other ↦ (
      o,
      ground (
        arith,
        lookup-append j os new,
        lookup-update_where j k always (set_driver d t) (os ++ new ∷ []) (λ x. refl),
      ),
      Evolves-refl o,
    )
  ]

  move-Evolves : (o : Order F) (s : Status) (t : ℕ) → ◌⟶◌ o.status s → Evolves o (set_status s t o)
  move-Evolves o s t edge = record {
    same_id = refl;
    same_user = refl;
    same_driver = refl;
    same_taxi_type = refl;
    same_start = refl;
    same_destination = refl;
    same_price = refl;
    same_created = refl;
    status_moves = next edge here;
    rating_stays = inr refl;
  }

  rate-Evolves :
      (o : Order F) (r : ℤ) (c : Option String) (t : ℕ)
      → is_unrated o ≡ true
      → Evolves o (set_rating r c t o)
  rate-Evolves o r c t unrated = record {
    same_id = refl;
    same_user = refl;
    same_driver = refl;
    same_taxi_type = refl;
    same_start = refl;
    same_destination = refl;
    same_price = refl;
    same_created = refl;
    status_moves = here;
    rating_stays = inl (ground arith);
  }

  Effect-Keeps : {os os' : List (Order F)} → Effect os os' → Keeps os os'
  Effect-Keeps (unchanged e) = λ j o h. (o, rw e h, Evolves-refl o)
  Effect-Keeps {os} (moved k s t o found edge e) = rw e (
      update-Keeps k always (set_status s t) os (λ x. refl)
        (λ x hx fits.
          move-Evolves x s t (subst (λ (y : Order F). ◌⟶◌ y.status s) (some_unique found hx) edge)))
  Effect-Keeps {os} (rated k r c t o found done low high e) = rw e (
      update-Keeps k is_unrated (set_rating r c t) os (λ x. refl)
        (λ x hx fits. rate-Evolves x r c t fits))
  Effect-Keeps {os} (added k p input t free e) = rw e (append-Keeps os (inserted_row k p input t))
  Effect-Keeps {os} (assigned k p input t d t' free e) =
      rw e (assign-Keeps k d t' os (inserted_row k p input t) free)

module _ {F : Type 0} (fl : FloatOps F) (e : Env F) where
  -- Any requests in any order, with any failures outside, keep every order: it is found under its
  -- key, with its owner, driver, route and price, its status has only moved along the lifecycle, and
  -- a rating once given is unchanged.
  pub run-Keeps : (rs : List (Request F)) (w : World F) → Keeps w.orders (run fl e rs w).orders
  unfolding run
  run-Keeps [] w j o h = (o, h, Evolves-refl o)
  run-Keeps (r ∷ rs) w j o h =
      let first = Effect-Keeps (handle-Effect fl e r w) j o h in
      let rest = run-Keeps rs (handle fl e r w) j first.0 first.1 in
      (rest.0, rest.1, Evolves-trans o first.0 rest.0 first.2 rest.2)

abbrev pub IsFinal : Status → Type 0
IsFinal s = (s ≡ status_completed) ⊎ (s ≡ status_cancelled)

no_way_on : {s t : Status} → IsFinal s → ◌⟶◌ s t → ⊥
no_way_on (inl f) (begin_trip p q) = clash status_completed status_driver_assigned refl f p
no_way_on (inl f) (finish_trip p q) = clash status_completed status_in_progress refl f p
no_way_on (inl f) (drop_created p q) = clash status_completed status_created refl f p
no_way_on (inl f) (drop_assigned p q) = clash status_completed status_driver_assigned refl f p
no_way_on (inr f) (begin_trip p q) = clash status_cancelled status_driver_assigned refl f p
no_way_on (inr f) (finish_trip p q) = clash status_cancelled status_in_progress refl f p
no_way_on (inr f) (drop_created p q) = clash status_cancelled status_created refl f p
no_way_on (inr f) (drop_assigned p q) = clash status_cancelled status_driver_assigned refl f p

final_stays : {s t : Status} → IsFinal s → ◌⟶*◌ s t → t ≡ s
final_stays f here = refl
final_stays f (next a p) = absurd (no_way_on f a)

module _ {F : Type 0} (fl : FloatOps F) (e : Env F) where
  -- A completed or cancelled order has that status after any further requests.
  pub run-final_status :
      (rs : List (Request F)) (w : World F) (k : String) (o : Order F)
      → lookup k w.orders ≡ some o
      → IsFinal o.status
      → (o' : Order F) × (lookup k (run fl e rs w).orders ≡ some o')
        × (o'.status ≡ o.status)
        × (o'.driver_id ≡ o.driver_id)
  run-final_status rs w k o h f =
      let kept = run-Keeps fl e rs w k o h in
      (kept.0, kept.1, final_stays f kept.2.status_moves, kept.2.same_driver)
