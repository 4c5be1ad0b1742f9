-- ===== src/Registration/Registered.antt =====
-- Which drivers have a profile once their registrations are consumed.
use inno_taxi.Base.{
  String, none, some, List, [], ◌∷◌, ◌++◌, ◌≡◌, ◌≢◌, refl, sym, ◌∙◌, ◌⊎◌, inl, inr, arith,
}
use mathlib.Core.Path.{subst}
use inno_taxi.Base.Lists.{All, append_nil, append_assoc}
use inno_taxi.Base.Tests.{◌==◌, Bool-cases, Option-cases, ==_ne, ==_self}
use inno_taxi.Driver.Entity.{Driver, is_valid_taxi_type}
use inno_taxi.Driver.Repository.{
  Command, insert_driver, no_fault, Env, World, lookup, new_driver, create_driver_row,
}
use inno_taxi.Driver.Service.{create_driver}
use inno_taxi.Driver.Claims.{HasUniqueUsers}
use inno_taxi.Registration.{Message, consume_claim, default_taxi_type, handle_driver_message}

abbrev pub HasProfile : String → List Driver → Type 0
HasProfile u ds = (d : Driver) × (lookup u ds ≡ some d)

-- A message that registers a driver has led to a profile.
abbrev pub IsServed : List Driver → Message → Type 0
IsServed ds none = Unit
IsServed ds (some event) = (event.role ≢ "driver") ⊎ HasProfile event.user_id ds

lookup-none :
    (u : String) (ds : List Driver) (x : Driver)
    → lookup u ds ≡ none
    → x.user_id ≡ u
    → HasUniqueUsers ds
    → HasUniqueUsers (ds ++ x ∷ [])
unfolding lookup
lookup-none u [] x h same ps = (tt, tt)
lookup-none u (y ∷ ds) x h same (p, ps) = elim (Bool-cases (y.user_id == u)) [
  | inl mine ↦ absurd (ground (arith, rw mine at h))
  | inr other ↦ (
    last ds (λ q. ==_ne y.user_id u other (sym q ∙ same)) p,
    lookup-none u ds x (rw other at h) same ps,
  )
]
  where
    last :
        (zs : List Driver)
        → x.user_id ≢ y.user_id
        → All (λ z. z.user_id ≢ y.user_id) zs
        → All (λ z. z.user_id ≢ y.user_id) (zs ++ x ∷ [])
    last [] q qs = (q, tt)
    last (z ∷ zs) q (r, rs) = (r, last zs q rs)

-- Who has a profile keeps it when another joins, who gets one.
lookup-keeps :
    (u : String) (ds : List Driver) (x : Driver) → HasProfile u ds → HasProfile u (ds ++ x ∷ [])
unfolding lookup
lookup-keeps u [] x (d, h) = absurd (ground (arith, h))
lookup-keeps u (y ∷ ds) x (d, h) = elim (Bool-cases (y.user_id == u)) [
  | inl mine ↦ (y, rw mine refl)
  | inr other ↦ (let (d', h') = lookup-keeps u ds x (d, rw other at h) in (d', rw other h'))
]

lookup-joined : (ds : List Driver) (x : Driver) → HasProfile x.user_id (ds ++ x ∷ [])
unfolding lookup
lookup-joined [] x = (x, rw (==_self x.user_id) refl)
lookup-joined (y ∷ ds) x = elim (Bool-cases (y.user_id == x.user_id)) [
  | inl mine ↦ (y, rw mine refl)
  | inr other ↦ (let (d', h') = lookup-joined ds x in (d', rw other h'))
]

module _ (e : Env) (calm : (l : List Command) → e.database l ≡ no_fault) where
  -- Creating a driver, when the database answers: the new document where there was none, or nothing.
  create-joins :
      (u : String) (w : World)
      → lookup u w.drivers ≡ none
      → (create_driver e u default_taxi_type w).1.drivers
        ≡ w.drivers ++ new_driver e u default_taxi_type w ∷ []
  unfolding create_driver create_driver_row is_valid_taxi_type
  create-joins u w h = ground (arith, h, calm (insert_driver u ∷ w.commands))

  create-stays :
      (u : String) (w : World) (d : Driver)
      → lookup u w.drivers ≡ some d
      → (create_driver e u default_taxi_type w).1.drivers ≡ w.drivers
  unfolding create_driver create_driver_row is_valid_taxi_type
  create-stays u w d h = ground (arith, h, calm (insert_driver u ∷ w.commands))

  -- One registration of a driver.
  create-Kept :
      (u : String) (w : World)
      → HasUniqueUsers w.drivers
      → HasUniqueUsers (create_driver e u default_taxi_type w).1.drivers
        × HasProfile u (create_driver e u default_taxi_type w).1.drivers
        × ((v : String)
            → HasProfile v w.drivers
            → HasProfile v (create_driver e u default_taxi_type w).1.drivers)
  create-Kept u w unique = elim (Option-cases (lookup u w.drivers)) [
    | inl missing ↦
        joined (new_driver e u default_taxi_type w) refl missing _ (create-joins u w missing)
    | inr (d, found) ↦ stayed d found _ (create-stays u w d found)
  ]
    where
      Kept : List Driver → Type 0
      Kept ds =
          HasUniqueUsers ds
          × HasProfile u ds
          × ((v : String) → HasProfile v w.drivers → HasProfile v ds)

      joined :
          (x : Driver)
          → x.user_id ≡ u
          → lookup u w.drivers ≡ none
          → (ds : List Driver) → ds ≡ w.drivers ++ x ∷ []
          → Kept ds
      joined x mine missing ds same =
          subst (λ ys. Kept ys) (sym same)
            (
              lookup-none u w.drivers x missing mine unique,
              subst (λ v. HasProfile v (w.drivers ++ x ∷ [])) mine (lookup-joined w.drivers x),
              (λ v. lookup-keeps v w.drivers x),
            )

      stayed :
          (d : Driver) → lookup u w.drivers ≡ some d → (ds : List Driver) → ds ≡ w.drivers → Kept ds
      stayed d found ds same = subst (λ ys. Kept ys) (sym same) (unique, (d, found), (λ v h. h))

  -- One message, whatever it holds.
  handle-Kept :
      (m : Message) (w : World)
      → HasUniqueUsers w.drivers
      → HasUniqueUsers (handle_driver_message e m w).drivers
        × IsServed (handle_driver_message e m w).drivers m
        × ((v : String)
            → HasProfile v w.drivers
            → HasProfile v (handle_driver_message e m w).drivers)
  unfolding handle_driver_message
  handle-Kept none w unique = (unique, tt, (λ v h. h))
  handle-Kept (some event) w unique = elim (Bool-cases (event.role == "driver")) [
    | inl driver ↦ rw driver (
        let (unique', served, keeps) = create-Kept event.user_id w unique in
        (unique', inr served, keeps))
    | inr other ↦ rw other (unique, inl (==_ne event.role "driver" other), (λ v h. h))
  ]

  IsServed-keeps :
      (ds ds' : List Driver) (m : Message)
      → ((v : String) → HasProfile v ds → HasProfile v ds')
      → IsServed ds m
      → IsServed ds' m
  IsServed-keeps ds ds' none keeps h = tt
  IsServed-keeps ds ds' (some event) keeps (inl other) = inl other
  IsServed-keeps ds ds' (some event) keeps (inr profile) = inr (keeps event.user_id profile)

  -- Where users are unique and the database answers, consuming registrations, each any number of
  -- times and in any order, marks every message in its order, keeps users unique, and leaves a
  -- profile for everyone whom one of them registers as a driver.
  pub consume-IsServed :
      (ms marked : List Message) (w : World)
      → HasUniqueUsers w.drivers
      → ((consume_claim (handle_driver_message e) ms (w, marked)).1 ≡ marked ++ ms)
        × HasUniqueUsers (consume_claim (handle_driver_message e) ms (w, marked)).0.drivers
        × All (IsServed (consume_claim (handle_driver_message e) ms (w, marked)).0.drivers) ms
  unfolding consume_claim
  consume-IsServed ms marked w unique = let (a, b, c, d) = consumed ms marked w unique in (a, b, c)
    where
      consumed :
          (ms marked : List Message) (w : World)
          → HasUniqueUsers w.drivers
          → ((consume_claim (handle_driver_message e) ms (w, marked)).1 ≡ marked ++ ms)
            × HasUniqueUsers (consume_claim (handle_driver_message e) ms (w, marked)).0.drivers
            × All (IsServed (consume_claim (handle_driver_message e) ms (w, marked)).0.drivers) ms
            × ((v : String)
                → HasProfile v w.drivers
                → HasProfile v (consume_claim (handle_driver_message e) ms (w, marked)).0.drivers)
      consumed [] marked w unique = (sym (append_nil marked), unique, tt, (λ v h. h))
      consumed (m ∷ ms) marked w unique =
          let w' = handle_driver_message e m w in
          let (unique', served, keeps) = handle-Kept m w unique in
          let (all_marked, unique'', rest, keeps') = consumed ms (marked ++ m ∷ []) w' unique' in
          (
            all_marked ∙ append_assoc marked (m ∷ []) ms,
            unique'',
            (IsServed-keeps w'.drivers _ m keeps' served, rest),
            (λ v h. keeps' v (keeps v h)),
          )
