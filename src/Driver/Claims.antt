-- ===== src/Driver/Claims.antt =====
-- Who may be claimed: `ClaimAvailableDriver` against the other requests.
use inno_taxi.Base.{
  ℕ, String, some, List, [], ◌∷◌, ◌++◌, ◌≡◌, ◌≢◌, refl, sym, ap, ◌∙◌, ◌⊎◌, inl, inr, arith, eq_iff,
}
use mathlib.Core.Path.{subst}
use inno_taxi.Base.Action.{ok}
use inno_taxi.Base.Lists.{All}
use inno_taxi.Base.Tests.{◌==◌, Bool-cases, ==_eq, clash}
use inno_taxi.Driver.Entity.{TaxiType, Status, status_available, status_on_trip, Driver}
use inno_taxi.Driver.Repository.{
  Env, World, update_one, is_free, on_trip, claim_first, claimed_row, create_driver_row,
  update_status_row, update_taxi_type_row, claim_row, find_by_status_rows, new_driver,
}
use inno_taxi.Driver.Service.{
  create_driver, claim_available_driver, get_drivers_by_status, update_status_by_user,
  update_taxi_type_by_user,
}
use inno_taxi.Driver.Requests.{
  Request, register, claim, set_status, set_taxi_type, list_status, LeavesAlone, handle, run,
}

-- Every document of the user is on a trip.
abbrev pub IsBusy : String → List Driver → Type 0
IsBusy u ds = All (λ x. x.user_id ≡ u → x.status ≡ status_on_trip) ds

-- The index on `user_id`.
abbrev pub HasUniqueUsers : List Driver → Type 0
HasUniqueUsers [] = Unit
HasUniqueUsers (x ∷ xs) = All (λ y. y.user_id ≢ x.user_id) xs × HasUniqueUsers xs

module _ (t : TaxiType) (now : ℕ) where
  claimed_row-other :
      (u : String) (ds : List Driver) (d : Driver)
      → claimed_row t now ds ≡ some d
      → All (λ y. y.user_id ≢ u) ds
      → d.user_id ≢ u
  unfolding claimed_row
  claimed_row-other u [] d h ps = absurd (ground (arith, h))
  claimed_row-other u (x ∷ xs) d h (p, ps) = elim (Bool-cases (is_free t x)) [
    | inl free ↦
        (let here : on_trip now x ≡ d = ground (arith, rw free at h) in
          subst (λ (y : Driver). y.user_id ≢ u) here p)
    | inr taken ↦ claimed_row-other u xs d (rw taken at h) ps
  ]

  -- A busy driver is not the one claimed.
  claimed_row-IsBusy :
      (u : String) (ds : List Driver) (d : Driver)
      → claimed_row t now ds ≡ some d
      → IsBusy u ds
      → d.user_id ≢ u
  unfolding claimed_row
  claimed_row-IsBusy u [] d h ps = absurd (ground (arith, h))
  claimed_row-IsBusy u (x ∷ xs) d h (p, ps) = elim (Bool-cases (is_free t x)) [
    | inl free ↦ (λ same.
        let here : on_trip now x ≡ d = ground (arith, rw free at h) in
        clash status_available status_on_trip refl
          (ground (arith, free, eq_iff x.status status_available))
          (p (ap (λ (y : Driver). y.user_id) here ∙ same)))
    | inr taken ↦ claimed_row-IsBusy u xs d (rw taken at h) ps
  ]

  -- The one claimed is busy from then on.
  claim_first-IsBusy :
      (ds : List Driver) (d : Driver)
      → claimed_row t now ds ≡ some d
      → HasUniqueUsers ds
      → IsBusy d.user_id (claim_first t now ds)
  unfolding claimed_row claim_first
  claim_first-IsBusy [] d h ps = absurd (ground (arith, h))
  claim_first-IsBusy (x ∷ xs) d h (p, ps) = elim (Bool-cases (is_free t x)) [
    | inl free ↦
        (let here : on_trip now x ≡ d = ground (arith, rw free at h) in
          rw free (
            subst (λ (y : Driver). IsBusy y.user_id (on_trip now x ∷ xs)) here
              ((λ same. refl), others x.user_id xs p)))
    | inr taken ↦ rw taken (
      (λ same. absurd (claimed_row-other x.user_id xs d (rw taken at h) p (sym same))),
      claim_first-IsBusy xs d (rw taken at h) ps,
    )
  ]
    where
      others : (u : String) (ys : List Driver) → All (λ y. y.user_id ≢ u) ys → IsBusy u ys
      others u [] qs = tt
      others u (y ∷ ys) (q, qs) = ((λ same. absurd (q same)), others u ys qs)

abbrev Busy : String → Driver → Type 0
Busy u x = x.user_id ≡ u → x.status ≡ status_on_trip

update_one-IsBusy :
    (u v : String) (f : Driver → Driver) (ds : List Driver)
    → ((x : Driver) → x.user_id ≡ v → Busy u x → Busy u (f x))
    → IsBusy u ds
    → IsBusy u (update_one v f ds)
unfolding update_one
update_one-IsBusy u v f [] step ps = tt
update_one-IsBusy u v f (x ∷ xs) step (p, ps) = elim (Bool-cases (x.user_id == v)) [
  | inl same ↦ rw same (step x (==_eq x.user_id v same) p, ps)
  | inr other ↦ rw other (p, update_one-IsBusy u v f xs step ps)
]

claim_first-keeps :
    (u : String) (t : TaxiType) (now : ℕ) (ds : List Driver)
    → IsBusy u ds
    → IsBusy u (claim_first t now ds)
unfolding claim_first
claim_first-keeps u t now [] ps = tt
claim_first-keeps u t now (x ∷ xs) (p, ps) = elim (Bool-cases (is_free t x)) [
  | inl free ↦ rw free ((λ same. refl), ps)
  | inr taken ↦ rw taken (p, claim_first-keeps u t now xs ps)
]

append-IsBusy :
    (u : String) (ds : List Driver) (x : Driver)
    → x.user_id ≢ u
    → IsBusy u ds
    → IsBusy u (ds ++ x ∷ [])
append-IsBusy u [] x h ps = ((λ same. absurd (h same)), tt)
append-IsBusy u (y ∷ ds) x h (p, ps) = (p, append-IsBusy u ds x h ps)

-- A change of the collection that a command may have made.
abbrev MayBecome : List Driver → List Driver → List Driver → Type 0
MayBecome ds changed ds' = (ds' ≡ ds) ⊎ (ds' ≡ changed)

either-IsBusy :
    (u : String) (ds changed ds' : List Driver)
    → MayBecome ds changed ds'
    → IsBusy u ds
    → IsBusy u changed
    → IsBusy u ds'
either-IsBusy u ds changed ds' (inl same) h h' = subst (λ xs. IsBusy u xs) (sym same) h
either-IsBusy u ds changed ds' (inr same) h h' = subst (λ xs. IsBusy u xs) (sym same) h'

module _ (e : Env) where
  create_driver-drivers :
      (u : String) (t : TaxiType) (w : World)
      → MayBecome w.drivers (w.drivers ++ new_driver e u t w ∷ []) (create_driver e u t w).1.drivers
  unfolding create_driver create_driver_row
  create_driver-drivers u t w = ground arith

  claim-drivers :
      (t : TaxiType) (w : World)
      → MayBecome w.drivers
          (claim_first t (e.now w.commands) w.drivers)
          (claim_available_driver e t w).1.drivers
  unfolding claim_available_driver claim_row
  claim-drivers t w = ground arith

  set_status-drivers :
      (u : String) (s : Status) (w : World)
      → MayBecome w.drivers
          (update_one u (λ x. record x { status = s; updated_at = e.now w.commands }) w.drivers)
          (update_status_by_user e u s w).1.drivers
  unfolding update_status_by_user update_status_row
  set_status-drivers u s w = ground arith

  set_taxi_type-drivers :
      (u : String) (t : TaxiType) (w : World)
      → MayBecome w.drivers
          (update_one u (λ x. record x { taxi_type = t; updated_at = e.now w.commands }) w.drivers)
          (update_taxi_type_by_user e u t w).1.drivers
  unfolding update_taxi_type_by_user update_taxi_type_row
  set_taxi_type-drivers u t w = ground arith

  list_status-drivers :
      (s : Status) (w : World) → (get_drivers_by_status e s w).1.drivers ≡ w.drivers
  unfolding get_drivers_by_status find_by_status_rows
  list_status-drivers s w = ground arith

  claim-ok :
      (t : TaxiType) (w : World) (d : Driver)
      → (claim_available_driver e t w).0 ≡ ok d
      → (claimed_row t (e.now w.commands) w.drivers ≡ some d)
        × ((claim_available_driver e t w).1.drivers ≡ claim_first t (e.now w.commands) w.drivers)
  unfolding claim_available_driver claim_row
  claim-ok t w d h = ground arith

  handle-IsBusy :
      (u : String) (q : Request) (w : World)
      → LeavesAlone u q
      → IsBusy u w.drivers
      → IsBusy u (handle e q w).drivers
  unfolding handle
  handle-IsBusy u (register v t) w other h =
      either-IsBusy u w.drivers _ _ (create_driver-drivers v t w) h
        (append-IsBusy u w.drivers (new_driver e v t w) other h)
  handle-IsBusy u (claim t) w alone h =
      either-IsBusy u w.drivers _ _ (claim-drivers t w) h
        (claim_first-keeps u t (e.now w.commands) w.drivers h)
  handle-IsBusy u (set_status v s) w other h =
      either-IsBusy u w.drivers _ _ (set_status-drivers v s w) h
        (update_one-IsBusy u v _ w.drivers (λ x mine busy same. absurd (other (sym mine ∙ same))) h)
  handle-IsBusy u (set_taxi_type v t) w alone h =
      either-IsBusy u w.drivers _ _ (set_taxi_type-drivers v t w) h
        (update_one-IsBusy u v _ w.drivers (λ x mine busy same. busy same) h)
  handle-IsBusy u (list_status s) w alone h =
      subst (λ xs. IsBusy u xs) (sym (list_status-drivers s w)) h

  run-IsBusy :
      (u : String) (qs : List Request) (w : World)
      → All (LeavesAlone u) qs
      → IsBusy u w.drivers
      → IsBusy u (run e qs w).drivers
  unfolding run
  run-IsBusy u [] w alone h = h
  run-IsBusy u (q ∷ qs) w (a, alone) h =
      run-IsBusy u qs (handle e q w) alone (handle-IsBusy u q w a h)

  -- Where users are unique, a driver who has been claimed is not claimed again, whatever requests and
  -- failures come between, as long as none of the requests sets that driver's status or registers
  -- that user.
  pub claim-exclusive :
      (t t' : TaxiType) (qs : List Request) (w : World) (d d' : Driver)
      → HasUniqueUsers w.drivers
      → (claim_available_driver e t w).0 ≡ ok d
      → All (LeavesAlone d.user_id) qs
      → (claim_available_driver e t' (run e qs (claim_available_driver e t w).1)).0 ≡ ok d'
      → d'.user_id ≢ d.user_id
  claim-exclusive t t' qs w d d' unique first alone second =
      let v = (claim_available_driver e t w).1 in
      let (row, after) = claim-ok t w d first in
      let busy : IsBusy d.user_id v.drivers =
        subst (λ xs. IsBusy d.user_id xs) (sym after)
          (claim_first-IsBusy t (e.now w.commands) w.drivers d row unique) in
      claimed_row-IsBusy t' (e.now (run e qs v).commands) d.user_id (run e qs v).drivers d'
        (claim-ok t' (run e qs v) d' second).0 (run-IsBusy d.user_id qs v alone busy)
