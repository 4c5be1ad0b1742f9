-- ===== src/Dispatch/Claimed.antt =====
-- What the order service may conclude from the answer of its gateway to the drivers.
use inno_taxi.Base.{
  ℕ, String, Option, none, some, true, false, List, [], ◌∷◌, ◌≡◌, refl, sym, ap, inl, inr, arith,
}
use mathlib.Core.Path.{subst}
use inno_taxi.Base.Action.{Result, ok, err}
use inno_taxi.Base.Lists.{All}
use inno_taxi.Base.Tests.{◌==◌, Bool-cases}
use inno_taxi.Driver.Entity.{
  DriverError, outside, no_available_driver, invalid_taxi_type, TaxiType, is_valid_taxi_type,
  Driver,
}
use inno_taxi.Driver.Repository.{
  claim_driver, Fault, no_fault, request_lost, reply_lost, Env, World, is_free, on_trip,
  claim_first, claimed_row, claim_row, row_or,
}
use inno_taxi.Driver.Service.{claim_available_driver}
use inno_taxi.Driver.Http.{claim_response, Response, post_claim}
use inno_taxi.Dispatch.{
  Network, unreachable, response_lost, delivered, ClaimAnswer, claimed, nobody_free, read_claim,
  gateway_claim,
}

-- The first free driver of the type is taken, and nothing else changes.
pub data Takes (t : TaxiType) (now : ℕ) : String → List Driver → List Driver → Type 0 where
  here :
      (x : Driver) (xs : List Driver)
      → is_free t x ≡ true
      → Takes t now x.user_id (x ∷ xs) (on_trip now x ∷ xs)
  there :
      (x : Driver) (u : String) (xs ys : List Driver)
      → is_free t x ≡ false
      → Takes t now u xs ys
      → Takes t now u (x ∷ xs) (x ∷ ys)

abbrev pub HasNoneFree : TaxiType → List Driver → Type 0
HasNoneFree t ds = All (λ x. is_free t x ≡ false) ds

-- The answer of a claim, and the drivers after it.
pub data ClaimEnds (t : TaxiType) (now : ℕ) (ds : List Driver)
    : Result String ClaimAnswer → List Driver → Type 0 where
  granted :
      (u : String) (ds' : List Driver)
      → Takes t now u ds ds'
      → ClaimEnds t now ds (ok (claimed u)) ds'
  refused : HasNoneFree t ds → ClaimEnds t now ds (ok nobody_free) ds
  failed : (m : String) → ClaimEnds t now ds (err m) ds
  lost : (m u : String) (ds' : List Driver) → Takes t now u ds ds' → ClaimEnds t now ds (err m) ds'

module _ (t : TaxiType) (now : ℕ) where
  claimed_row-Takes :
      (ds : List Driver) (d : Driver)
      → claimed_row t now ds ≡ some d
      → Takes t now d.user_id ds (claim_first t now ds)
  unfolding claimed_row claim_first
  claimed_row-Takes [] d h = absurd (ground (arith, h))
  claimed_row-Takes (x ∷ xs) d h = elim (Bool-cases (is_free t x)) [
    | inl free ↦
        (let same : on_trip now x ≡ d = ground (arith, rw free at h) in
          rw free (
            subst (λ (y : Driver). Takes t now y.user_id (x ∷ xs) (on_trip now x ∷ xs)) same
              (here x xs free)))
    | inr taken ↦ rw taken (there x d.user_id xs _ taken (claimed_row-Takes xs d (rw taken at h)))
  ]

  claimed_row-HasNoneFree :
      (ds : List Driver)
      → claimed_row t now ds ≡ none
      → HasNoneFree t ds × (claim_first t now ds ≡ ds)
  unfolding claimed_row claim_first
  claimed_row-HasNoneFree [] h = (tt, refl)
  claimed_row-HasNoneFree (x ∷ xs) h = elim (Bool-cases (is_free t x)) [
    | inl free ↦ absurd (ground (arith, rw free at h))
    | inr taken ↦
        (let (rest, same) = claimed_row-HasNoneFree xs (rw taken at h) in
          ((taken, rest), rw taken (ap (λ ys. x ∷ ys) same)))
  ]

module _ {F : Type 0} (zero : F) (e : Env) (t : TaxiType) (w : World) where
  -- The response of the endpoint, read or lost on the way.
  abbrev IsServed : Response F × World → Type 0
  IsServed p =
      ClaimEnds t (e.now w.commands) w.drivers (read_claim p.0) p.1.drivers
      × ClaimEnds t (e.now w.commands) w.drivers (err "call driver service") p.1.drivers

  abbrev Served : Result DriverError Driver × World → Type 0
  Served p = IsServed (claim_response zero p.0, p.1)

  abbrev now : ℕ
  now = e.now w.commands

  -- The documents after the command, and before it.
  abbrev after : World
  after = record { drivers = claim_first t now w.drivers; commands = claim_driver t ∷ w.commands }

  abbrev before : World
  before = record { drivers = w.drivers; commands = claim_driver t ∷ w.commands }

  row_or-Served :
      (m : String) (o : Option Driver)
      → claimed_row t now w.drivers ≡ o
      → Served (row_or no_available_driver o, after) × Served (err (outside m), after)
  row_or-Served m (some d) found =
      let taken = claimed_row-Takes t now w.drivers d found in
      (
        (granted d.user_id _ taken, lost _ d.user_id _ taken),
        (lost _ d.user_id _ taken, lost _ d.user_id _ taken),
      )
  row_or-Served m none found =
      let (free, same) = claimed_row-HasNoneFree t now w.drivers found in
      let keeps : (r : Result String ClaimAnswer)
          → ClaimEnds t now w.drivers r w.drivers
          → ClaimEnds t now w.drivers r after.drivers =
        λ r. subst (λ ds. ClaimEnds t now w.drivers r ds) (sym same) in
      ((keeps _ (refused free), keeps _ (failed _)), (keeps _ (failed _), keeps _ (failed _)))

  sent :
      is_valid_taxi_type t ≡ true
      → claim_available_driver e t w ≡ elim (e.database (claim_driver t ∷ w.commands)) [
        | no_fault ↦ (row_or no_available_driver (claimed_row t now w.drivers), after)
        | request_lost m ↦ (err (outside m), before)
        | reply_lost m ↦ (err (outside m), after)
      ]
  unfolding claim_available_driver claim_row
  sent valid = rw valid refl

  not_sent :
      is_valid_taxi_type t ≡ false → claim_available_driver e t w ≡ (err invalid_taxi_type, w)
  unfolding claim_available_driver
  not_sent invalid = rw invalid refl

  by_fault :
      (f : Fault)
      → Served (elim f [
        | no_fault ↦ (row_or no_available_driver (claimed_row t now w.drivers), after)
        | request_lost m ↦ (err (outside m), before)
        | reply_lost m ↦ (err (outside m), after)
      ])
  by_fault no_fault = (row_or-Served "" (claimed_row t now w.drivers) refl).0
  by_fault (request_lost m) = (failed _, failed _)
  by_fault (reply_lost m) = (row_or-Served m (claimed_row t now w.drivers) refl).1

  claim-Served : Served (claim_available_driver e t w)
  claim-Served = elim (Bool-cases (is_valid_taxi_type t)) [
    | inl valid ↦
        subst (λ p. Served p) (sym (sent valid))
          (by_fault (e.database (claim_driver t ∷ w.commands)))
    | inr invalid ↦ subst (λ p. Served p) (sym (not_sent invalid)) (failed _, failed _)
  ]

  post_claim-IsServed : IsServed (post_claim zero e (some t) w)
  unfolding post_claim
  post_claim-IsServed = elim (Bool-cases (t == "")) [
    | inl nameless ↦ rw nameless (failed _, failed _)
    | inr named ↦ rw named claim-Served
  ]

-- When the gateway answers a driver, it is the first free one of the type, who is on a trip from then
-- on; when it answers that there is none, none was free and nothing has changed; when it fails,
-- nothing has changed, or the first free driver of the type is on a trip although nobody knows.
pub gateway_claim-ClaimEnds :
    {F : Type 0} (zero : F) (e : Env) (n : Network) (t : TaxiType) (w : World)
    → ClaimEnds t
        (e.now w.commands)
        w.drivers
        (gateway_claim zero e n t w).0
        (gateway_claim zero e n t w).1.drivers
unfolding gateway_claim
gateway_claim-ClaimEnds zero e unreachable t w = failed _
gateway_claim-ClaimEnds zero e response_lost t w = (post_claim-IsServed zero e t w).1
gateway_claim-ClaimEnds zero e delivered t w = (post_claim-IsServed zero e t w).0
