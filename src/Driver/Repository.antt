-- ===== src/Driver/Repository.antt =====
-- services/driver_service/repository/repository.go: the commands on the collection `drivers`, which
-- has a unique index on `user_id`; an id of `NewObjectID` is documented to be one that no document has. A
-- command that takes one document takes the first that matches.
use inno_taxi.Base.{ℕ, String, Option, none, some, Bool, ◌&&◌, List, [], ◌∷◌, ◌++◌}
use inno_taxi.Base.Action.{Result, ok, err, Action}
use inno_taxi.Base.Tests.{◌==◌, if◌then◌else◌}
use inno_taxi.Driver.Entity.{
  DriverError, driver_not_found, driver_already_exists, no_available_driver, outside, TaxiType,
  Status, status_available, status_on_trip, status_offline, Driver,
}

pub data Command : Type 0 where
  insert_driver find_driver : String → Command
  update_status update_taxi_type : String → String → Command
  claim_driver : TaxiType → Command
  find_by_status : Status → Command

-- A command fails before it took effect, or on the way back.
pub data Fault : Type 0 where
  no_fault : Fault
  request_lost reply_lost : String → Fault

-- What the outside answers, by the commands sent so far, the latest first.
pub record Env : Type 0 where
  pub database : List Command → Fault
  pub now : List Command → ℕ
  pub fresh_id : List Command → String

pub record World : Type 0 where
  pub drivers : List Driver
  pub commands : List Command

abbrev pub DriverAction : Type 0 → Type 0
DriverAction A = Action World DriverError A

unfoldable pub lookup : String → List Driver → Option Driver
lookup u [] = none
lookup u (x ∷ xs) = if x.user_id == u then some x else lookup u xs

-- `UpdateOne`
unfoldable pub update_one : String → (Driver → Driver) → List Driver → List Driver
update_one u f [] = []
update_one u f (x ∷ xs) = if x.user_id == u then f x ∷ xs else x ∷ update_one u f xs

abbrev pub is_free : TaxiType → Driver → Bool
is_free t x = x.taxi_type == t && x.status == status_available

abbrev pub on_trip : ℕ → Driver → Driver
on_trip t x = record x { status = status_on_trip; updated_at = t }

-- `FindOneAndUpdate`: the documents after, and the document that was changed, as it is after.
unfoldable pub claim_first : TaxiType → ℕ → List Driver → List Driver
claim_first t now [] = []
claim_first t now (x ∷ xs) = if is_free t x then on_trip now x ∷ xs else x ∷ claim_first t now xs

unfoldable pub claimed_row : TaxiType → ℕ → List Driver → Option Driver
claimed_row t now [] = none
claimed_row t now (x ∷ xs) = if is_free t x then some (on_trip now x) else claimed_row t now xs

unfoldable pub select_status : Status → List Driver → List Driver
select_status s [] = []
select_status s (x ∷ xs) = if x.status == s then x ∷ select_status s xs else select_status s xs

abbrev pub row_or : DriverError → Option Driver → Result DriverError Driver
row_or e none = err e
row_or e (some x) = ok x

abbrev matched : Option Driver → Result DriverError (Unit {0})
matched none = err driver_not_found
matched (some x) = ok tt

abbrev run_command :
    {A : Type 0}
    → Env
    → Command
    → (List Driver → List Driver)
    → (List Driver → Result DriverError A)
    → DriverAction A
run_command e c effect answer w =
    let l = c ∷ w.commands in
    elim (e.database l) [
      | no_fault ↦ (answer w.drivers, record { drivers = effect w.drivers; commands = l })
      | request_lost m ↦ (err (outside m), record { drivers = w.drivers; commands = l })
      | reply_lost m ↦ (err (outside m), record { drivers = effect w.drivers; commands = l })
    ]

module _ (e : Env) where
  abbrev pub new_driver : String → TaxiType → World → Driver
  new_driver u t w = record {
    id = e.fresh_id w.commands;
    user_id = u;
    taxi_type = t;
    status = status_offline;
    created_at = e.now w.commands;
    updated_at = e.now w.commands;
  }

  unfoldable pub create_driver_row : String → TaxiType → DriverAction Driver
  create_driver_row u t w =
      let x = new_driver u t w in
      elim (lookup u w.drivers) [
        | none ↦ run_command e (insert_driver u) (λ ds. ds ++ x ∷ []) (λ ds. ok x) w
        | some y ↦ run_command e (insert_driver u) (λ ds. ds) (λ ds. err driver_already_exists) w
      ]

  unfoldable pub find_by_user_id : String → DriverAction Driver
  find_by_user_id u =
      run_command e (find_driver u) (λ ds. ds) (λ ds. row_or driver_not_found (lookup u ds))

  unfoldable pub update_status_row : String → Status → DriverAction (Unit {0})
  update_status_row u s w =
      run_command e (update_status u s)
        (update_one u (λ x. record x { status = s; updated_at = e.now w.commands }))
        (λ ds. matched (lookup u ds)) w

  unfoldable pub update_taxi_type_row : String → TaxiType → DriverAction (Unit {0})
  update_taxi_type_row u t w =
      run_command e (update_taxi_type u t)
        (update_one u (λ x. record x { taxi_type = t; updated_at = e.now w.commands }))
        (λ ds. matched (lookup u ds)) w

  unfoldable pub claim_row : TaxiType → DriverAction Driver
  claim_row t w =
      run_command e (claim_driver t) (claim_first t (e.now w.commands))
        (λ ds. row_or no_available_driver (claimed_row t (e.now w.commands) ds)) w

  unfoldable pub find_by_status_rows : Status → DriverAction (List Driver)
  find_by_status_rows s =
      run_command e (find_by_status s) (λ ds. ds) (λ ds. ok (select_status s ds))
