-- ===== src/Driver/Http.antt =====
-- services/driver_service/handler/http: what each endpoint answers. Reading JSON is gin's: a request
-- comes as its decoded body, or none where it is malformed. The average of a rating, a `float64`, is
-- the type `F`.
use inno_taxi.Base.{ℕ, String, Option, none, some, ◌||◌, List, map}
use inno_taxi.Base.Int.{ℤ, pos}
use inno_taxi.Base.Action.{Result, ok, err}
use inno_taxi.Base.Tests.{◌==◌, if◌then◌else◌}
use inno_taxi.Driver.Entity.{
  DriverError, driver_not_found, driver_already_exists, invalid_taxi_type, invalid_status,
  no_available_driver, TaxiType, Status, Driver,
}
use inno_taxi.Driver.Repository.{Env, World, DriverAction}
use inno_taxi.Driver.Service.{
  DriverProfile, create_driver, claim_available_driver, get_drivers_by_status,
  update_status_by_user, update_taxi_type_by_user, get_profile_by_user,
}

pub record DriverResp (F : Type 0) : Type 0 where
  pub id : String
  pub user_id : String
  pub taxi_type : String
  pub status : String
  pub rating_average : F
  pub rating_count : ℤ

pub record CreateDriverReq : Type 0 where
  pub user_id : String
  pub taxi_type : String

-- An internal error of the listing is not told; the others are, as the text of the error.
pub data Body (F : Type 0) : Type 0 where
  empty malformed invalid already_exists internal_error : Body F
  message : DriverError → Body F
  driver_body : DriverResp F → Body F
  drivers_body : List (DriverResp F) → Body F

pub record Response (F : Type 0) : Type 0 where
  pub status : ℕ
  pub body : Body F

module _ {F : Type 0} where
  abbrev answer : ℕ → Body F → Response F
  answer s b = record { status = s; body = b }

  -- Without a rating, its fields are zero.
  abbrev pub driver_resp : F → Driver → DriverResp F
  driver_resp zero d = record {
    id = d.id;
    user_id = d.user_id;
    taxi_type = d.taxi_type;
    status = d.status;
    rating_average = zero;
    rating_count = pos 0;
  }

  abbrev profile_resp : DriverProfile F → DriverResp F
  profile_resp p = record {
    id = p.driver.id;
    user_id = p.driver.user_id;
    taxi_type = p.driver.taxi_type;
    status = p.driver.status;
    rating_average = p.rating_average;
    rating_count = p.rating_count;
  }

  abbrev claim_failure : DriverError → Response F
  claim_failure no_available_driver = answer 404 (message no_available_driver)
  claim_failure invalid_taxi_type = answer 422 (message invalid_taxi_type)
  claim_failure x = answer 500 (message x)

  abbrev list_failure : DriverError → Response F
  list_failure invalid_status = answer 400 (message invalid_status)
  list_failure x = answer 500 internal_error

  abbrev profile_failure : DriverError → Response F
  profile_failure driver_not_found = answer 404 (message driver_not_found)
  profile_failure x = answer 500 (message x)

  abbrev register_failure : DriverError → Response F
  register_failure driver_already_exists = answer 422 already_exists
  register_failure invalid_taxi_type = answer 422 (message invalid_taxi_type)
  register_failure x = answer 500 (message x)

  abbrev status_failure : DriverError → Response F
  status_failure driver_not_found = answer 404 (message driver_not_found)
  status_failure invalid_status = answer 422 (message invalid_status)
  status_failure x = answer 500 (message x)

  abbrev type_failure : DriverError → Response F
  type_failure driver_not_found = answer 404 (message driver_not_found)
  type_failure invalid_taxi_type = answer 422 (message invalid_taxi_type)
  type_failure x = answer 500 (message x)

  abbrev pub claim_response : F → Result DriverError Driver → Response F
  claim_response zero (ok d) = answer 200 (driver_body (driver_resp zero d))
  claim_response zero (err x) = claim_failure x

  abbrev list_response : F → Result DriverError (List Driver) → Response F
  list_response zero (ok ds) = answer 200 (drivers_body (map (driver_resp zero) ds))
  list_response zero (err x) = list_failure x

  abbrev get_response : Result DriverError (DriverProfile F) → Response F
  get_response (ok p) = answer 200 (driver_body (profile_resp p))
  get_response (err x) = profile_failure x

  abbrev register_response : F → Result DriverError Driver → Response F
  register_response zero (ok d) = answer 201 (driver_body (driver_resp zero d))
  register_response zero (err x) = register_failure x

  abbrev pub status_response : Result DriverError (Unit {0}) → Response F
  status_response (ok a) = answer 200 empty
  status_response (err x) = status_failure x

  abbrev type_response : Result DriverError (Unit {0}) → Response F
  type_response (ok a) = answer 200 empty
  type_response (err x) = type_failure x

  -- `binding:"required"` and `validate:"required"` refuse an empty text, both with 400.
  abbrev pub serve_text :
      {A : Type 0}
      → Option String
      → Body F
      → (String → DriverAction A)
      → (Result DriverError A → Response F)
      → World
      → Response F × World
  serve_text none refusal act respond w = (answer 400 malformed, w)
  serve_text (some t) refusal act respond w =
      if t == "" then (answer 400 refusal, w) else (let (r, w') = act t w in (respond r, w'))

module _ {F : Type 0} (zero : F) (e : Env) where
  -- `POST /internal/drivers/claim`
  unfoldable pub post_claim : Option TaxiType → World → Response F × World
  post_claim req = serve_text req malformed (claim_available_driver e) (claim_response zero)

  unfoldable pub get_drivers : Status → World → Response F × World
  get_drivers s w = let (r, w') = get_drivers_by_status e s w in (list_response zero r, w')

  unfoldable pub show_profile :
      (String → Result String (F × ℤ)) → String → World → Response F × World
  show_profile ratings u w =
      let (r, w') = get_profile_by_user e zero ratings u w in (get_response r, w')

  unfoldable pub post_driver : Option CreateDriverReq → World → Response F × World
  post_driver none w = (answer 400 malformed, w)
  post_driver (some q) w =
      if q.user_id == "" || q.taxi_type == ""
      then (answer 400 invalid, w)
      else (let (r, w') = create_driver e q.user_id q.taxi_type w in (register_response zero r, w'))

  -- The endpoint of the user, and that of the other services, under the user id that each is given.
  unfoldable pub patch_status : String → Option Status → World → Response F × World
  patch_status u req = serve_text req invalid (update_status_by_user e u) status_response

  unfoldable pub patch_status_internal : String → Option Status → World → Response F × World
  patch_status_internal u req = serve_text req invalid (update_status_by_user e u) status_response

  unfoldable pub patch_type : String → Option TaxiType → World → Response F × World
  patch_type u req = serve_text req invalid (update_taxi_type_by_user e u) type_response
