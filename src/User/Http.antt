-- ===== src/User/Http.antt =====
-- services/user_service/handler/http and validation: what each endpoint answers. Reading JSON is
-- gin's: a request comes as its decoded body, or none where it is malformed. The length of a text in
-- runes, the validator's test for e-mails and the matching of `phoneRegexp` are parameters.
use inno_taxi.Base.{ℕ, String, Option, none, some, Bool, ◌&&◌, ◌||◌, List}
use inno_taxi.Base.Action.{Result, ok, err}
use inno_taxi.Base.Tests.{◌==◌, leb, if◌then◌else◌}
use inno_taxi.User.Entity.{
  UserError, user_not_found, user_already_exists, invalid_role, invalid_credentials, root,
  role_user, role_driver, role_analyst, roles_to_strings, User, RegisterInput, ProfileInput,
  Library,
}
use inno_taxi.User.Repository.{Env, World, UserAction}
use inno_taxi.User.Service.{
  create_user, verify_credentials, get_profile, update_profile, update_password, delete_profile,
  assign_role,
}

pub record Validator : Type 0 where
  pub rune_count : String → ℕ
  pub is_email : String → Bool
  pub matches_phone : String → Bool

pub record RegisterReq : Type 0 where
  pub name : String
  pub email : String
  pub password : String
  pub phone : String
  pub role : String

pub record VerifyCredentialsReq : Type 0 where
  pub login : String
  pub password : String

pub record UpdateProfileReq : Type 0 where
  pub name : String
  pub email : String
  pub phone : String

pub record UpdatePasswordReq : Type 0 where
  pub current_password : String
  pub new_password : String
  pub confirm_password : String

pub record UserResp : Type 0 where
  pub id : String
  pub name : String
  pub email : String
  pub phone : String
  pub roles : List String

pub data Body : Type 0 where
  empty malformed invalid internal_error success : Body
  message : UserError → Body
  user_body : UserResp → Body

pub record Response : Type 0 where
  pub status : ℕ
  pub body : Body

abbrev answer : ℕ → Body → Response
answer s b = record { status = s; body = b }

abbrev user_resp : User → UserResp
user_resp u = record {
  id = u.id;
  name = u.name;
  email = u.email;
  phone = u.phone;
  roles = roles_to_strings u.roles;
}

-- `binding:"required"` refuses an empty text.
abbrev pub bind_register : Option RegisterReq → Option RegisterReq
bind_register none = none
bind_register (some q) =
    if q.name == "" || q.email == "" || q.password == "" || q.phone == "" || q.role == ""
    then none
    else some q

abbrev pub bind_verify : Option VerifyCredentialsReq → Option VerifyCredentialsReq
bind_verify none = none
bind_verify (some q) = if q.login == "" || q.password == "" then none else some q

abbrev pub bind_profile : Option UpdateProfileReq → Option UpdateProfileReq
bind_profile none = none
bind_profile (some q) = if q.name == "" || q.email == "" || q.phone == "" then none else some q

abbrev pub bind_password : Option UpdatePasswordReq → Option UpdatePasswordReq
bind_password none = none
bind_password (some q) =
    if q.current_password == "" || q.new_password == "" || q.confirm_password == ""
    then none
    else some q

module _ (lib : Library) (v : Validator) where
  abbrev between : ℕ → ℕ → String → Bool
  between low high s = leb low (v.rune_count s) && leb (v.rune_count s) high

  -- `validateRole` and `validatePhone`
  abbrev pub validate_role : String → Bool
  validate_role r = let r' = lib.to_lower r in r' == role_user || r' == role_driver

  abbrev validate_phone : String → Bool
  validate_phone = v.matches_phone

  -- The tags `validate` of the four requests.
  abbrev pub is_valid_register : RegisterReq → Bool
  is_valid_register q =
      between 2 32 q.name
      && v.is_email q.email
      && between 8 32 q.password
      && validate_phone q.phone
      && validate_role q.role

  abbrev pub is_valid_verify : VerifyCredentialsReq → Bool
  is_valid_verify q = between 8 32 q.password

  abbrev pub is_valid_profile : UpdateProfileReq → Bool
  is_valid_profile q = between 2 32 q.name && v.is_email q.email && validate_phone q.phone

  abbrev pub is_valid_password : UpdatePasswordReq → Bool
  is_valid_password q =
      between 8 32 q.current_password
      && between 8 32 q.new_password
      && between 8 32 q.confirm_password
      && q.confirm_password == q.new_password

abbrev register_failure : UserError → UserError → Response
register_failure x user_already_exists = answer 409 (message x)
register_failure x invalid_role = answer 422 (message x)
register_failure x _ = answer 500 internal_error

abbrev verify_failure : UserError → UserError → Response
verify_failure x invalid_credentials = answer 401 (message x)
verify_failure x _ = answer 500 internal_error

abbrev not_found_failure : UserError → UserError → Response
not_found_failure x user_not_found = answer 404 (message x)
not_found_failure x _ = answer 500 internal_error

abbrev profile_failure : UserError → UserError → Response
profile_failure x user_not_found = answer 404 (message x)
profile_failure x user_already_exists = answer 409 (message x)
profile_failure x _ = answer 500 internal_error

abbrev password_failure : UserError → UserError → Response
password_failure x user_not_found = answer 404 (message x)
password_failure x invalid_credentials = answer 401 (message x)
password_failure x _ = answer 500 internal_error

abbrev pub register_response : Result UserError User → Response
register_response (ok u) = answer 201 (user_body (user_resp u))
register_response (err x) = register_failure x (root x)

abbrev pub verify_response : Result UserError User → Response
verify_response (ok u) = answer 200 (user_body (user_resp u))
verify_response (err x) = verify_failure x (root x)

abbrev pub profile_response : Result UserError User → Response
profile_response (ok u) = answer 200 (user_body (user_resp u))
profile_response (err x) = not_found_failure x (root x)

abbrev pub update_response : Result UserError User → Response
update_response (ok u) = answer 200 (user_body (user_resp u))
update_response (err x) = profile_failure x (root x)

-- No status is set on success, which is 200.
abbrev pub password_response : Result UserError (Unit {0}) → Response
password_response (ok a) = answer 200 empty
password_response (err x) = password_failure x (root x)

abbrev pub delete_response : Result UserError (Unit {0}) → Response
delete_response (ok a) = answer 204 empty
delete_response (err x) = not_found_failure x (root x)

abbrev pub assign_response : Result UserError (Unit {0}) → Response
assign_response (ok a) = answer 200 success
assign_response (err x) = answer 500 internal_error

-- `ShouldBindJSON`, `validate.Struct`, the call of the service and the answer to its result.
abbrev pub serve :
    {Q A : Type 0}
    → Option Q
    → (Q → Bool)
    → (Q → UserAction A)
    → (Result UserError A → Response)
    → World
    → Response × World
serve none valid act respond w = (answer 400 malformed, w)
serve (some q) valid act respond w =
    if valid q then (let (r, w') = act q w in (respond r, w')) else (answer 422 invalid, w)

abbrev pub register_input : RegisterReq → RegisterInput
register_input q = record {
  name = q.name;
  email = q.email;
  phone = q.phone;
  password = q.password;
  role = q.role;
}

abbrev pub profile_input : UpdateProfileReq → ProfileInput
profile_input q = record { name = q.name; email = q.email; phone = q.phone }

module _ (lib : Library) (v : Validator) (e : Env) where
  unfoldable pub post_register : Option RegisterReq → World → Response × World
  post_register req =
      serve (bind_register req) (is_valid_register lib v)
        (λ q. create_user lib e (register_input q)) register_response

  unfoldable pub post_verify : Option VerifyCredentialsReq → World → Response × World
  post_verify req =
      serve (bind_verify req) (is_valid_verify lib v)
        (λ q. verify_credentials lib e q.login q.password) verify_response

  unfoldable pub show_profile : String → World → Response × World
  show_profile id w = let (r, w') = get_profile lib e id w in (profile_response r, w')

  unfoldable pub patch_profile : String → Option UpdateProfileReq → World → Response × World
  patch_profile id req =
      serve (bind_profile req) (is_valid_profile lib v)
        (λ q. update_profile lib e id (profile_input q)) update_response

  unfoldable pub patch_password : String → Option UpdatePasswordReq → World → Response × World
  patch_password id req =
      serve (bind_password req) (is_valid_password lib v)
        (λ q. update_password lib e id q.current_password q.new_password) password_response

  unfoldable pub remove_profile : String → World → Response × World
  remove_profile id w = let (r, w') = delete_profile lib e id w in (delete_response r, w')

  unfoldable pub assign_role_analytic : String → World → Response × World
  assign_role_analytic id w =
      let (r, w') = assign_role lib e id role_analyst w in (assign_response r, w')
