-- ===== src/Auth/Http.antt =====
-- services/auth_service/handler/http: what each endpoint answers. Reading JSON is gin's: a request
-- comes as its decoded body, or none where it is malformed.
use inno_taxi.Base.{ℕ, String, Option, none, some, ◌||◌, List, [], ◌∷◌}
use inno_taxi.Base.Action.{Result, ok, err}
use inno_taxi.Base.Tests.{◌==◌, if◌then◌else◌}
use inno_taxi.Base.Text.{has_prefix, trim_prefix, join}
use inno_taxi.Auth.Entity.{
  AuthError, invalid_credentials, invalid_token, forbidden, root, TokenPair, AccessClaims, Jwt,
  Config,
}
use inno_taxi.Auth.Store.{Env, World}
use inno_taxi.Auth.Service.{login, refresh, validate, logout}

pub record LoginReq : Type 0 where
  pub login : String
  pub password : String

pub record LogoutReq : Type 0 where
  pub access_token : String
  pub refresh_token : String

pub record TokenPairResp : Type 0 where
  pub access_token : String
  pub refresh_token : String

pub record ValidateResp : Type 0 where
  pub user_id : String
  pub roles : List String

pub data Body : Type 0 where
  empty malformed internal_error : Body
  message : AuthError → Body
  pair_body : TokenPairResp → Body
  claims_body : ValidateResp → Body

pub record Response : Type 0 where
  pub status : ℕ
  pub headers : List (String × String)
  pub body : Body

abbrev answer : ℕ → Body → Response
answer s b = record { status = s; headers = []; body = b }

-- `binding:"required"` refuses an empty text.
abbrev bind_login : Option LoginReq → Option LoginReq
bind_login none = none
bind_login (some q) = if q.login == "" || q.password == "" then none else some q

abbrev bind_refresh : Option String → Option String
bind_refresh none = none
bind_refresh (some raw) = if raw == "" then none else some raw

abbrev login_failure : AuthError → AuthError → Response
login_failure x invalid_credentials = answer 401 (message x)
login_failure x _ = answer 500 internal_error

abbrev refresh_failure : AuthError → AuthError → Response
refresh_failure x invalid_token = answer 401 (message x)
refresh_failure x _ = answer 500 internal_error

abbrev validate_failure : AuthError → AuthError → Response
validate_failure x invalid_token = answer 401 (message x)
validate_failure x forbidden = answer 403 (message x)
validate_failure x _ = answer 500 internal_error

abbrev token_pair_resp : TokenPair → TokenPairResp
token_pair_resp p = record { access_token = p.access_token; refresh_token = p.refresh_token }

abbrev login_response : Result AuthError TokenPair → Response
login_response (ok p) = answer 200 (pair_body (token_pair_resp p))
login_response (err x) = login_failure x (root x)

abbrev refresh_response : Result AuthError TokenPair → Response
refresh_response (ok p) = answer 200 (pair_body (token_pair_resp p))
refresh_response (err x) = refresh_failure x (root x)

abbrev logout_response : Result AuthError (Unit {0}) → Response
logout_response (ok a) = answer 204 empty
logout_response (err x) = answer 500 internal_error

abbrev validate_response : Result AuthError AccessClaims → Response
validate_response (ok c) = record {
  status = 200;
  headers = ("X-User-Id", c.user_id) ∷ ("X-Roles", join c.roles ",") ∷ [];
  body = claims_body (record { user_id = c.user_id; roles = c.roles });
}
validate_response (err x) = validate_failure x (root x)

module _ (jwt : Jwt) (c : Config) (e : Env) where
  unfoldable pub post_login : Option LoginReq → World → Response × World
  post_login req w = elim (bind_login req) [
    | none ↦ (answer 400 malformed, w)
    | some q ↦ (let (r, w') = login jwt c e q.login q.password w in (login_response r, w'))
  ]

  unfoldable pub post_refresh : Option String → World → Response × World
  post_refresh req w = elim (bind_refresh req) [
    | none ↦ (answer 400 malformed, w)
    | some raw ↦ (let (r, w') = refresh jwt c e raw w in (refresh_response r, w'))
  ]

  unfoldable pub post_logout : Option LogoutReq → World → Response × World
  post_logout none w = (answer 400 malformed, w)
  post_logout (some q) w =
      let (r, w') = logout jwt c e q.access_token q.refresh_token w in (logout_response r, w')

  -- The headers `Authorization` and `X-Required-Role`.
  unfoldable pub get_validate : String → String → World → Response × World
  get_validate header role w =
      if has_prefix header "Bearer "
      then (let (r, w') = validate jwt c e (trim_prefix header "Bearer ") role w in
          (validate_response r, w'))
      else (answer 401 (message invalid_token), w)
