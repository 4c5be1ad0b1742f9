-- ===== src/Auth/Gateway.antt =====
-- services/auth_service/gateway/user_service: credentials are verified by a request to the user
-- service. Its response, a status and a body that is decoded where it can be, is a parameter.
use inno_taxi.Base.{ℕ, String, Option, none, some, Bool, ◌&&◌, List}
use inno_taxi.Base.Action.{Result, ok, err}
use inno_taxi.Base.Tests.{leb, ltb, if◌then◌else◌}
use inno_taxi.Auth.Entity.{AuthError, invalid_credentials, outside, wrap, UserInfo}

pub record VerifyCredentialsReq : Type 0 where
  pub login : String
  pub password : String

pub record UserResp : Type 0 where
  pub id : String
  pub roles : List String

-- What comes back of a request: a failure on the way, or a response.
pub data Exchange : Type 0 where
  not_sent : String → Exchange
  responded : ℕ → Option UserResp → Exchange

abbrev is_status : ℕ → ℕ → Bool
is_status a b = leb a b && leb b a

abbrev user_info_from : Option UserResp → Result AuthError UserInfo
user_info_from none = err (wrap "decode verify credentials response" (outside "json"))
user_info_from (some u) = ok (record { id = u.id; roles = u.roles })

-- `VerifyCredentials`
unfoldable pub verify_by_http :
    (VerifyCredentialsReq → Exchange) → String → String → Result AuthError UserInfo
verify_by_http send name password = elim (send (record { login = name; password = password })) [
  | not_sent m ↦ err (wrap "call user service" (outside m))
  | responded s body ↦
      if is_status s 200
      then user_info_from body
      else if leb 400 s && ltb s 500
      then err invalid_credentials
      else err (outside "user service returned unexpected status")
]
