-- ===== src/SignIn.antt =====
-- How somebody signs in: the gateway of services/auth_service to the user service, with the endpoint of
-- services/user_service that answers it.
pub mod Answers
mod Tests
use inno_taxi.Base.{◌∷◌, String, Option, none, some, Bool, not, ◌||◌}
use inno_taxi.Base.Action.{Result, ok, err}
use inno_taxi.Base.Tests.{◌==◌, if◌then◌else◌}
use inno_taxi.Auth.Entity.{AuthError, invalid_credentials, UserInfo}
use inno_taxi.Auth.Gateway.{VerifyCredentialsReq, UserResp, Exchange, responded, verify_by_http}
use inno_taxi.User.Entity.{Document, Library}
use inno_taxi.User.Repository.{
  Env, World, no_fault, request_lost, reply_lost, find_by_login_one, lookup_login,
}
use inno_taxi.User.Http.{Validator, Body, user_body, is_valid_verify, post_verify}

-- The body, as `userResp` reads it.
abbrev pub read_user : Body → Option UserResp
read_user (user_body u) = some (record { id = u.id; roles = u.roles })
read_user _ = none

module _ (lib : Library) (v : Validator) (e : Env) (w : World) where
  -- `POST /internal/verify-credentials`
  abbrev pub user_service : VerifyCredentialsReq → Exchange
  user_service q =
      let r =
        (post_verify lib v e (some (record { login = q.login; password = q.password })) w).0 in
      responded r.status (read_user r.body)

  unfoldable pub verify_remotely : String → String → Result AuthError UserInfo
  verify_remotely = verify_by_http user_service

  abbrev matching : String → Option Document → Option Document
  matching password none = none
  matching password (some d) = if lib.compare_hash d.password_hash password then some d else none

  -- The account that a login and a password open: none where the request is not valid, where the
  -- database does not answer, or where they do not match.
  abbrev pub opened : String → String → Option Document
  opened login password =
      if login == "" || password == ""
      then none
      else if not (is_valid_verify lib v (record { login = login; password = password }))
      then none
      else elim (e.database (find_by_login_one login ∷ w.commands)) [
        | no_fault ↦ matching password (lookup_login login w.documents)
        | request_lost m ↦ none
        | reply_lost m ↦ none
      ]

  abbrev pub told : Option Document → Result AuthError UserInfo
  told none = err invalid_credentials
  told (some d) = ok (record { id = lib.hex d.id; roles = d.roles })
