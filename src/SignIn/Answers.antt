-- ===== src/SignIn/Answers.antt =====
-- What the auth service learns about credentials.
use inno_taxi.Base.{String, ◌≡◌, arith}
use inno_taxi.Auth.Gateway.{verify_by_http}
use inno_taxi.User.Entity.{Library}
use inno_taxi.User.Repository.{Env, World, find_by_login}
use inno_taxi.User.Service.{verify_credentials}
use inno_taxi.User.Http.{Validator, post_verify}
use inno_taxi.SignIn.{verify_remotely, opened, told}

-- The auth service learns the id and the roles of the account that the credentials open; whatever else
-- happens in the user service, a failure of its database too, is answered as wrong credentials.
pub verify_remotely-opened :
    (lib : Library) (v : Validator) (e : Env) (w : World) (login password : String)
    → verify_remotely lib v e w login password ≡ told lib v e w (opened lib v e w login password)
unfolding verify_remotely verify_by_http post_verify verify_credentials find_by_login
verify_remotely-opened lib v e w login password = ground arith
