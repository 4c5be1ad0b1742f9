-- ===== src/User/Requests.antt =====
-- The requests of services/user_service/handler/http, and any sequence of them, each with its own
-- answers from the outside.
use inno_taxi.Base.{String, Option, List, [], ◌∷◌}
use inno_taxi.User.Entity.{Library}
use inno_taxi.User.Repository.{Env, World}
use inno_taxi.User.Http.{
  Validator, RegisterReq, VerifyCredentialsReq, UpdateProfileReq, UpdatePasswordReq, post_register,
  post_verify, show_profile, patch_profile, patch_password, remove_profile, assign_role_analytic,
}

pub data Request : Type 0 where
  to_register : Option RegisterReq → Request
  to_verify : Option VerifyCredentialsReq → Request
  to_show to_delete to_promote : String → Request
  to_update : String → Option UpdateProfileReq → Request
  to_change_password : String → Option UpdatePasswordReq → Request

module _ (lib : Library) (v : Validator) where
  unfoldable pub handle : Env → Request → World → World
  handle e (to_register req) w = (post_register lib v e req w).1
  handle e (to_verify req) w = (post_verify lib v e req w).1
  handle e (to_show id) w = (show_profile lib v e id w).1
  handle e (to_delete id) w = (remove_profile lib v e id w).1
  handle e (to_promote id) w = (assign_role_analytic lib v e id w).1
  handle e (to_update id req) w = (patch_profile lib v e id req w).1
  handle e (to_change_password id req) w = (patch_password lib v e id req w).1

  unfoldable pub run : List (Env × Request) → World → World
  run [] w = w
  run ((e, q) ∷ qs) w = run qs (handle e q w)
