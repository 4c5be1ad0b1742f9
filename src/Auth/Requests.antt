-- ===== src/Auth/Requests.antt =====
-- The requests of services/auth_service/handler/http, and any sequence of them, each with its own
-- answers from Redis, the clock and the user service.
use inno_taxi.Base.{String, List, [], ◌∷◌, ◌≢◌}
use inno_taxi.Auth.Entity.{Jwt, Config}
use inno_taxi.Auth.Store.{Command, Env, World}
use inno_taxi.Auth.Service.{login, refresh, validate, logout}

pub data Request : Type 0 where
  to_login to_logout to_validate : String → String → Request
  to_refresh : String → Request

-- None of the requests draws the session id `sid`.
abbrev pub NeverIssues : String → Env → Type 0
NeverIssues sid e = (l : List Command) → e.fresh_id l ≢ sid

module _ (jwt : Jwt) (c : Config) where
  unfoldable pub handle : Env → Request → World → World
  handle e (to_login name password) w = (login jwt c e name password w).1
  handle e (to_logout access refreshing) w = (logout jwt c e access refreshing w).1
  handle e (to_validate access role) w = (validate jwt c e access role w).1
  handle e (to_refresh raw) w = (refresh jwt c e raw w).1

  unfoldable pub run : List (Env × Request) → World → World
  run [] w = w
  run ((e, q) ∷ qs) w = run qs (handle e q w)
