-- ===== src/Shared.antt =====
-- shared/transport: the middleware of HTTP and the interceptor of gRPC by which a service learns who
-- calls it. Each parses the token of the header `Authorization` by golang-jwt, a parameter; neither asks
-- whether the session is active, which is the gateway's part.
use inno_taxi.Base.{ℕ, String, Option, none, some, Bool, false, ◌||◌, List, [], ◌∷◌}
use inno_taxi.Base.Action.{Result, ok, err}
use inno_taxi.Base.Tests.{◌==◌, if◌then◌else◌}
use inno_taxi.Base.Text.{has_prefix, trim_prefix}
use inno_taxi.Auth.Entity.{AccessClaims, SigningMethod, hmac, other_method, KeyFunc, Jwt}
pub mod Agrees

abbrev pub bearer_prefix : String
bearer_prefix = "Bearer "

-- The claims that the services read; the subject is that of `jwt.RegisteredClaims`.
pub record CustomClaims : Type 0 where
  pub roles : List String
  pub subject : String

abbrev pub custom_claims : AccessClaims → CustomClaims
custom_claims c = record { roles = c.roles; subject = c.subject }

-- What a handler finds in its context.
pub record Caller : Type 0 where
  pub user_id : String
  pub roles : List String

-- A request is aborted with a status and a message, or goes on.
pub data Refusal : Type 0 where
  aborted : ℕ → String → Refusal

abbrev pub caller_of : CustomClaims → Caller
caller_of c = record { user_id = c.subject; roles = c.roles }

abbrev pub key_of : String → KeyFunc
key_of secret hmac = ok secret
key_of secret (other_method m) = err "unexpected signing method"

abbrev parsed : Refusal → Option AccessClaims → Result Refusal Caller
parsed x none = err x
parsed x (some c) = ok (caller_of (custom_claims c))

-- The role is among those of the caller: `slices.Contains`.
unfoldable pub contains : List String → String → Bool
contains [] r = false
contains (x ∷ xs) r = x == r || contains xs r

module _ (jwt : Jwt) (secret : String) (now : ℕ) where
  -- `middleware.Auth`
  unfoldable pub auth : String → Result Refusal Caller
  auth header =
      if header == ""
      then err (aborted 401 "Authorization header is empty")
      else if has_prefix header bearer_prefix
      then parsed (aborted 401 "Unauthorized")
          (jwt.parse (trim_prefix header bearer_prefix) (key_of secret) now)
      else err (aborted 401 "Authorization header format is invalid")

  -- The code `Unauthenticated` is 16.
  abbrev unauthenticated : String → Refusal
  unauthenticated = aborted 16

  -- `interceptor.AuthInterceptor`, on the values of the metadata, if there is any.
  unfoldable pub auth_interceptor : Option (List String) → Result Refusal Caller
  auth_interceptor none = err (unauthenticated "metadata is not provided")
  auth_interceptor (some []) = err (unauthenticated "authorization header is missing")
  auth_interceptor (some (header ∷ more)) =
      if has_prefix header bearer_prefix
      then parsed (unauthenticated "invalid token")
          (jwt.parse (trim_prefix header bearer_prefix) (key_of secret) now)
      else err (unauthenticated "invalid authorization format")

-- `middleware.RequireRole`
unfoldable pub require_role : String → Caller → Result Refusal Caller
require_role role c = if contains c.roles role then ok c else err (aborted 403 "role not allowed")
