-- ===== src/Auth/Entity.antt =====
-- services/auth_service: entity, errorsx and the configuration of `AuthService`. Signing and parsing
-- of tokens is golang-jwt's, and a parameter.
use inno_taxi.Base.{ℕ, String, Option, List}
use inno_taxi.Base.Action.{Result}

pub data AuthError : Type 0 where
  invalid_credentials invalid_token forbidden : AuthError
  outside : String → AuthError
  wrap : String → AuthError → AuthError

-- The error at the end of a chain, at which `errors.Is` looks.
abbrev pub root : AuthError → AuthError
root (wrap m x) = root x
root x = x

-- What `VerifyCredentials` of the user service answers.
pub record UserInfo : Type 0 where
  pub id : String
  pub roles : List String

pub record TokenPair : Type 0 where
  pub access_token : String
  pub refresh_token : String

-- The claims of a token, as its JSON holds them: `id`, `subject`, `issued_at` and `expires_at` are
-- those of `jwt.RegisteredClaims` that the service sets. Times are in nanoseconds.
pub record AccessClaims : Type 0 where
  pub user_id : String
  pub roles : List String
  pub id : String
  pub subject : String
  pub issued_at : ℕ
  pub expires_at : ℕ

-- The fields and their JSON names are those of `AccessClaims`: the text of a token does not tell of
-- which of the two it is.
abbrev pub RefreshClaims : Type 0
RefreshClaims = AccessClaims

-- The method that a token's header names.
pub data SigningMethod : Type 0 where
  hmac : SigningMethod
  other_method : String → SigningMethod

abbrev pub KeyFunc : Type 0
KeyFunc = SigningMethod → Result String String

-- golang-jwt: `SignedString` by HS256 under a secret, `ParseWithClaims` at a time, which gives the
-- claims of a valid token, and `NewNumericDate`, which rounds.
pub record Jwt : Type 0 where
  pub sign : String → AccessClaims → Result String String
  pub parse : String → KeyFunc → ℕ → Option AccessClaims
  pub numeric_date : ℕ → ℕ

pub record Config : Type 0 where
  pub secret : String
  pub access_ttl : ℕ
  pub refresh_ttl : ℕ
