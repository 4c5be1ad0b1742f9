-- ===== src/Auth/Service.antt =====
-- services/auth_service/service: the methods of `AuthService`.
use inno_taxi.Base.{ℕ, ◌+◌, String, Option, none, some, Bool, false, not, ◌&&◌, ◌||◌, List, [], ◌∷◌}
use inno_taxi.Base.Action.{Result, ok, err, pure, raise, raise_if, ◌>>=◌, ◌>>◌}
use inno_taxi.Base.Tests.{◌==◌, if◌then◌else◌}
use inno_taxi.Auth.Entity.{
  AuthError, invalid_token, forbidden, outside, wrap, UserInfo, TokenPair, AccessClaims,
  RefreshClaims, hmac, other_method, KeyFunc, Jwt, Config,
}
use inno_taxi.Auth.Store.{
  verify, Env, AuthAction, save_access_session, save_refresh_session, access_session_exists,
  refresh_session_exists, delete_access_session, delete_refresh_session,
}

-- `slices.Contains`
unfoldable pub contains : List String → String → Bool
contains [] r = false
contains (x ∷ xs) r = x == r || contains xs r

-- A role is asked for that is not there.
abbrev pub lacks : List String → String → Bool
lacks roles r = not (r == "") && not (contains roles r)

-- `fmt.Errorf("<m>: %w", err)`
abbrev wrap_error : {A : Type 0} → String → Result AuthError A → Result AuthError A
wrap_error m (ok a) = ok a
wrap_error m (err x) = err (wrap m x)

abbrev pub wrapping : {A : Type 0} → String → AuthAction A → AuthAction A
wrapping m f w = let (r, w') = f w in (wrap_error m r, w')

abbrev pub signed : String → Result String String → AuthAction String
signed m (ok t) = pure t
signed m (err x) = raise (wrap m (outside x))

abbrev pub accepted : {A : Type 0} → Option A → AuthAction A
accepted none = raise invalid_token
accepted (some a) = pure a

module _ (e : Env) where
  abbrev pub current : AuthAction ℕ
  current w = (ok (e.now w.commands), w)

  abbrev pub new_sid : AuthAction String
  new_sid w = (ok (e.fresh_id w.commands), w)

  abbrev pub ask_user_service : String → String → AuthAction UserInfo
  ask_user_service login password w =
      let l = verify login ∷ w.commands in
      (e.verify_credentials l login password, record w { commands = l })

  abbrev pub drop_access : Option String → AuthAction (Unit {0})
  drop_access none = pure tt
  drop_access (some sid) = delete_access_session e sid

  abbrev pub drop_refresh : Option String → AuthAction (Unit {0})
  drop_refresh none = pure tt
  drop_refresh (some sid) = delete_refresh_session e sid

module _ (jwt : Jwt) (c : Config) where
  -- `keyFunc`
  abbrev pub key_func : KeyFunc
  key_func hmac = ok c.secret
  key_func (other_method m) = err "unexpected signing method"

  -- `sidFromAccessToken`, at a time; `sidFromRefreshToken` is the same on claims of the other type.
  unfoldable pub sid_from_access_token : String → ℕ → Option String
  sid_from_access_token raw now =
      if raw == ""
      then none
      else elim (jwt.parse raw key_func now) [ none ↦ none | some claims ↦ some claims.id ]

  unfoldable pub sid_from_refresh_token : String → ℕ → Option String
  sid_from_refresh_token raw now =
      if raw == ""
      then none
      else elim (jwt.parse raw key_func now) [ none ↦ none | some claims ↦ some claims.id ]

  module _ (e : Env) where
    abbrev pub access_claims : String → List String → String → ℕ → AccessClaims
    access_claims user_id roles sid now = record {
      user_id = user_id;
      roles = roles;
      id = sid;
      subject = user_id;
      issued_at = jwt.numeric_date now;
      expires_at = jwt.numeric_date (now + c.access_ttl);
    }

    abbrev pub refresh_claims : String → List String → String → ℕ → RefreshClaims
    refresh_claims user_id roles sid now = record {
      user_id = user_id;
      roles = roles;
      id = sid;
      subject = user_id;
      issued_at = jwt.numeric_date now;
      expires_at = jwt.numeric_date (now + c.refresh_ttl);
    }

    -- `issueTokenPair`, once the session id is drawn.
    abbrev pub issue_session : String → List String → String → AuthAction TokenPair
    issue_session user_id roles sid = do
      now ← current e
      access ← signed "sign access token" (jwt.sign c.secret (access_claims user_id roles sid now))
      refresh ←
          signed "sign refresh token" (jwt.sign c.secret (refresh_claims user_id roles sid now))
      wrapping "save access session" (save_access_session e sid c.access_ttl)
      wrapping "save refresh session" (save_refresh_session e sid c.refresh_ttl)
      pure (record { access_token = access; refresh_token = refresh })

    unfoldable pub issue_token_pair : String → List String → AuthAction TokenPair
    issue_token_pair user_id roles = do sid ← new_sid e; issue_session user_id roles sid

    unfoldable pub login : String → String → AuthAction TokenPair
    login name password = do
      user ← ask_user_service e name password
      issue_token_pair user.id user.roles

    -- `Refresh`, once the session is known to be active, and once the token is parsed.
    abbrev pub rotate : RefreshClaims → AuthAction TokenPair
    rotate claims = do
      delete_access_session e claims.id
      delete_refresh_session e claims.id
      issue_token_pair claims.user_id claims.roles

    abbrev pub refresh_session : RefreshClaims → AuthAction TokenPair
    refresh_session claims = do
      active ← refresh_session_exists e claims.id
      raise_if (not active) invalid_token
      rotate claims

    unfoldable pub refresh : String → AuthAction TokenPair
    refresh raw = do
      now ← current e
      claims ← accepted (jwt.parse raw key_func now)
      refresh_session claims

    unfoldable pub validate : String → String → AuthAction AccessClaims
    validate raw required_role = do
      now ← current e
      claims ← accepted (jwt.parse raw key_func now)
      active ← access_session_exists e claims.id
      raise_if (not active) invalid_token
      raise_if (lacks claims.roles required_role) forbidden
      pure claims

    unfoldable pub logout : String → String → AuthAction (Unit {0})
    logout access_token refresh_token = do
      now ← current e
      drop_access e (sid_from_access_token access_token now)
      now' ← current e
      drop_refresh e (sid_from_refresh_token refresh_token now')
