-- ===== src/Auth/Revoked.antt =====
-- A session that has ended stays ended: what the methods of `AuthService` do to the keys of a
-- session that they do not issue.
use inno_taxi.Base.{not, String, false, List, [], ◌∷◌, ◌≡◌, ◌≢◌, refl, inl, inr}
use inno_taxi.Base.Action.{raise_if}
use inno_taxi.Base.Lists.{All}
use inno_taxi.Base.Tests.{◌==◌, Bool-cases, ==_eq}
use inno_taxi.Auth.Entity.{Jwt, Config, invalid_token, forbidden}
use inno_taxi.Auth.Store.{
  Key, access_key, refresh_key, same_key, Env, World, save_access_session, save_refresh_session,
  access_session_exists, refresh_session_exists, delete_access_session, delete_refresh_session,
}
use inno_taxi.Auth.Sessions.{IsGone}
use inno_taxi.Auth.Service.{
  key_func, sid_from_access_token, sid_from_refresh_token, wrapping, signed, current,
  ask_user_service, accepted, drop_access, issue_token_pair, login, refresh, validate, logout,
  issue_session, access_claims, refresh_claims, lacks,
}
use inno_taxi.Auth.Requests.{
  Request, to_login, to_logout, to_validate, to_refresh, NeverIssues, handle, run,
}
use inno_taxi.Auth.Keeps.{
  Keeps, Keeps-accepted, Keeps-access_exists, Keeps-ask, Keeps-bind, Keeps-current,
  Keeps-delete_access, Keeps-delete_refresh, Keeps-drop_access, Keeps-drop_refresh, Keeps-new_sid,
  Keeps-pure, Keeps-raise_if, Keeps-refresh_exists, Keeps-run, Keeps-save_access,
  Keeps-save_refresh, Keeps-signed, Keeps-wrapping,
}

-- The session of a key.
abbrev pub session_of : Key → String
session_of (access_key s) = s
session_of (refresh_key s) = s

other_access : (k : Key) (s : String) → s ≢ session_of k → same_key (access_key s) k ≡ false
other_access (access_key t) s h = elim (Bool-cases (s == t)) [
  | inl same ↦ absurd (h (==_eq s t same))
  | inr other ↦ other
]
other_access (refresh_key t) s h = refl

other_refresh : (k : Key) (s : String) → s ≢ session_of k → same_key (refresh_key s) k ≡ false
other_refresh (refresh_key t) s h = elim (Bool-cases (s == t)) [
  | inl same ↦ absurd (h (==_eq s t same))
  | inr other ↦ other
]
other_refresh (access_key t) s h = refl

module _ (jwt : Jwt) (c : Config) (e : Env) (k : Key) (fresh : NeverIssues (session_of k) e) where
  pub issue-Keeps : (u : String) (roles : List String) → Keeps k (issue_token_pair jwt c e u roles)
  unfolding issue_token_pair
  issue-Keeps u roles =
      Keeps-new_sid k e (session_of k) (issue_session jwt c e u roles) fresh λ s other.
        Keeps-bind k (current e) _ (Keeps-current k e) λ now.
          Keeps-bind k
            (signed "sign access token" (jwt.sign c.secret (access_claims jwt c e u roles s now))) _
            (Keeps-signed k _ _)
            λ access.
              Keeps-bind k
                (signed "sign refresh token"
                  (jwt.sign c.secret (refresh_claims jwt c e u roles s now)))
                _ (Keeps-signed k _ _)
                λ refreshing.
                  Keeps-bind k
                    (wrapping "save access session" (save_access_session e s c.access_ttl)) _
                    (Keeps-wrapping k _ _
                      (Keeps-save_access k e s c.access_ttl (other_access k s other)))
                    λ _.
                      Keeps-bind k
                        (wrapping "save refresh session" (save_refresh_session e s c.refresh_ttl)) _
                        (Keeps-wrapping k _ _
                          (Keeps-save_refresh k e s c.refresh_ttl (other_refresh k s other)))
                        λ _.
                          Keeps-pure k
                            (record { access_token = access; refresh_token = refreshing })

  login-Keeps : (name password : String) → Keeps k (login jwt c e name password)
  unfolding login
  login-Keeps name password =
      Keeps-bind k (ask_user_service e name password) _ (Keeps-ask k e name password)
        λ u. issue-Keeps u.id u.roles

  refresh-Keeps : (raw : String) → Keeps k (refresh jwt c e raw)
  unfolding refresh
  refresh-Keeps raw = Keeps-bind k (current e) _ (Keeps-current k e) λ now.
      Keeps-bind k (accepted (jwt.parse raw (key_func jwt c) now)) _ (Keeps-accepted k _) λ claims.
        Keeps-bind k (refresh_session_exists e claims.id) _ (Keeps-refresh_exists k e claims.id)
          λ active. Keeps-bind k (raise_if (not active) invalid_token) _ (Keeps-raise_if k _ _) λ _.
            Keeps-bind k (delete_access_session e claims.id) _ (Keeps-delete_access k e claims.id)
              λ _.
                Keeps-bind k (delete_refresh_session e claims.id) _
                  (Keeps-delete_refresh k e claims.id) λ _. issue-Keeps claims.user_id claims.roles

  validate-Keeps : (raw role : String) → Keeps k (validate jwt c e raw role)
  unfolding validate
  validate-Keeps raw role = Keeps-bind k (current e) _ (Keeps-current k e) λ now.
      Keeps-bind k (accepted (jwt.parse raw (key_func jwt c) now)) _ (Keeps-accepted k _) λ claims.
        Keeps-bind k (access_session_exists e claims.id) _ (Keeps-access_exists k e claims.id)
          λ active. Keeps-bind k (raise_if (not active) invalid_token) _ (Keeps-raise_if k _ _) λ _.
            Keeps-bind k (raise_if (lacks claims.roles role) forbidden) _ (Keeps-raise_if k _ _)
              λ _. Keeps-pure k claims

  logout-Keeps : (access refreshing : String) → Keeps k (logout jwt c e access refreshing)
  unfolding logout
  logout-Keeps access refreshing = Keeps-bind k (current e) _ (Keeps-current k e) λ now.
      Keeps-bind k (drop_access e (sid_from_access_token jwt c access now)) _
        (Keeps-drop_access k e _)
        λ _.
          Keeps-bind k (current e) _ (Keeps-current k e)
            λ now'. Keeps-drop_refresh k e (sid_from_refresh_token jwt c refreshing now')

  pub handle-IsGone :
      (q : Request) (w : World) → IsGone k w.sessions → IsGone k (handle jwt c e q w).sessions
  unfolding handle
  handle-IsGone (to_login name password) w = Keeps-run (login-Keeps name password) w
  handle-IsGone (to_logout access refreshing) w = Keeps-run (logout-Keeps access refreshing) w
  handle-IsGone (to_validate access role) w = Keeps-run (validate-Keeps access role) w
  handle-IsGone (to_refresh raw) w = Keeps-run (refresh-Keeps raw) w

pub run-IsGone :
    (jwt : Jwt) (c : Config) (k : Key) (qs : List (Env × Request)) (w : World)
    → All (λ q. NeverIssues (session_of k) q.0) qs
    → IsGone k w.sessions
    → IsGone k (run jwt c qs w).sessions
unfolding run
run-IsGone jwt c k [] w fresh gone = gone
run-IsGone jwt c k ((e, q) ∷ qs) w (f, fresh) gone =
    run-IsGone jwt c k qs (handle jwt c e q w) fresh (handle-IsGone jwt c e k f q w gone)
