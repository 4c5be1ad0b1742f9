-- ===== src/Auth/Ended.antt =====
-- Logging out and refreshing end a session for good.
use inno_taxi.Base.{ℕ, String, some, true, List, ◌≡◌, ◌≢◌, refl, sym, ap, ◌∙◌, arith}
use mathlib.Core.Path.{subst}
use inno_taxi.Base.Action.{ok, ◌>>◌, >>=-eq-ok}
use inno_taxi.Base.Lists.{All}
use inno_taxi.Base.Tests.{some_unique}
use inno_taxi.Auth.Entity.{TokenPair, AccessClaims, Jwt, Config}
use inno_taxi.Auth.Store.{
  Key, access_key, refresh_key, Session, Env, World, holds, remove, AuthAction,
  access_session_exists, refresh_session_exists, delete_access_session, delete_refresh_session,
}
use inno_taxi.Auth.Sessions.{rotated, IsGone, remove-IsGone, remove-keeps}
use inno_taxi.Auth.Service.{
  key_func, sid_from_access_token, sid_from_refresh_token, drop_refresh, issue_token_pair, refresh,
  refresh_session, validate, logout,
}
use inno_taxi.Auth.Requests.{Request, NeverIssues, run}
use inno_taxi.Auth.Keeps.{Keeps-run, Keeps-drop_refresh}
use inno_taxi.Auth.Revoked.{session_of, issue-Keeps, run-IsGone}

contradiction : (k : Key) (now : ℕ) (ss : List Session) → IsGone k ss → holds k now ss ≡ true → ⊥
contradiction k now ss gone h = ground (arith, gone now, h)

module _ (jwt : Jwt) (c : Config) (e : Env) where
  validate-holds :
      (raw role : String) (w : World) (claims : AccessClaims)
      → (validate jwt c e raw role w).0 ≡ ok claims
      → holds (access_key claims.id) (e.now w.commands) w.sessions ≡ true
  unfolding validate access_session_exists
  validate-holds raw role w claims h = ground (arith, h)

  validate-parsed :
      (raw role : String) (w : World) (claims : AccessClaims)
      → (validate jwt c e raw role w).0 ≡ ok claims
      → jwt.parse raw (key_func jwt c) (e.now w.commands) ≡ some claims
  unfolding validate access_session_exists
  validate-parsed raw role w claims h = ground (arith, h)

  refresh-parsed :
      (raw : String) (w : World) (claims : AccessClaims)
      → jwt.parse raw (key_func jwt c) (e.now w.commands) ≡ some claims
      → refresh jwt c e raw w ≡ refresh_session jwt c e claims w
  unfolding refresh
  refresh-parsed raw w claims p = rw p refl

  -- A session that was refreshed was active, and its keys were dropped before the new ones came.
  refresh_session-ok :
      (claims : AccessClaims) (w : World) (pair : TokenPair)
      → (refresh_session jwt c e claims w).0 ≡ ok pair
      → (holds (refresh_key claims.id) (e.now w.commands) w.sessions ≡ true)
        × (refresh_session jwt c e claims w
            ≡ issue_token_pair jwt c e claims.user_id claims.roles (rotated claims.id w))
  unfolding refresh_session_exists delete_access_session delete_refresh_session
  refresh_session-ok claims w pair h = ground (arith, h)

  refresh-IsGone :
      (k : Key) (claims : AccessClaims) (w : World) (pair : TokenPair)
      → (refresh_session jwt c e claims w).0 ≡ ok pair
      → NeverIssues (session_of k) e
      → session_of k ≡ claims.id
      → IsGone k (refresh_session jwt c e claims w).1.sessions
  refresh-IsGone k claims w pair h fresh same = rw (refresh_session-ok claims w pair h).1 (
      Keeps-run (issue-Keeps jwt c e k fresh claims.user_id claims.roles) (rotated claims.id w)
        (dropped k same))
    where
      dropped : (j : Key) → session_of j ≡ claims.id → IsGone j (rotated claims.id w).sessions
      dropped (access_key s) q =
          subst (λ i. IsGone (access_key i) (rotated claims.id w).sessions) (sym q)
            (remove-keeps (access_key claims.id) (refresh_key claims.id) _
              (remove-IsGone (access_key claims.id) w.sessions))
      dropped (refresh_key s) q =
          subst (λ i. IsGone (refresh_key i) (rotated claims.id w).sessions) (sym q)
            (remove-IsGone (refresh_key claims.id) _)

  delete_access-ok :
      (sid : String) (w : World) (a : Unit {0})
      → (delete_access_session e sid w).0 ≡ ok a
      → (delete_access_session e sid w).1.sessions ≡ remove (access_key sid) w.sessions
  unfolding delete_access_session
  delete_access-ok sid w a h = ground (arith, h)

  abbrev drop_rest : String → AuthAction (Unit {0})
  drop_rest refreshing w =
      drop_refresh e (sid_from_refresh_token jwt c refreshing (e.now w.commands)) w

  logout-parsed :
      (access refreshing sid : String) (w : World)
      → sid_from_access_token jwt c access (e.now w.commands) ≡ some sid
      → logout jwt c e access refreshing w ≡ (delete_access_session e sid >> drop_rest refreshing) w
  unfolding logout
  logout-parsed access refreshing sid w p = rw p refl

  logout-IsGone :
      (access refreshing sid : String) (w : World)
      → sid_from_access_token jwt c access (e.now w.commands) ≡ some sid
      → (logout jwt c e access refreshing w).0 ≡ ok tt
      → IsGone (access_key sid) (logout jwt c e access refreshing w).1.sessions
  logout-IsGone access refreshing sid w p h =
      let same = logout-parsed access refreshing sid w p in
      let v = (delete_access_session e sid w).1 in
      let (a, dropped, rest) =
        >>=-eq-ok (delete_access_session e sid) (λ _. drop_rest refreshing) w
          (ap (λ r. r.0) (sym same) ∙ h) in
      subst (λ r. IsGone (access_key sid) r.1.sessions) (rest ∙ sym same)
        (Keeps-run (Keeps-drop_refresh (access_key sid) e _) v (
          subst (λ ss. IsGone (access_key sid) ss) (sym (delete_access-ok sid w a dropped))
            (remove-IsGone (access_key sid) w.sessions)))

module _ (jwt : Jwt) (c : Config) (e : Env) where
  -- When a logout has succeeded, whose access token was valid, no access token of that session is
  -- accepted any more, after any requests, whatever fails, as long as none draws that session id again.
  pub logout-revokes :
      (access refreshing sid raw role : String) (w : World) (qs : List (Env × Request)) (late : Env)
      (claims : AccessClaims)
      → sid_from_access_token jwt c access (e.now w.commands) ≡ some sid
      → (logout jwt c e access refreshing w).0 ≡ ok tt
      → All (λ q. NeverIssues sid q.0) qs
      → (validate jwt c late raw role (run jwt c qs (logout jwt c e access refreshing w).1)).0
        ≡ ok claims
      → claims.id ≢ sid
  logout-revokes access refreshing sid raw role w qs late claims p h fresh valid same =
      let v = run jwt c qs (logout jwt c e access refreshing w).1 in
      let gone =
        run-IsGone jwt c (access_key sid) qs _ fresh
          (logout-IsGone jwt c e access refreshing sid w p h) in
      contradiction (access_key sid) (late.now v.commands) v.sessions gone (
        subst (λ i. holds (access_key i) (late.now v.commands) v.sessions ≡ true) same
          (validate-holds jwt c late raw role v claims valid))

  -- When a refresh has succeeded, the session of its token has ended: after any requests, whatever
  -- fails, no token of that session is refreshed again and none is accepted, as long as neither the
  -- refresh nor the requests draw that session id again.
  pub refresh-retires :
      (raw : String) (w : World) (pair : TokenPair) (old : AccessClaims) (qs : List (Env × Request))
      (late : Env) (raw' role : String) (claims : AccessClaims)
      → jwt.parse raw (key_func jwt c) (e.now w.commands) ≡ some old
      → (refresh jwt c e raw w).0 ≡ ok pair
      → NeverIssues old.id e
      → All (λ q. NeverIssues old.id q.0) qs
      → jwt.parse raw' (key_func jwt c) (late.now (run jwt c qs (refresh jwt c e raw w).1).commands)
        ≡ some claims
      → claims.id ≡ old.id
      → ((pair' : TokenPair)
          → (refresh jwt c late raw' (run jwt c qs (refresh jwt c e raw w).1)).0 ≢ ok pair')
        × ((claims' : AccessClaims)
            → (validate jwt c late raw' role (run jwt c qs (refresh jwt c e raw w).1)).0
              ≢ ok claims')
  refresh-retires raw w pair old qs late raw' role claims p h fresh later p' same =
      let v = run jwt c qs (refresh jwt c e raw w).1 in
      let done = refresh-parsed jwt c e raw w old p in
      let gone : (k : Key) → session_of k ≡ old.id → IsGone k (refresh jwt c e raw w).1.sessions =
        λ k q.
          subst (λ r. IsGone k r.1.sessions) (sym done)
            (refresh-IsGone jwt c e k old w pair (ap (λ r. r.0) (sym done) ∙ h)
              (subst (λ i. NeverIssues i e) (sym q) fresh) q) in
      (
        (λ pair' again.
            contradiction (refresh_key old.id) (late.now v.commands) v.sessions
              (run-IsGone jwt c (refresh_key old.id) qs _ later (gone (refresh_key old.id) refl))
              (subst (λ i. holds (refresh_key i) (late.now v.commands) v.sessions ≡ true) same
                (refresh_session-ok jwt c late claims v pair'
                  (ap (λ r. r.0) (sym (refresh-parsed jwt c late raw' v claims p')) ∙ again)).0)),
        (λ claims' valid.
            contradiction (access_key old.id) (late.now v.commands) v.sessions
              (run-IsGone jwt c (access_key old.id) qs _ later (gone (access_key old.id) refl))
              (subst (λ i. holds (access_key i) (late.now v.commands) v.sessions ≡ true)
                (ap (λ (x : AccessClaims). x.id)
                    (some_unique (validate-parsed jwt c late raw' role v claims' valid) p')
                  ∙ same)
                (validate-holds jwt c late raw' role v claims' valid))),
      )
