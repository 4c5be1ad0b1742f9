-- ===== src/Auth/Login.antt =====
-- The two tokens that a login gives, and what each of them opens.
use inno_taxi.Shared.{bearer_prefix, key_of, auth, auth_interceptor}
use inno_taxi.Shared.Agrees.{auth-bearer, auth_interceptor-bearer}
use Prim.Native.String.{◌++◌}
use inno_taxi.Base.{some, [], ◌+◌, ◌<◌, String, false, List, ◌∷◌, ◌≡◌, refl, ap, ◌∙◌}
use inno_taxi.Base.Action.{ok}
use inno_taxi.Auth.Entity.{UserInfo, AccessClaims, Jwt, Config}
use inno_taxi.Auth.Store.{Command, verify, set, access_key, refresh_key, Env, World, holds}
use inno_taxi.Auth.Sessions.{rotated}
use inno_taxi.Auth.Service.{
  lacks, access_claims, refresh_claims, key_func, login, refresh, validate,
}
use inno_taxi.Auth.Healthy.{
  AlwaysAnswers, ParsesAs, holds-access, holds-refresh, login-healthy, validate-healthy,
  issue-healthy, refresh-healthy,
}

-- The commands before the session id is drawn.
abbrev pub before_issue : String → World → List Command
before_issue name w = verify name ∷ w.commands

module _ (jwt : Jwt) (c : Config) (e : Env) where
  -- What is written in the tokens of a login.
  abbrev pub login_access : String → UserInfo → World → AccessClaims
  login_access name u w =
      access_claims jwt c e u.id u.roles (e.fresh_id (before_issue name w))
        (e.now (before_issue name w))

  abbrev pub login_refresh : String → UserInfo → World → AccessClaims
  login_refresh name u w =
      refresh_claims jwt c e u.id u.roles (e.fresh_id (before_issue name w))
        (e.now (before_issue name w))

module _ (jwt : Jwt) (c : Config) (e late : Env) (calm : AlwaysAnswers e)
    (calm' : AlwaysAnswers late) (name password access refreshing : String) (u : UserInfo)
    (w : World) (known : e.verify_credentials (before_issue name w) name password ≡ ok u)
    (sign : jwt.sign c.secret (login_access jwt c e name u w) ≡ ok access)
    (parses : ParsesAs jwt c.secret access (login_access jwt c e name u w))
    (sign' : jwt.sign c.secret (login_refresh jwt c e name u w) ≡ ok refreshing) where
  -- Where the user service knows the credentials, Redis answers and the tokens can be signed and parsed, a
  -- login gives the pair, and its access token is accepted, with the claims it was signed with, for a role
  -- that the user has, until the token or its session expires; the other services learn the id and the
  -- roles of the user from it, by HTTP and by gRPC.
  pub login-validates :
      (role : String)
      → late.now (login jwt c e name password w).1.commands
        < (login_access jwt c e name u w).expires_at
      → late.now (login jwt c e name password w).1.commands
        < e.now (before_issue name w) + c.access_ttl
      → lacks u.roles role ≡ false
      → ((login jwt c e name password w).0
          ≡ ok (record { access_token = access; refresh_token = refreshing }))
        × ((validate jwt c late access role (login jwt c e name password w).1).0
            ≡ ok (login_access jwt c e name u w))
        × (auth jwt c.secret
              (late.now (login jwt c e name password w).1.commands)
              (bearer_prefix ++ access)
            ≡ ok (record { user_id = u.id; roles = u.roles }))
        × (auth_interceptor jwt c.secret
              (late.now (login jwt c e name password w).1.commands)
              (some ((bearer_prefix ++ access) ∷ []))
            ≡ ok (record { user_id = u.id; roles = u.roles }))
  login-validates role unexpired lasting granted =
      let same = login-healthy jwt c e calm name password u access refreshing w known sign sign' in
      let v = (login jwt c e name password w).1 in
      (
        ap (λ r. r.0) same,
        validate-healthy jwt c late calm' access role v (login_access jwt c e name u w)
            (parses (key_func jwt c) (late.now v.commands) refl unexpired)
            (ap
                (λ r.
                  holds (access_key (e.fresh_id (before_issue name w))) (late.now v.commands)
                    r.1.sessions)
                same
              ∙ holds-access (e.fresh_id (before_issue name w)) c.access_ttl
                  (e.now (before_issue name w)) c.refresh_ttl
                  (e.now
                    (set (access_key (e.fresh_id (before_issue name w))) ∷ before_issue name w))
                  (late.now v.commands) w.sessions lasting)
            granted,
        auth-bearer jwt c.secret (late.now v.commands) access (login_access jwt c e name u w)
            (parses (key_of c.secret) (late.now v.commands) refl unexpired),
        auth_interceptor-bearer jwt c.secret (late.now v.commands) access []
            (login_access jwt c e name u w)
            (parses (key_of c.secret) (late.now v.commands) refl unexpired),
      )

  -- Under the same conditions, the access token of a login is accepted by Refresh, which gives a new
  -- pair, until the token or the refresh session expires.
  pub access-refreshes :
      (access' refreshing' : String)
      → late.now (login jwt c e name password w).1.commands
        < (login_access jwt c e name u w).expires_at
      → late.now (login jwt c e name password w).1.commands
        < e.now (set (access_key (e.fresh_id (before_issue name w))) ∷ before_issue name w)
          + c.refresh_ttl
      → jwt.sign c.secret (
          access_claims jwt c late u.id u.roles
            (late.fresh_id
              (rotated
                (e.fresh_id (before_issue name w))
                (login jwt c e name password w).1).commands)
            (late.now
              (rotated
                (e.fresh_id (before_issue name w))
                (login jwt c e name password w).1).commands))
        ≡ ok access'
      → jwt.sign c.secret (
          refresh_claims jwt c late u.id u.roles
            (late.fresh_id
              (rotated
                (e.fresh_id (before_issue name w))
                (login jwt c e name password w).1).commands)
            (late.now
              (rotated
                (e.fresh_id (before_issue name w))
                (login jwt c e name password w).1).commands))
        ≡ ok refreshing'
      → (refresh jwt c late access (login jwt c e name password w).1).0
        ≡ ok (record { access_token = access'; refresh_token = refreshing' })
  access-refreshes access' refreshing' unexpired lasting p q =
      let sid = e.fresh_id (before_issue name w) in
      let same = login-healthy jwt c e calm name password u access refreshing w known sign sign' in
      let v = (login jwt c e name password w).1 in
      ap (λ r. r.0)
        (refresh-healthy jwt c late calm' access v (login_access jwt c e name u w)
            (parses (key_func jwt c) (late.now v.commands) refl unexpired)
            (ap (λ r. holds (refresh_key sid) (late.now v.commands) r.1.sessions) same
              ∙ holds-refresh sid c.access_ttl (e.now (before_issue name w)) c.refresh_ttl
                  (e.now (set (access_key sid) ∷ before_issue name w)) (late.now v.commands)
                  w.sessions lasting)
          ∙ issue-healthy jwt c late calm' u.id u.roles access' refreshing' (rotated sid v) p q)
