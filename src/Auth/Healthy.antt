-- ===== src/Auth/Healthy.antt =====
-- What a login gives while Redis answers and tokens can be signed.
use inno_taxi.Base.{ℕ, zero, suc, ◌+◌, ◌<◌, String, some, true, false, List, ◌∷◌, ◌≡◌, refl, arith}
use inno_taxi.Base.Action.{ok}
use inno_taxi.Base.Tests.{==_self}
use inno_taxi.Auth.Entity.{hmac, KeyFunc, UserInfo, AccessClaims, Jwt, Config}
use inno_taxi.Auth.Store.{
  is_live, expiry, no_fault, set, exists, del, verify, put, access_key, refresh_key, Session,
  Command, Env, World, holds, remove, access_session_exists, refresh_session_exists,
  save_access_session, save_refresh_session, delete_access_session, delete_refresh_session,
}
use inno_taxi.Auth.Sessions.{rotated}
use inno_taxi.Auth.Service.{
  lacks, access_claims, refresh_claims, key_func, login, issue_token_pair, refresh, validate,
}

-- Redis answers every command.
abbrev pub AlwaysAnswers : Env → Type 0
AlwaysAnswers e = (l : List Command) → e.redis l ≡ no_fault

-- golang-jwt: a text is a token of these claims under the secret, and is parsed to them until they
-- expire.
abbrev pub ParsesAs : Jwt → String → String → AccessClaims → Type 0
ParsesAs jwt secret raw claims =
    (key : KeyFunc) (t : ℕ)
    → key hmac ≡ ok secret
    → t < claims.expires_at
    → jwt.parse raw key t ≡ some claims

live : (ttl t now : ℕ) → now < t + ttl → is_live now (expiry ttl t) ≡ true
live zero t now h = refl
live (suc n) t now h = ground (arith, h)

module _ (sid : String) (ttl t ttl' t' now : ℕ) (ss : List Session) where
  -- Both keys of a new pair.
  pub holds-access :
      now < t + ttl
      → holds (access_key sid) now (put (refresh_key sid) ttl' t' (put (access_key sid) ttl t ss))
        ≡ true
  unfolding holds remove
  holds-access h = rw (==_self sid) (rw (live ttl t now h) refl)

  pub holds-refresh :
      now < t' + ttl'
      → holds (refresh_key sid) now (put (refresh_key sid) ttl' t' (put (access_key sid) ttl t ss))
        ≡ true
  unfolding holds remove
  holds-refresh h = rw (==_self sid) (rw (live ttl' t' now h) refl)

module _ (jwt : Jwt) (c : Config) (e : Env) (calm : AlwaysAnswers e) where
  -- The world after a pair was issued in `w`.
  abbrev pub issued : World → World
  issued w =
      let sid = e.fresh_id w.commands in
      let l = set (access_key sid) ∷ w.commands in
      record {
        sessions =
            put (refresh_key sid) c.refresh_ttl (e.now l)
              (put (access_key sid) c.access_ttl (e.now w.commands) w.sessions);
        commands = set (refresh_key sid) ∷ l;
      }

  pub issue-healthy :
      (u : String) (roles : List String) (access refreshing : String) (w : World)
      → jwt.sign c.secret (access_claims jwt c e u roles (e.fresh_id w.commands) (e.now w.commands))
        ≡ ok access
      → jwt.sign c.secret
          (refresh_claims jwt c e u roles (e.fresh_id w.commands) (e.now w.commands))
        ≡ ok refreshing
      → issue_token_pair jwt c e u roles w
        ≡ (ok (record { access_token = access; refresh_token = refreshing }), issued w)
  unfolding issue_token_pair save_access_session save_refresh_session
  issue-healthy u roles access refreshing w p q =
      let sid = e.fresh_id w.commands in
      ground (
        arith,
        p,
        q,
        calm (set (access_key sid) ∷ w.commands),
        calm (set (refresh_key sid) ∷ set (access_key sid) ∷ w.commands),
      )

  abbrev pub asked : String → World → World
  asked name w = record w { commands = verify name ∷ w.commands }

  pub login-healthy :
      (name password : String) (u : UserInfo) (access refreshing : String) (w : World)
      → e.verify_credentials (verify name ∷ w.commands) name password ≡ ok u
      → jwt.sign c.secret (
          access_claims jwt c e u.id u.roles
            (e.fresh_id (verify name ∷ w.commands))
            (e.now (verify name ∷ w.commands)))
        ≡ ok access
      → jwt.sign c.secret (
          refresh_claims jwt c e u.id u.roles
            (e.fresh_id (verify name ∷ w.commands))
            (e.now (verify name ∷ w.commands)))
        ≡ ok refreshing
      → login jwt c e name password w
        ≡ (ok (record { access_token = access; refresh_token = refreshing }), issued (asked name w))
  unfolding login
  login-healthy name password u access refreshing w v p q =
      rw v (issue-healthy u.id u.roles access refreshing (asked name w) p q)

  pub validate-healthy :
      (raw role : String) (w : World) (claims : AccessClaims)
      → jwt.parse raw (key_func jwt c) (e.now w.commands) ≡ some claims
      → holds (access_key claims.id) (e.now w.commands) w.sessions ≡ true
      → lacks claims.roles role ≡ false
      → (validate jwt c e raw role w).0 ≡ ok claims
  unfolding validate access_session_exists
  validate-healthy raw role w claims p h granted =
      ground (arith, p, h, granted, calm (exists (access_key claims.id) ∷ w.commands))

  pub refresh-healthy :
      (raw : String) (w : World) (claims : AccessClaims)
      → jwt.parse raw (key_func jwt c) (e.now w.commands) ≡ some claims
      → holds (refresh_key claims.id) (e.now w.commands) w.sessions ≡ true
      → refresh jwt c e raw w
        ≡ issue_token_pair jwt c e claims.user_id claims.roles (rotated claims.id w)
  unfolding refresh refresh_session_exists delete_access_session delete_refresh_session
  refresh-healthy raw w claims p h =
      let l = exists (refresh_key claims.id) ∷ w.commands in
      ground (
        arith,
        p,
        h,
        calm l,
        calm (del (access_key claims.id) ∷ l),
        calm (del (refresh_key claims.id) ∷ del (access_key claims.id) ∷ l),
      )
