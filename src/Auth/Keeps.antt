-- ===== src/Auth/Keeps.antt =====
-- Calls of services/auth_service that do not bring a key back, one rule for each way to compose them.
use inno_taxi.Base.{ℕ, String, Option, none, some, Bool, true, false, ◌≡◌, ◌≢◌, ap, ◌∙◌, arith}
use inno_taxi.Base.Action.{Result, ok, err, pure, raise_if, continue, ◌>>=◌}
use inno_taxi.Auth.Store.{
  Key, access_key, refresh_key, same_key, Env, World, AuthAction, holds, save_access_session,
  save_refresh_session, access_session_exists, refresh_session_exists, delete_access_session,
  delete_refresh_session,
}
use inno_taxi.Auth.Sessions.{IsGone, remove-keeps, put-keeps}
use inno_taxi.Auth.Service.{
  wrapping, signed, current, new_sid, ask_user_service, accepted, drop_access, drop_refresh,
}
use inno_taxi.Auth.Requests.{NeverIssues}

-- `m` does not bring the key back.
pub data Keeps {A : Type 0} (k : Key) (m : AuthAction A) : Type 0 where
  keeps : ((w : World) → IsGone k w.sessions → IsGone k (m w).1.sessions) → Keeps k m

pub Keeps-run :
    {A : Type 0} {k : Key} {m : AuthAction A}
    → Keeps k m
    → (w : World) → IsGone k w.sessions
    → IsGone k (m w).1.sessions
Keeps-run (keeps f) = f

module _ (k : Key) where
  pub Keeps-bind :
      {A B : Type 0} (m : AuthAction A) (f : A → AuthAction B)
      → Keeps k m
      → ((a : A) → Keeps k (f a))
      → Keeps k (m >>= f)
  Keeps-bind {A} {B} m f h g = keeps λ w gone. go (m w).0 (m w).1 (Keeps-run h w gone)
    where
      go : (r : Result _ A) (v : World) → IsGone k v.sessions → IsGone k (continue f r v).1.sessions
      go (ok a) v gone = Keeps-run (g a) v gone
      go (err x) v gone = gone

  pub Keeps-same :
      {A : Type 0} (m : AuthAction A) → ((w : World) → (m w).1.sessions ≡ w.sessions) → Keeps k m
  Keeps-same m h = keeps λ w gone now. ap (λ ss. holds k now ss) (h w) ∙ gone now

  pub Keeps-pure : {A : Type 0} (a : A) → Keeps k (pure a)
  Keeps-pure a = keeps λ w gone. gone

  pub Keeps-raise_if : (b : Bool) (x : _) → Keeps k (raise_if b x)
  Keeps-raise_if true x = keeps λ w gone. gone
  Keeps-raise_if false x = keeps λ w gone. gone

  pub Keeps-wrapping :
      {A : Type 0} (m : String) (f : AuthAction A) → Keeps k f → Keeps k (wrapping m f)
  Keeps-wrapping m f h = keeps λ w gone. Keeps-run h w gone

  pub Keeps-signed : (m : String) (r : Result String String) → Keeps k (signed m r)
  Keeps-signed m (ok t) = keeps λ w gone. gone
  Keeps-signed m (err x) = keeps λ w gone. gone

  pub Keeps-accepted : {A : Type 0} (o : Option A) → Keeps k (accepted o)
  Keeps-accepted none = keeps λ w gone. gone
  Keeps-accepted (some a) = keeps λ w gone. gone

  module _ (e : Env) where
    pub Keeps-delete_access : (sid : String) → Keeps k (delete_access_session e sid)
    unfolding delete_access_session
    Keeps-delete_access sid =
        keeps λ w gone now.
          ground (arith, gone now, remove-keeps k (access_key sid) w.sessions gone now)

    pub Keeps-delete_refresh : (sid : String) → Keeps k (delete_refresh_session e sid)
    unfolding delete_refresh_session
    Keeps-delete_refresh sid =
        keeps λ w gone now.
          ground (arith, gone now, remove-keeps k (refresh_key sid) w.sessions gone now)

    pub Keeps-save_access :
        (sid : String) (ttl : ℕ)
        → same_key (access_key sid) k ≡ false
        → Keeps k (save_access_session e sid ttl)
    unfolding save_access_session
    Keeps-save_access sid ttl other = keeps λ w gone now. ground (
      arith,
      gone now,
      put-keeps k (access_key sid) ttl (e.now w.commands) w.sessions other gone now,
    )

    pub Keeps-save_refresh :
        (sid : String) (ttl : ℕ)
        → same_key (refresh_key sid) k ≡ false
        → Keeps k (save_refresh_session e sid ttl)
    unfolding save_refresh_session
    Keeps-save_refresh sid ttl other = keeps λ w gone now. ground (
      arith,
      gone now,
      put-keeps k (refresh_key sid) ttl (e.now w.commands) w.sessions other gone now,
    )

    pub Keeps-access_exists : (sid : String) → Keeps k (access_session_exists e sid)
    unfolding access_session_exists
    Keeps-access_exists sid = Keeps-same _ λ w. ground arith

    pub Keeps-refresh_exists : (sid : String) → Keeps k (refresh_session_exists e sid)
    unfolding refresh_session_exists
    Keeps-refresh_exists sid = Keeps-same _ λ w. ground arith

    pub Keeps-drop_access : (o : Option String) → Keeps k (drop_access e o)
    Keeps-drop_access none = keeps λ w gone. gone
    Keeps-drop_access (some sid) = Keeps-delete_access sid

    pub Keeps-drop_refresh : (o : Option String) → Keeps k (drop_refresh e o)
    Keeps-drop_refresh none = keeps λ w gone. gone
    Keeps-drop_refresh (some sid) = Keeps-delete_refresh sid

    -- With a condition on the id that is drawn.
    pub Keeps-new_sid :
        {B : Type 0} (sid : String) (f : String → AuthAction B)
        → NeverIssues sid e
        → ((s : String) → s ≢ sid → Keeps k (f s))
        → Keeps k (new_sid e >>= f)
    Keeps-new_sid sid f fresh h =
        keeps λ w gone. Keeps-run (h (e.fresh_id w.commands) (fresh w.commands)) w gone

    pub Keeps-current : Keeps k (current e)
    Keeps-current = keeps λ w gone. gone

    pub Keeps-ask : (name password : String) → Keeps k (ask_user_service e name password)
    Keeps-ask name password = keeps λ w gone. gone
