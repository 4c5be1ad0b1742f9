-- ===== src/Auth/Store.antt =====
-- services/auth_service/repository/redis_repo: the sessions that Redis holds, and the commands on
-- them, each of which may be lost before or after it takes effect.
use inno_taxi.Base.{
  ℕ, zero, suc, ◌+◌, String, Option, none, some, Bool, true, false, ◌||◌, List, [], ◌∷◌,
}
use inno_taxi.Base.Action.{Result, ok, err, Action}
use inno_taxi.Base.Tests.{◌==◌, ltb, if◌then◌else◌}
use inno_taxi.Auth.Entity.{AuthError, outside, UserInfo}

-- `accessKey` and `refreshKey`: the texts of two keys are equal where kind and session are.
pub data Key : Type 0 where
  access_key refresh_key : String → Key

abbrev pub same_key : Key → Key → Bool
same_key (access_key a) (access_key b) = a == b
same_key (refresh_key a) (refresh_key b) = a == b
same_key _ _ = false

-- A key whose value is `sessionActive`, and when it expires, if ever.
pub record Session : Type 0 where
  pub key : Key
  pub expires_at : Option ℕ

-- What the service sends out: commands to Redis, and the request to the user service.
pub data Command : Type 0 where
  set exists del : Key → Command
  verify : String → Command

pub data Fault : Type 0 where
  no_fault : Fault
  request_lost reply_lost : String → Fault

-- What the outside answers, by the commands sent so far, the latest first.
pub record Env : Type 0 where
  pub redis : List Command → Fault
  pub now : List Command → ℕ
  pub fresh_id : List Command → String
  pub verify_credentials : List Command → String → String → Result AuthError UserInfo

pub record World : Type 0 where
  pub sessions : List Session
  pub commands : List Command

abbrev pub AuthAction : Type 0 → Type 0
AuthAction A = Action World AuthError A

unfoldable pub remove : Key → List Session → List Session
remove k [] = []
remove k (s ∷ ss) = if same_key s.key k then remove k ss else s ∷ remove k ss

abbrev pub is_live : ℕ → Option ℕ → Bool
is_live now none = true
is_live now (some t) = ltb now t

-- `EXISTS`, at a time.
unfoldable pub holds : Key → ℕ → List Session → Bool
holds k now [] = false
holds k now (s ∷ ss) =
    (if same_key s.key k then is_live now s.expires_at else false) || holds k now ss

-- `SET` without a lifetime keeps the key for ever.
abbrev pub expiry : ℕ → ℕ → Option ℕ
expiry zero now = none
expiry (suc n) now = some (now + suc n)

abbrev pub put : Key → ℕ → ℕ → List Session → List Session
put k ttl now ss = record { key = k; expires_at = expiry ttl now } ∷ remove k ss

abbrev run_command :
    {A : Type 0} → Env → Command → (List Session → List Session) → (List Session → A) → AuthAction A
run_command e c effect answer w =
    let l = c ∷ w.commands in
    elim (e.redis l) [
      | no_fault ↦ (ok (answer w.sessions), record { sessions = effect w.sessions; commands = l })
      | request_lost m ↦ (err (outside m), record { sessions = w.sessions; commands = l })
      | reply_lost m ↦ (err (outside m), record { sessions = effect w.sessions; commands = l })
    ]

module _ (e : Env) where
  unfoldable pub save_access_session : String → ℕ → AuthAction (Unit {0})
  save_access_session sid ttl w =
      run_command e (set (access_key sid)) (put (access_key sid) ttl (e.now w.commands)) (λ ss. tt)
        w

  unfoldable pub save_refresh_session : String → ℕ → AuthAction (Unit {0})
  save_refresh_session sid ttl w =
      run_command e (set (refresh_key sid)) (put (refresh_key sid) ttl (e.now w.commands))
        (λ ss. tt) w

  abbrev exists_key : Key → AuthAction Bool
  exists_key k w = run_command e (exists k) (λ ss. ss) (holds k (e.now w.commands)) w

  abbrev delete_key : Key → AuthAction (Unit {0})
  delete_key k = run_command e (del k) (remove k) (λ ss. tt)

  unfoldable pub access_session_exists : String → AuthAction Bool
  access_session_exists sid = exists_key (access_key sid)

  unfoldable pub refresh_session_exists : String → AuthAction Bool
  refresh_session_exists sid = exists_key (refresh_key sid)

  unfoldable pub delete_access_session : String → AuthAction (Unit {0})
  delete_access_session sid = delete_key (access_key sid)

  unfoldable pub delete_refresh_session : String → AuthAction (Unit {0})
  delete_refresh_session sid = delete_key (refresh_key sid)
