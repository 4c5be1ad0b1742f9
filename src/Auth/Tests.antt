-- ===== src/Auth/Tests.antt =====
-- One user who logs in, logs out and refreshes.
use inno_taxi.Base.{false, ℕ, String, Option, none, some, List, [], ◌∷◌, ◌≡◌, ◌≢◌, refl, ◌<◌, arith}
use inno_taxi.Base.Action.{ok, err}
use inno_taxi.Base.Tests.{◌==◌, ltb, if◌then◌else◌, ==_ne}
use inno_taxi.Shared.{auth, auth_interceptor}
use inno_taxi.Auth.Entity.{hmac, KeyFunc, UserInfo, TokenPair, AccessClaims, Jwt, Config}
use inno_taxi.Auth.Store.{
  access_key, refresh_key, no_fault, Env, World, remove, holds, save_access_session,
  save_refresh_session, access_session_exists, refresh_session_exists, delete_access_session,
  delete_refresh_session,
}
use inno_taxi.Auth.Service.{
  contains, lacks, sid_from_access_token, sid_from_refresh_token, issue_token_pair, login, refresh,
  validate, logout,
}
use inno_taxi.Auth.Requests.{Request, to_login, handle, run}
use inno_taxi.Auth.Ended.{logout-revokes, refresh-retires}
use inno_taxi.Auth.Healthy.{ParsesAs}
use inno_taxi.Auth.Login.{login-validates, access-refreshes}

abbrev claims_of : String → ℕ → ℕ → AccessClaims
claims_of sid t until = record {
  user_id = "u1";
  roles = "user" ∷ [];
  id = sid;
  subject = "u1";
  issued_at = t;
  expires_at = until;
}

-- The tokens of two sessions, which begin at 10 and at 20.
abbrev known_token : String → Option AccessClaims
known_token raw =
    if raw == "a1"
    then some (claims_of "s1" 10 40)
    else if raw == "r1"
    then some (claims_of "s1" 10 70)
    else if raw == "a2"
    then some (claims_of "s2" 20 50)
    else if raw == "r2"
    then some (claims_of "s2" 20 80)
    else none

abbrev token_of : AccessClaims → String
token_of c =
    if c.id == "s1"
    then (if ltb c.expires_at 50 then "a1" else "r1")
    else (if ltb c.expires_at 60 then "a2" else "r2")

abbrev unexpired : KeyFunc → ℕ → Option AccessClaims → Option AccessClaims
unexpired key t none = none
unexpired key t (some c) = elim (key hmac) [
  | ok s ↦ if ltb t c.expires_at then some c else none
  | err m ↦ none
]

abbrev toy_jwt : Jwt
toy_jwt = record {
  sign = λ s c. ok (token_of c);
  parse = λ raw key t. unexpired key t (known_token raw);
  numeric_date = λ t. t;
}

abbrev config : Config
config = record { secret = "k"; access_ttl = 30; refresh_ttl = 60 }

abbrev at_time : ℕ → String → Env
at_time t sid = record {
  redis = λ l. no_fault;
  now = λ l. t;
  fresh_id = λ l. sid;
  verify_credentials = λ l name password. ok (record { id = "u1"; roles = "user" ∷ [] });
}

abbrev signed_in : World
signed_in = record {
  sessions =
      record { key = access_key "s1"; expires_at = some 40 }
      ∷ record { key = refresh_key "s1"; expires_at = some 70 }
      ∷ [];
  commands = [];
}

abbrev next_login : List (Env × Request)
next_login = (at_time 20 "s2", to_login "u" "p") ∷ []

first_sid : sid_from_access_token toy_jwt config "a1" 15 ≡ some "s1"
unfolding sid_from_access_token
first_sid = refl

logged_out : (logout toy_jwt config (at_time 15 "s9") "a1" "" signed_in).0 ≡ ok tt
unfolding logout sid_from_access_token sid_from_refresh_token delete_access_session
logged_out = refl

second_valid :
    (validate toy_jwt config (at_time 25 "s9") "a2" "user" (
      run toy_jwt config next_login
        (logout toy_jwt config (at_time 15 "s9") "a1" "" signed_in).1)).0
    ≡ ok (claims_of "s2" 20 50)
unfolding logout sid_from_access_token sid_from_refresh_token delete_access_session run handle login
    issue_token_pair save_access_session save_refresh_session validate access_session_exists remove
    holds contains
second_valid = refl

logout-revokes_example : (claims_of "s2" 20 50).id ≢ (claims_of "s1" 10 40).id
logout-revokes_example =
    logout-revokes toy_jwt config (at_time 15 "s9") "a1" "" "s1" "a2" "user" signed_in next_login
      (at_time 25 "s9") (claims_of "s2" 20 50) first_sid logged_out
      ((λ l. ==_ne "s2" "s1" refl), tt) second_valid

abbrev second_pair : TokenPair
second_pair = record { access_token = "a2"; refresh_token = "r2" }

refreshed : (refresh toy_jwt config (at_time 20 "s2") "r1" signed_in).0 ≡ ok second_pair
unfolding refresh refresh_session_exists delete_access_session delete_refresh_session
    issue_token_pair save_access_session save_refresh_session holds remove
refreshed = refl

refresh-retires_example :
    ((pair : TokenPair)
      → (refresh toy_jwt config (at_time 25 "s9") "r1" (
          run toy_jwt config next_login
            (refresh toy_jwt config (at_time 20 "s2") "r1" signed_in).1)).0
        ≢ ok pair)
    × ((claims : AccessClaims)
        → (validate toy_jwt config (at_time 25 "s9") "r1" "user" (
            run toy_jwt config next_login
              (refresh toy_jwt config (at_time 20 "s2") "r1" signed_in).1)).0
          ≢ ok claims)
refresh-retires_example =
    refresh-retires toy_jwt config (at_time 20 "s2") "r1" signed_in second_pair
      (claims_of "s1" 10 70) next_login (at_time 25 "s9") "r1" "user" (claims_of "s1" 10 70) refl
      refreshed (λ l. ==_ne "s2" "s1" refl) ((λ l. ==_ne "s2" "s1" refl), tt) refl refl

abbrev known_user : UserInfo
known_user = record { id = "u1"; roles = "user" ∷ [] }

abbrev nobody : World
nobody = record { sessions = []; commands = [] }

first_parses : ParsesAs toy_jwt "k" "a1" (claims_of "s1" 10 40)
first_parses key t same early = ground (arith, same, early)

granted : lacks ("user" ∷ []) "user" ≡ false
unfolding contains
granted = refl

early : 20 < 40
early = omega arith

login-validates_example :
    ((login toy_jwt config (at_time 10 "s1") "u" "p" nobody).0
      ≡ ok (record { access_token = "a1"; refresh_token = "r1" }))
    × ((validate toy_jwt config
          (at_time 20 "s2")
          "a1"
          "user"
          (login toy_jwt config (at_time 10 "s1") "u" "p" nobody).1).0
        ≡ ok (claims_of "s1" 10 40))
    × (auth toy_jwt "k" 20 "Bearer a1" ≡ ok (record { user_id = "u1"; roles = "user" ∷ [] }))
    × (auth_interceptor toy_jwt "k" 20 (some ("Bearer a1" ∷ []))
        ≡ ok (record { user_id = "u1"; roles = "user" ∷ [] }))
login-validates_example =
    login-validates toy_jwt config (at_time 10 "s1") (at_time 20 "s2") (λ l. refl) (λ l. refl) "u"
      "p" "a1" "r1" known_user nobody refl refl first_parses refl "user" early early granted

access-refreshes_example :
    (refresh toy_jwt config
      (at_time 20 "s2")
      "a1"
      (login toy_jwt config (at_time 10 "s1") "u" "p" nobody).1).0
    ≡ ok second_pair
access-refreshes_example =
    access-refreshes toy_jwt config (at_time 10 "s1") (at_time 20 "s2") (λ l. refl) (λ l. refl) "u"
      "p" "a1" "r1" known_user nobody refl refl first_parses refl "a2" "r2" early (omega arith) refl
      refl
