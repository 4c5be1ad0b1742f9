-- ===== src/User/Service.antt =====
-- services/user_service/service: the methods of `UserService`, with the event that the gateway to
-- Kafka publishes.
use inno_taxi.Base.{ℕ, String, Option, none, some, Bool, not, ◌||◌, List, [], ◌∷◌}
use inno_taxi.Base.Action.{
  Result, ok, err, pure, raise, raise_if, attempt, best_effort, ◌>>=◌, ◌>>◌,
}
use inno_taxi.Base.Tests.{◌==◌}
use inno_taxi.User.Entity.{
  UserError, invalid_role, invalid_credentials, outside, wrap, Role, role_user, role_driver,
  is_valid_role, User, RegisterInput, ProfileInput, Library,
}
use inno_taxi.User.Repository.{
  publish, Env, UserAction, create_user_document, find_by_login, find_by_id,
  update_profile_document, set_password, delete_profile_document, add_role,
}

-- The role of the event: the first, if any.
abbrev event_role : List Role → String
event_role [] = ""
event_role (r ∷ rs) = r

abbrev sent : Option String → Result UserError (Unit {0})
sent none = ok tt
sent (some m) = err (wrap "publish user registered event" (outside m))

abbrev pub hashed : Result String String → UserAction String
hashed (ok h) = pure h
hashed (err m) = raise (wrap "hash password" (outside m))

-- The roles that may register.
abbrev pub is_open_role : Role → Bool
is_open_role r = r == role_user || r == role_driver

-- Any error of the look-up is answered as wrong credentials.
abbrev known : Result UserError User → UserAction User
known (ok u) = pure u
known (err x) = raise invalid_credentials

module _ (e : Env) where
  abbrev pub current : UserAction ℕ
  current w = (ok (e.now w.commands), w)

  abbrev pub new_salt : UserAction ℕ
  new_salt w = (ok (e.salt w.commands), w)

abbrev pub new_user : RegisterInput → Role → String → ℕ → User
new_user input role hash now = record {
  id = "";
  name = input.name;
  email = input.email;
  phone = input.phone;
  password_hash = hash;
  roles = role ∷ [];
  created_at = now;
  updated_at = now;
  deleted_at = none;
}

module _ (lib : Library) (e : Env) where
  -- `PublishUserRegistered`
  abbrev pub publish_user_registered : User → UserAction (Unit {0})
  publish_user_registered u w =
      let l = publish u.id (event_role u.roles) ∷ w.commands in
      (sent (e.broker l), record w { commands = l })

  -- `CreateUser`, once the password is hashed.
  abbrev pub register_user : User → UserAction User
  register_user u = do
    created ← create_user_document lib e u
    best_effort (publish_user_registered created)
    pure created

  unfoldable pub create_user : RegisterInput → UserAction User
  create_user input = do
    let role = lib.to_lower input.role
    raise_if (not (is_open_role role)) invalid_role
    salt ← new_salt e
    hash ← hashed (lib.generate_from_password salt input.password)
    now ← current e
    register_user (new_user input role hash now)

  unfoldable pub verify_credentials : String → String → UserAction User
  verify_credentials login password = do
    r ← attempt (find_by_login lib e login)
    u ← known r
    raise_if (not (lib.compare_hash u.password_hash password)) invalid_credentials
    pure u

  unfoldable pub get_profile : String → UserAction User
  get_profile id = find_by_id lib e id

  unfoldable pub update_profile : String → ProfileInput → UserAction User
  update_profile id input = update_profile_document lib e id input.name input.email input.phone

  unfoldable pub update_password : String → String → String → UserAction (Unit {0})
  update_password id old new = do
    u ← find_by_id lib e id
    raise_if (not (lib.compare_hash u.password_hash old)) invalid_credentials
    salt ← new_salt e
    hash ← hashed (lib.generate_from_password salt new)
    set_password lib e id hash

  unfoldable pub delete_profile : String → UserAction (Unit {0})
  delete_profile id = delete_profile_document lib e id

  unfoldable pub assign_role : String → Role → UserAction (Unit {0})
  assign_role id role = do raise_if (not (is_valid_role role)) invalid_role; add_role lib e id role
