-- ===== src/User/Entity.antt =====
-- services/user_service/entity and errorsx. Hashing is bcrypt's and object ids are the Mongo driver's:
-- both are parameters.
use inno_taxi.Base.{ℕ, String, Option, Bool, ◌||◌, List}
use inno_taxi.Base.Action.{Result}
use inno_taxi.Base.Tests.{◌==◌}

pub data UserError : Type 0 where
  user_not_found user_already_exists invalid_role invalid_credentials user_already_deleted :
      UserError
  outside : String → UserError
  wrap : String → UserError → UserError

-- The error at the end of a chain, at which `errors.Is` looks.
abbrev pub root : UserError → UserError
root (wrap m x) = root x
root x = x

abbrev pub Role : Type 0
Role = String

abbrev pub role_user : Role
role_user = "user"

abbrev pub role_driver : Role
role_driver = "driver"

abbrev pub role_admin : Role
role_admin = "admin"

abbrev pub role_analyst : Role
role_analyst = "analyst"

-- `Role.IsValid`
unfoldable pub is_valid_role : Role → Bool
is_valid_role r = r == role_user || r == role_driver || r == role_admin || r == role_analyst

-- A conversion of `string` to a named string type changes nothing.
abbrev pub roles_to_strings : List Role → List String
roles_to_strings roles = roles

abbrev pub strings_to_roles : List String → List Role
strings_to_roles roles = roles

abbrev pub ObjectId : Type 0
ObjectId = String

-- The document of the collection `users`.
pub record Document : Type 0 where
  pub id : ObjectId
  pub name : String
  pub email : String
  pub phone : String
  pub password_hash : String
  pub roles : List String
  pub created_at : ℕ
  pub updated_at : ℕ
  pub deleted_at : Option ℕ

pub record User : Type 0 where
  pub id : String
  pub name : String
  pub email : String
  pub phone : String
  pub password_hash : String
  pub roles : List Role
  pub created_at : ℕ
  pub updated_at : ℕ
  pub deleted_at : Option ℕ

pub record RegisterInput : Type 0 where
  pub name : String
  pub email : String
  pub phone : String
  pub password : String
  pub role : Role

pub record ProfileInput : Type 0 where
  pub name : String
  pub email : String
  pub phone : String

-- `GenerateFromPassword` under a salt, `CompareHashAndPassword`, `ObjectIDFromHex`, `Hex` and
-- `strings.ToLower`.
pub record Library : Type 0 where
  pub generate_from_password : ℕ → String → Result String String
  pub compare_hash : String → String → Bool
  pub object_id_from_hex : String → Option ObjectId
  pub hex : ObjectId → String
  pub to_lower : String → String
