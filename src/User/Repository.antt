-- ===== src/User/Repository.antt =====
-- services/user_service/repository/mongo: the commands on the collection `users`, which has unique
-- indexes on `_id`, `email` and `phone` (migrations/mongo). A command that takes one document takes
-- the first that matches, and may be lost before or after it takes effect.
use inno_taxi.Base.{
  ℕ, String, Option, none, some, Bool, true, false, not, ◌&&◌, ◌||◌, List, [], ◌∷◌, ◌++◌,
}
use inno_taxi.Base.Action.{Result, ok, err, Action, raise}
use inno_taxi.Base.Tests.{◌==◌, if◌then◌else◌}
use inno_taxi.User.Entity.{
  UserError, user_not_found, user_already_exists, outside, roles_to_strings, strings_to_roles,
  ObjectId, Document, User, Library,
}

pub data Command : Type 0 where
  insert_one find_by_login_one : String → Command
  find_one find_and_update update_one : ObjectId → Command
  publish : String → String → Command

pub data Fault : Type 0 where
  no_fault : Fault
  request_lost reply_lost : String → Fault

-- What the outside answers, by the commands sent so far, the latest first.
pub record Env : Type 0 where
  pub database : List Command → Fault
  pub broker : List Command → Option String
  pub now : List Command → ℕ
  pub salt : List Command → ℕ
  pub new_object_id : List Command → ObjectId

pub record World : Type 0 where
  pub documents : List Document
  pub commands : List Command

abbrev pub UserAction : Type 0 → Type 0
UserAction A = Action World UserError A

-- The unique indexes that the migrations create, and the one on `_id`: a document with the key of another
-- is refused.
abbrev pub clashes : ObjectId → String → String → Document → Bool
clashes i email phone x = x.id == i || x.email == email || x.phone == phone

unfoldable pub is_taken : ObjectId → String → String → List Document → Bool
is_taken i email phone [] = false
is_taken i email phone (x ∷ xs) = clashes i email phone x || is_taken i email phone xs

-- The indexes refuse the e-mail or the phone of another document.
unfoldable pub is_taken_by_other : ObjectId → String → String → List Document → Bool
is_taken_by_other i email phone [] = false
is_taken_by_other i email phone (x ∷ xs) =
    not (x.id == i) && (x.email == email || x.phone == phone) || is_taken_by_other i email phone xs

abbrev pub has_login : String → Document → Bool
has_login l x = x.email == l || x.phone == l

-- `{"$or": [{"email": login}, {"phone": login}]}`
unfoldable pub lookup_login : String → List Document → Option Document
lookup_login l [] = none
lookup_login l (x ∷ xs) = if has_login l x then some x else lookup_login l xs

abbrev is_kept : Option ℕ → Bool
is_kept none = true
is_kept (some t) = false

-- `{"_id": id, "deleted_at": nil}`
abbrev pub is_active : ObjectId → Document → Bool
is_active i x = x.id == i && is_kept x.deleted_at

unfoldable pub lookup_active : ObjectId → List Document → Option Document
lookup_active i [] = none
lookup_active i (x ∷ xs) = if is_active i x then some x else lookup_active i xs

unfoldable pub update_active : ObjectId → (Document → Document) → List Document → List Document
update_active i f [] = []
update_active i f (x ∷ xs) = if is_active i x then f x ∷ xs else x ∷ update_active i f xs

unfoldable pub has_role : String → List String → Bool
has_role r [] = false
has_role r (x ∷ xs) = x == r || has_role r xs

-- `$addToSet`
abbrev pub add_to_set : String → List String → List String
add_to_set r xs = if has_role r xs then xs else xs ++ r ∷ []

module _ (lib : Library) where
  abbrev pub user_of : Document → User
  user_of d = record {
    id = lib.hex d.id;
    name = d.name;
    email = d.email;
    phone = d.phone;
    password_hash = d.password_hash;
    roles = strings_to_roles d.roles;
    created_at = d.created_at;
    updated_at = d.updated_at;
    deleted_at = d.deleted_at;
  }

abbrev found_or : {A : Type 0} → (Document → A) → Option Document → Result UserError A
found_or f none = err user_not_found
found_or f (some d) = ok (f d)

abbrev run_command :
    {A : Type 0}
    → Env
    → Command
    → (List Document → List Document)
    → (List Document → Result UserError A)
    → UserAction A
run_command e c effect answer w =
    let l = c ∷ w.commands in
    elim (e.database l) [
      | no_fault ↦ (answer w.documents, record { documents = effect w.documents; commands = l })
      | request_lost m ↦ (err (outside m), record { documents = w.documents; commands = l })
      | reply_lost m ↦ (err (outside m), record { documents = effect w.documents; commands = l })
    ]

-- `ObjectIDFromHex`, and what is answered where it fails.
abbrev with_id :
    {A : Type 0} → Option ObjectId → UserError → (ObjectId → UserAction A) → UserAction A
with_id none x f = raise x
with_id (some i) x f = f i

abbrev pub profile_set : String → String → String → ℕ → Document → Document
profile_set name email phone t d = record d {
  name = name;
  email = email;
  phone = phone;
  updated_at = t;
}

abbrev pub password_set : String → ℕ → Document → Document
password_set hash t d = record d { password_hash = hash; updated_at = t }

abbrev pub deleted : ℕ → Document → Document
deleted t d = record d { deleted_at = some t; updated_at = t }

abbrev pub role_added : String → ℕ → Document → Document
role_added r t d = record d { roles = add_to_set r d.roles; updated_at = t }

module _ (lib : Library) (e : Env) where
  abbrev pub new_document : User → World → Document
  new_document u w = record {
    id = e.new_object_id w.commands;
    name = u.name;
    email = u.email;
    phone = u.phone;
    password_hash = u.password_hash;
    roles = roles_to_strings u.roles;
    created_at = u.created_at;
    updated_at = u.updated_at;
    deleted_at = none;
  }

  unfoldable pub create_user_document : User → UserAction User
  create_user_document u w =
      let d = new_document u w in
      if is_taken d.id d.email d.phone w.documents
      then run_command e (insert_one u.email) (λ ds. ds) (λ ds. err user_already_exists) w
      else run_command e (insert_one u.email) (λ ds. ds ++ d ∷ [])
          (λ ds. ok (record u { id = lib.hex d.id })) w

  unfoldable pub find_by_login : String → UserAction User
  find_by_login l =
      run_command e (find_by_login_one l) (λ ds. ds)
        (λ ds. found_or (user_of lib) (lookup_login l ds))

  unfoldable pub find_by_id : String → UserAction User
  find_by_id id =
      with_id (lib.object_id_from_hex id) user_not_found λ i.
        run_command e (find_one i) (λ ds. ds) (λ ds. found_or (user_of lib) (lookup_active i ds))

  unfoldable pub update_profile_document : String → String → String → String → UserAction User
  update_profile_document id name email phone =
      with_id (lib.object_id_from_hex id) user_not_found λ i w.
        let f = profile_set name email phone (e.now w.commands) in
        elim (lookup_active i w.documents) [
          | none ↦ run_command e (find_and_update i) (λ ds. ds) (λ ds. err user_not_found) w
          | some d ↦
              if is_taken_by_other i email phone w.documents
              then run_command e (find_and_update i) (λ ds. ds) (λ ds. err user_already_exists) w
              else run_command e (find_and_update i) (update_active i f)
                  (λ ds. ok (user_of lib (f d))) w
        ]

  unfoldable pub set_password : String → String → UserAction (Unit {0})
  set_password id hash =
      with_id (lib.object_id_from_hex id)
        (outside "the provided hex string is not a valid ObjectID")
        λ i w.
          run_command e (find_and_update i) (update_active i (password_set hash (e.now w.commands)))
            (λ ds. found_or (λ d. tt) (lookup_active i ds)) w

  unfoldable pub delete_profile_document : String → UserAction (Unit {0})
  delete_profile_document id = with_id (lib.object_id_from_hex id) user_not_found λ i w.
      run_command e (update_one i) (update_active i (deleted (e.now w.commands)))
        (λ ds. found_or (λ d. tt) (lookup_active i ds)) w

  unfoldable pub add_role : String → String → UserAction (Unit {0})
  add_role id r =
      with_id (lib.object_id_from_hex id)
        (outside "the provided hex string is not a valid ObjectID")
        λ i w.
          run_command e (update_one i) (update_active i (role_added r (e.now w.commands)))
            (λ ds. found_or (λ d. tt) (lookup_active i ds)) w
