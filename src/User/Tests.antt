-- ===== src/User/Tests.antt =====
-- One account that is joined by another, changes its password and is deleted.
use inno_taxi.Base.{String, none, some, true, List, [], ◌∷◌, ◌≡◌, refl, arith, eq_iff}
use inno_taxi.Base.Action.{ok}
use inno_taxi.Base.Lists.{All}
use inno_taxi.Base.Tests.{◌==◌, if◌then◌else◌}
use inno_taxi.User.Entity.{Document, User, Library}
use inno_taxi.User.Repository.{
  Env, World, no_fault, has_role, lookup_login, lookup_active, find_by_id, set_password,
}
use inno_taxi.User.Service.{verify_credentials, update_password, delete_profile}
use inno_taxi.User.Http.{Validator, RegisterReq}
use inno_taxi.User.Requests.{Request, to_register, to_promote, to_delete, to_update, run}
use inno_taxi.User.Valid.{IsValid, run-IsValid}
use inno_taxi.User.Roles.{IsNoAdmin, run-IsNoAdmin}
use inno_taxi.User.Passwords.{ComparesHashed, update_password-verify, delete_profile-verify}

abbrev toy : Library
toy = record {
  generate_from_password = λ salt p. ok p;
  compare_hash = λ h p. h == p;
  object_id_from_hex = λ s. if s == "" then none else some s;
  hex = λ i. i;
  to_lower = λ s. s;
}

abbrev lenient : Validator
lenient = record { rune_count = λ s. 10; is_email = λ s. true; matches_phone = λ s. true }

abbrev calm : Env
calm = record {
  database = λ l. no_fault;
  broker = λ l. none;
  now = λ l. 7;
  salt = λ l. 0;
  new_object_id = λ l. "o2";
}

abbrev ann : String → Document
ann hash = record {
  id = "o1";
  name = "ann";
  email = "ann@x";
  phone = "+1234567";
  password_hash = hash;
  roles = "user" ∷ [];
  created_at = 1;
  updated_at = 1;
  deleted_at = none;
}

abbrev one_user : World
one_user = record { documents = ann "old-secret" ∷ []; commands = [] }

abbrev bob : RegisterReq
bob = record {
  name = "bob";
  email = "bob@x";
  password = "bobs-secret";
  phone = "+7654321";
  role = "driver";
}

abbrev day : List (Env × Request)
day =
    (calm, to_register (some bob))
    ∷ (calm, to_promote "o2")
    ∷ (calm, to_delete "o1")
    ∷ (calm, to_update "o2" (some (record { name = "rob"; email = "rob@x"; phone = "+7654322" })))
    ∷ []

ann-IsValid : IsValid toy lenient (ann "old-secret")
ann-IsValid =
    ((omega arith, omega arith, refl, refl), (0, "old-secret", refl, omega arith, omega arith))

run-IsValid_example : All (IsValid toy lenient) (run toy lenient day one_user).documents
run-IsValid_example = run-IsValid toy lenient day one_user (ann-IsValid, tt)

ann-IsNoAdmin : IsNoAdmin (ann "old-secret")
unfolding has_role
ann-IsNoAdmin = refl

run-IsNoAdmin_example : All IsNoAdmin (run toy lenient day one_user).documents
run-IsNoAdmin_example = run-IsNoAdmin toy lenient day one_user (ann-IsNoAdmin, tt)

toy-ComparesHashed : ComparesHashed toy
toy-ComparesHashed salt p h same = (eq_iff h p).1 (ground (arith, same))

ann_logs_in : lookup_login "ann@x" one_user.documents ≡ some (ann "old-secret")
unfolding lookup_login
ann_logs_in = refl

changed : (update_password toy calm "o1" "old-secret" "new-secret" one_user).0 ≡ ok tt
unfolding update_password find_by_id lookup_active set_password
changed = refl

update_password-verify_example :
    (u : User) × ((verify_credentials toy calm "ann@x" "new-secret"
        (update_password toy calm "o1" "old-secret" "new-secret" one_user).1).0
      ≡ ok u)
    × (u.id ≡ "o1")
update_password-verify_example =
    update_password-verify toy toy-ComparesHashed calm calm "o1" "old-secret" "new-secret" "ann@x"
      "o1" (ann "old-secret") one_user (tt, tt) refl ann_logs_in refl changed refl

delete_profile-verify_example :
    (u : User) × ((verify_credentials toy calm "ann@x" "old-secret"
        (delete_profile toy calm "o1" one_user).1).0
      ≡ ok u)
    × (u.id ≡ "o1")
delete_profile-verify_example =
    delete_profile-verify toy calm calm "o1" "ann@x" "old-secret" (ann "old-secret") one_user
      ann_logs_in refl refl
