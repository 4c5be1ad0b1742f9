-- ===== src/SignIn/Tests.antt =====
-- Ann signs in.
use inno_taxi.Base.{none, some, true, [], ◌∷◌, ◌≡◌}
use inno_taxi.Base.Action.{ok}
use inno_taxi.Base.Tests.{◌==◌}
use inno_taxi.User.Entity.{Document, Library}
use inno_taxi.User.Repository.{Env, World, no_fault}
use inno_taxi.User.Http.{Validator}
use inno_taxi.SignIn.{verify_remotely, opened, told}
use inno_taxi.SignIn.Answers.{verify_remotely-opened}

abbrev toy : Library
toy = record {
  generate_from_password = λ salt p. ok p;
  compare_hash = λ h p. h == p;
  object_id_from_hex = λ s. some s;
  hex = λ i. i;
  to_lower = λ s. s;
}

abbrev lenient : Validator
lenient = record { rune_count = λ s. 10; is_email = λ s. true; matches_phone = λ s. true }

abbrev calm : Env
calm = record {
  database = λ l. no_fault;
  broker = λ l. none;
  now = λ l. 7;
  salt = λ l. 0;
  new_object_id = λ l. "o2";
}

abbrev ann : Document
ann = record {
  id = "o1";
  name = "ann";
  email = "ann@x";
  phone = "+1234567";
  password_hash = "old-secret";
  roles = "user" ∷ [];
  created_at = 1;
  updated_at = 1;
  deleted_at = none;
}

abbrev one_user : World
one_user = record { documents = ann ∷ []; commands = [] }

verify_remotely-opened_example :
    verify_remotely toy lenient calm one_user "ann@x" "old-secret"
    ≡ told toy lenient calm one_user (opened toy lenient calm one_user "ann@x" "old-secret")
verify_remotely-opened_example =
    verify_remotely-opened toy lenient calm one_user "ann@x" "old-secret"
