-- ===== src/User/Handled.antt =====
-- Every request to services/user_service/handler/http is a step of the collection `users`.
use inno_taxi.Base.{ℕ, ◌≤◌, String, List, Option, none, some, Bool, true, ◌≡◌, inl, inr, arith}
use inno_taxi.Base.Action.{Result, ok}
use inno_taxi.Base.Tests.{Bool-cases}
use inno_taxi.User.Entity.{Library, UserError, Document}
use inno_taxi.User.Repository.{Env, World, UserAction}
use inno_taxi.User.Service.{create_user, verify_credentials, update_profile, update_password}
use inno_taxi.User.Http.{
  Validator, bind_register, is_valid_register, register_response, bind_verify, is_valid_verify,
  verify_response, bind_profile, is_valid_profile, update_response, bind_password,
  is_valid_password, password_response, register_input, profile_input, Response, serve,
  post_register, post_verify, show_profile, patch_profile, patch_password, remove_profile,
  assign_role_analytic,
}
use inno_taxi.User.Requests.{
  Request, to_register, to_verify, to_show, to_delete, to_promote, to_update, to_change_password,
  handle,
}
use inno_taxi.User.Steps.{
  Profiles, Hashes, Step, unchanged, Step-same, delete-Step, assign-Step, update-Step, create-Step,
  verify-Step, show-Step, password-Step,
}

-- A name, an e-mail and a phone that pass the tests of the validator.
abbrev pub IsProfile : Validator → Profiles
IsProfile v name email phone =
    (2 ≤ v.rune_count name)
    × (v.rune_count name ≤ 32)
    × (v.is_email email ≡ true)
    × (v.matches_phone phone ≡ true)

-- The hash of a password of 8 to 32 runes, with some salt.
abbrev pub IsHash : Library → Validator → Hashes
IsHash lib v h =
    (salt : ℕ) × (p : String) × (lib.generate_from_password salt p ≡ ok h)
    × (8 ≤ v.rune_count p)
    × (v.rune_count p ≤ 32)

module _ (lib : Library) (v : Validator) where
  abbrev Moves : List Document → List Document → Type 0
  Moves = Step (IsProfile v) (IsHash lib v)

  serve-Step :
      {Q A : Type 0} (o : Option Q) (valid : Q → Bool) (act : Q → UserAction A)
      (respond : Result UserError A → Response) (w : World)
      → ((q : Q) → valid q ≡ true → Moves w.documents (act q w).1.documents)
      → Moves w.documents (serve o valid act respond w).1.documents
  serve-Step none valid act respond w h = unchanged
  serve-Step (some q) valid act respond w h = elim (Bool-cases (valid q)) [
    | inl good ↦ rw good (h q good)
    | inr bad ↦ rw bad unchanged
  ]

  -- Every request is a step, to profiles that pass the validator and hashes of passwords that do.
  pub handle-Step :
      (e : Env) (q : Request) (w : World) → Moves w.documents (handle lib v e q w).documents
  unfolding handle post_register post_verify show_profile patch_profile patch_password
      remove_profile assign_role_analytic
  handle-Step e (to_register req) w =
      serve-Step (bind_register req) (is_valid_register lib v)
        (λ q. create_user lib e (register_input q)) register_response w
        λ q good.
          create-Step lib e (register_input q) w (ground (arith, good))
            (λ salt h made. (salt, q.password, made, ground (arith, good), ground (arith, good)))
  handle-Step e (to_verify req) w =
      serve-Step (bind_verify req) (is_valid_verify lib v)
        (λ q. verify_credentials lib e q.login q.password) verify_response w
        λ q good. Step-same _ _ (verify-Step lib e q.login q.password w)
  handle-Step e (to_show id) w = Step-same _ _ (show-Step lib e id w)
  handle-Step e (to_delete id) w = delete-Step lib e id w
  handle-Step e (to_promote id) w = assign-Step lib e id w
  handle-Step e (to_update id req) w =
      serve-Step (bind_profile req) (is_valid_profile lib v)
        (λ q. update_profile lib e id (profile_input q)) update_response w
        λ q good. update-Step lib e id (profile_input q) w (ground (arith, good))
  handle-Step e (to_change_password id req) w =
      serve-Step (bind_password req) (is_valid_password lib v)
        (λ q. update_password lib e id q.current_password q.new_password) password_response w
        λ q good.
          password-Step lib e id q.current_password q.new_password w (λ salt h made.
            (salt, q.new_password, made, ground (arith, good), ground (arith, good)))
