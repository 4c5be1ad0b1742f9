-- ===== src/User/Steps.antt =====
-- What one request may do to the collection `users`, as a relation.
use inno_taxi.Base.{
  ℕ, String, Bool, true, false, not, List, [], ◌∷◌, ◌++◌, ◌≡◌, refl, sym, ap, ◌⊎◌, inl, inr, arith,
}
use mathlib.Core.Path.{subst}
use inno_taxi.Base.Action.{Result, ok, err, continue, raise_if, best_effort, pure, ◌>>=◌, ◌>>◌}
use inno_taxi.Base.Tests.{◌==◌, Bool-cases, ==_eq, Option-cases}
use inno_taxi.User.Entity.{
  Role, role_user, role_driver, role_analyst, RegisterInput, ProfileInput, Document, ObjectId,
  Library, is_valid_role, User, UserError, invalid_credentials,
}
use inno_taxi.User.Repository.{
  Env, World, is_taken, is_taken_by_other, update_active, profile_set, password_set, deleted,
  role_added, new_document, create_user_document, find_by_login, find_by_id,
  update_profile_document, set_password, delete_profile_document, add_role,
}
use inno_taxi.User.Service.{
  new_user, create_user, verify_credentials, get_profile, update_profile, update_password,
  delete_profile, assign_role, hashed, new_salt, publish_user_registered, register_user,
  is_open_role, current,
}

-- The profiles and the hashes of passwords that may be stored.
abbrev pub Profiles : Type 1
Profiles = String → String → String → Type 0

abbrev pub Hashes : Type 1
Hashes = String → Type 0

-- A document with such a profile and hash joins where the indexes allow it, with the role of a user or of
-- a driver; a kept one takes such a profile where the indexes allow it, such a hash or the role of an
-- analyst, or is marked as deleted.
pub data Step (V : Profiles) (H : Hashes) (ds : List Document) : List Document → Type 0 where
  unchanged : Step V H ds ds
  joined :
      (d : Document)
      → is_taken d.id d.email d.phone ds ≡ false
      → (d.roles ≡ role_user ∷ []) ⊎ (d.roles ≡ role_driver ∷ [])
      → V d.name d.email d.phone
      → H d.password_hash
      → Step V H ds (ds ++ d ∷ [])
  renamed :
      (i : ObjectId) (name email phone : String) (t : ℕ)
      → is_taken_by_other i email phone ds ≡ false
      → V name email phone
      → Step V H ds (update_active i (profile_set name email phone t) ds)
  rehashed :
      (i : ObjectId) (hash : String) (t : ℕ)
      → H hash
      → Step V H ds (update_active i (password_set hash t) ds)
  removed : (i : ObjectId) (t : ℕ) → Step V H ds (update_active i (deleted t) ds)
  promoted : (i : ObjectId) (t : ℕ) → Step V H ds (update_active i (role_added role_analyst t) ds)

-- A command may not have taken effect.
abbrev MayBecome : List Document → List Document → List Document → Type 0
MayBecome ds changed ds' = (ds' ≡ ds) ⊎ (ds' ≡ changed)

open_roles :
    (r : Role) → is_open_role r ≡ true → (r ∷ [] ≡ role_user ∷ []) ⊎ (r ∷ [] ≡ role_driver ∷ [])
open_roles r h = elim (Bool-cases (r == role_user)) [
  | inl is_user ↦ inl (ap (λ s. s ∷ []) (==_eq r role_user is_user))
  | inr other ↦ inr (ap (λ s. s ∷ []) (==_eq r role_driver (rw other at h)))
]

module _ {V : Profiles} {H : Hashes} where
  Step-may :
      (ds changed ds' : List Document)
      → Step V H ds changed
      → MayBecome ds changed ds'
      → Step V H ds ds'
  Step-may ds changed ds' s (inl same) = subst (λ xs. Step V H ds xs) (sym same) unchanged
  Step-may ds changed ds' s (inr same) = subst (λ xs. Step V H ds xs) (sym same) s

  pub Step-same : (ds ds' : List Document) → ds' ≡ ds → Step V H ds ds'
  Step-same ds ds' same = subst (λ xs. Step V H ds xs) (sym same) unchanged

module _ (lib : Library) (e : Env) where
  pub verify-Step :
      (l password : String) (w : World)
      → (verify_credentials lib e l password w).1.documents ≡ w.documents
  unfolding verify_credentials find_by_login
  verify-Step l password w = ground arith

  pub show-Step : (id : String) (w : World) → (get_profile lib e id w).1.documents ≡ w.documents
  unfolding get_profile find_by_id
  show-Step id w = elim (Option-cases (lib.object_id_from_hex id)) [
    | inl bad ↦ ground (arith, bad)
    | inr (i, good) ↦ ground (arith, good)
  ]

  pub find-same : (id : String) (w : World) → (find_by_id lib e id w).1.documents ≡ w.documents
  unfolding find_by_id
  find-same id w = elim (Option-cases (lib.object_id_from_hex id)) [
    | inl bad ↦ ground (arith, bad)
    | inr (i, good) ↦ ground (arith, good)
  ]

  register-same :
      (u : User) (w : World)
      → (register_user lib e u w).1.documents ≡ (create_user_document lib e u w).1.documents
  register-same u w = go (create_user_document lib e u w).0 (create_user_document lib e u w).1
    where
      go :
          (r : Result UserError User) (x : World)
          → (continue
              (λ created. best_effort (publish_user_registered lib e created) >> pure created)
              r
              x).1.documents
            ≡ x.documents
      go (ok u) x = refl
      go (err m) x = refl

module _ {V : Profiles} {H : Hashes} (lib : Library) (e : Env) where
  pub delete-Step :
      (id : String) (w : World) → Step V H w.documents (delete_profile lib e id w).1.documents
  unfolding delete_profile delete_profile_document
  delete-Step id w = elim (Option-cases (lib.object_id_from_hex id)) [
    | inl bad ↦ Step-same _ _ (ground (arith, bad))
    | inr (i, good) ↦ Step-may w.documents _ _ (removed i (e.now w.commands)) (ground (arith, good))
  ]

  pub assign-Step :
      (id : String) (w : World)
      → Step V H w.documents (assign_role lib e id role_analyst w).1.documents
  unfolding assign_role add_role is_valid_role
  assign-Step id w = elim (Option-cases (lib.object_id_from_hex id)) [
    | inl bad ↦ Step-same _ _ (ground (arith, bad))
    | inr (i, good) ↦
        Step-may w.documents _ _ (promoted i (e.now w.commands)) (ground (arith, good))
  ]

  pub update-Step :
      (id : String) (input : ProfileInput) (w : World)
      → V input.name input.email input.phone
      → Step V H w.documents (update_profile lib e id input w).1.documents
  unfolding update_profile update_profile_document
  update-Step id input w fine = elim (Option-cases (lib.object_id_from_hex id)) [
    | inl bad ↦ Step-same _ _ (ground (arith, bad))
    | inr (i, good) ↦ elim (Bool-cases (is_taken_by_other i input.email input.phone w.documents)) [
      | inl taken ↦ Step-same _ _ (ground (arith, good, taken))
      | inr free ↦
          Step-may w.documents _ _
            (renamed i input.name input.email input.phone (e.now w.commands) free fine)
            (ground (arith, good))
    ]
  ]

  set_password-Step :
      (id hash : String) (w : World)
      → H hash
      → Step V H w.documents (set_password lib e id hash w).1.documents
  unfolding set_password
  set_password-Step id hash w fine = elim (Option-cases (lib.object_id_from_hex id)) [
    | inl bad ↦ Step-same _ _ (ground (arith, bad))
    | inr (i, good) ↦
        Step-may w.documents _ _ (rehashed i hash (e.now w.commands) fine) (ground (arith, good))
  ]

  pub password-Step :
      (id old new : String) (w : World)
      → ((salt : ℕ) (h : String) → lib.generate_from_password salt new ≡ ok h → H h)
      → Step V H w.documents (update_password lib e id old new w).1.documents
  unfolding update_password
  password-Step id old new w made =
      go (find_by_id lib e id w).0 (find_by_id lib e id w).1 (find-same lib e id w)
    where
      stored :
          (r : Result String String) (x : World)
          → ((h : String) → r ≡ ok h → H h)
          → x.documents ≡ w.documents
          → Step V H w.documents
              (continue (set_password lib e id) (hashed r x).0 (hashed r x).1).1.documents
      stored (ok h) x fine same =
          subst (λ ds. Step V H ds (set_password lib e id h x).1.documents) same
            (set_password-Step id h x (fine h refl))
      stored (err m) x fine same = Step-same _ _ same

      checked :
          (b : Bool) (x : World)
          → x.documents ≡ w.documents
          → Step V H w.documents
              (continue
                (λ _. new_salt e >>= λ salt.
                  hashed (lib.generate_from_password salt new) >>= set_password lib e id)
                (raise_if (not b) invalid_credentials x).0
                (raise_if (not b) invalid_credentials x).1).1.documents
      checked true x same =
          stored (lib.generate_from_password (e.salt x.commands) new) x (made (e.salt x.commands))
            same
      checked false x same = Step-same _ _ same

      go :
          (r : Result UserError User) (x : World)
          → x.documents ≡ w.documents
          → Step V H w.documents
              (continue
                (λ (u : User).
                  raise_if (not (lib.compare_hash u.password_hash old)) invalid_credentials
                  >> (new_salt e >>= λ salt.
                      hashed (lib.generate_from_password salt new) >>= set_password lib e id))
                r
                x).1.documents
      go (ok u) x same = checked (lib.compare_hash u.password_hash old) x same
      go (err m) x same = Step-same _ _ same

  document-Step :
      (u : User) (w : World)
      → (u.roles ≡ role_user ∷ []) ⊎ (u.roles ≡ role_driver ∷ [])
      → V u.name u.email u.phone
      → H u.password_hash
      → Step V H w.documents (create_user_document lib e u w).1.documents
  unfolding create_user_document
  document-Step u w open_role fine made =
      let d = new_document lib e u w in
      elim (Bool-cases (is_taken d.id d.email d.phone w.documents)) [
        | inl taken ↦ Step-same _ _ (ground (arith, taken))
        | inr free ↦
            Step-may w.documents _ _ (joined d free open_role fine made) (ground (arith, free))
      ]

  register-Step :
      (u : User) (w : World)
      → (u.roles ≡ role_user ∷ []) ⊎ (u.roles ≡ role_driver ∷ [])
      → V u.name u.email u.phone
      → H u.password_hash
      → Step V H w.documents (register_user lib e u w).1.documents
  register-Step u w open_role fine made =
      subst (λ ds. Step V H w.documents ds) (sym (register-same lib e u w))
        (document-Step u w open_role fine made)

  pub create-Step :
      (input : RegisterInput) (w : World)
      → V input.name input.email input.phone
      → ((salt : ℕ) (h : String) → lib.generate_from_password salt input.password ≡ ok h → H h)
      → Step V H w.documents (create_user lib e input w).1.documents
  unfolding create_user
  create-Step input w fine made = elim (Bool-cases (is_open_role (lib.to_lower input.role))) [
    | inl open_role ↦ rw open_role (
        go open_role (lib.generate_from_password (e.salt w.commands) input.password)
          (made (e.salt w.commands)))
    | inr closed ↦ rw closed unchanged
  ]
    where
      go :
          is_open_role (lib.to_lower input.role) ≡ true
          → (r : Result String String) → ((h : String) → r ≡ ok h → H h)
          → Step V H w.documents
              (continue
                (λ hash. current e >>= λ now.
                  register_user lib e (new_user input (lib.to_lower input.role) hash now))
                (hashed r w).0
                (hashed r w).1).1.documents
      go open_role (ok h) good =
          register-Step (new_user input (lib.to_lower input.role) h (e.now w.commands)) w
            (open_roles _ open_role) fine (good h refl)
      go open_role (err m) good = unchanged
