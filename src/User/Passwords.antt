-- ===== src/User/Passwords.antt =====
-- Which password opens an account: changing it, and deleting the account.
use inno_taxi.Base.{
  ℕ, String, some, Bool, true, false, not, List, ◌∷◌, ◌≡◌, refl, sym, ap, ◌∙◌, ◌⊎◌, inl, inr, arith,
}
use mathlib.Core.Path.{subst}
use inno_taxi.Base.Action.{Result, ok, err, raise_if, ◌>>=◌, ◌>>◌, >>=-eq-ok}
use inno_taxi.Base.Tests.{Option-cases}
use inno_taxi.User.Entity.{UserError, User, Document, ObjectId, Library, invalid_credentials}
use inno_taxi.User.Repository.{
  Env, World, UserAction, no_fault, lookup_login, lookup_active, update_active, password_set,
  deleted, user_of, find_by_login, find_by_id, set_password, delete_profile_document,
  find_by_login_one,
}
use inno_taxi.User.Service.{verify_credentials, update_password, delete_profile, hashed, new_salt}
use inno_taxi.User.Steps.{find-same}
use inno_taxi.User.Indexed.{IsIndexed}
use inno_taxi.User.Logins.{lookup_login-update, lookup_login-updated}

module _ (lib : Library) (e : Env) where
  verify-healthy :
      (l password : String) (w : World) (d : Document)
      → e.database (find_by_login_one l ∷ w.commands) ≡ no_fault
      → lookup_login l w.documents ≡ some d
      → lib.compare_hash d.password_hash password ≡ true
      → (verify_credentials lib e l password w).0 ≡ ok (user_of lib d)
  unfolding verify_credentials find_by_login
  verify-healthy l password w d calm found right = ground (arith, calm, found, right)

  set_password-ok :
      (id hash : String) (i : ObjectId) (w : World)
      → lib.object_id_from_hex id ≡ some i
      → (set_password lib e id hash w).0 ≡ ok tt
      → ((set_password lib e id hash w).1.documents
          ≡ update_active i (password_set hash (e.now w.commands)) w.documents)
        × ((d : Document) × (lookup_active i w.documents ≡ some d))
  unfolding set_password
  set_password-ok id hash i w good h = elim (Option-cases (lookup_active i w.documents)) [
    | inl missing ↦ absurd (ground (arith, good, h, missing))
    | inr (d, found) ↦ (ground (arith, good, h, found), (d, found))
  ]

  raise_if-world : (b : Bool) (x : UserError) (w : World) → (raise_if b x w).1 ≡ w
  raise_if-world true x w = refl
  raise_if-world false x w = refl

  hashed-ok :
      (r : Result String String) (w : World) (h : String)
      → (hashed r w).0 ≡ ok h
      → (r ≡ ok h) × ((hashed r w).1 ≡ w)
  hashed-ok (ok g) w h p = (ground (arith, p), refl)
  hashed-ok (err m) w h p = absurd (ground (arith, p))

  abbrev store_new : String → String → UserAction (Unit {0})
  store_new id new =
      new_salt e >>= λ salt. hashed (lib.generate_from_password salt new) >>= set_password lib e id

  -- A change of password that succeeded stored a hash of the new one.
  update_password-ok :
      (id old new : String) (w : World)
      → (update_password lib e id old new w).0 ≡ ok tt
      → (x : World) × (salt : ℕ) × (hash : String) × (lib.generate_from_password salt new ≡ ok hash)
        × (x.documents ≡ w.documents)
        × (set_password lib e id hash x ≡ update_password lib e id old new w)
  unfolding update_password
  update_password-ok id old new w h =
      let (u, p, q) =
        >>=-eq-ok (find_by_id lib e id)
          (λ (u : User).
            raise_if (not (lib.compare_hash u.password_hash old)) invalid_credentials
            >> store_new id new)
          w h in
      let w1 = (find_by_id lib e id w).1 in
      let wrong = not (lib.compare_hash u.password_hash old) in
      let (b, p', q') =
        >>=-eq-ok (raise_if wrong invalid_credentials) (λ _. store_new id new) w1
          (ap (λ r. r.0) q ∙ h) in
      let w2 = (raise_if wrong invalid_credentials w1).1 in
      let r = lib.generate_from_password (e.salt w2.commands) new in
      let (hash, p'', q'') =
        >>=-eq-ok (hashed r) (set_password lib e id) w2 (ap (λ r. r.0) (q' ∙ q) ∙ h) in
      let (stored, same) = hashed-ok r w2 hash p'' in
      (
        (hashed r w2).1,
        e.salt w2.commands,
        hash,
        stored,
        ap (λ (x : World). x.documents) (same ∙ raise_if-world wrong invalid_credentials w1)
            ∙ find-same lib e id w,
        q'' ∙ q' ∙ q,
      )

-- bcrypt: a hash of a password is one of that password.
abbrev pub ComparesHashed : Library → Type 0
ComparesHashed lib =
    (salt : ℕ) (password hash : String)
    → lib.generate_from_password salt password ≡ ok hash
    → lib.compare_hash hash password ≡ true

module _ (lib : Library) (law : ComparesHashed lib) (e late : Env) where
  -- When a change of password has succeeded, the new one opens the account under each login that
  -- leads to it, where ids, e-mails and phones are unique and the database answers.
  pub update_password-verify :
      (id old new l : String) (i : ObjectId) (d : Document) (w : World)
      → IsIndexed w.documents
      → lib.object_id_from_hex id ≡ some i
      → lookup_login l w.documents ≡ some d
      → d.id ≡ i
      → (update_password lib e id old new w).0 ≡ ok tt
      → late.database (find_by_login_one l ∷ (update_password lib e id old new w).1.commands)
        ≡ no_fault
      → (u : User) × ((verify_credentials lib late l new (update_password lib e id old new w).1).0
          ≡ ok u)
        × (u.id ≡ lib.hex i)
  update_password-verify id old new l i d w indexed good found mine h calm =
      let (x, salt, hash, hashes, same, ended) = update_password-ok lib e id old new w h in
      let (changed, (d', active)) =
        set_password-ok lib e id hash i x good (ap (λ r. r.0) ended ∙ h) in
      let f = password_set hash (e.now x.commands) in
      let v = (update_password lib e id old new w).1 in
      (
        user_of lib (f d),
        verify-healthy lib late l new v (f d) calm
            (ap (λ r. lookup_login l r.1.documents) (sym ended)
              ∙ ap (λ ds. lookup_login l ds) (changed ∙ ap (λ ds. update_active i f ds) same)
              ∙ lookup_login-updated i f l (λ y. refl) (λ y. refl) w.documents d d' indexed found
                  mine (subst (λ ds. lookup_active i ds ≡ some d') same active))
            (law salt new hash hashes),
        ap lib.hex mine,
      )

module _ (lib : Library) (e late : Env) where
  delete-documents :
      (id : String) (w : World)
      → ((delete_profile lib e id w).1.documents ≡ w.documents)
        ⊎ ((i : ObjectId) × ((delete_profile lib e id w).1.documents
              ≡ update_active i (deleted (e.now w.commands)) w.documents))
  unfolding delete_profile delete_profile_document
  delete-documents id w = elim (Option-cases (lib.object_id_from_hex id)) [
    | inl bad ↦ inl (ground (arith, bad))
    | inr (i, good) ↦ either i (delete_profile lib e id w).1.documents (ground (arith, good))
  ]
    where
      either :
          (i : ObjectId) (ds : List Document)
          → (ds ≡ w.documents) ⊎ (ds ≡ update_active i (deleted (e.now w.commands)) w.documents)
          → (ds ≡ w.documents)
            ⊎ ((j : ObjectId) × (ds ≡ update_active j (deleted (e.now w.commands)) w.documents))
      either i ds (inl same) = inl same
      either i ds (inr changed) = inr (i, changed)

  -- The account that a login leads to, after any deletion.
  delete-lookup :
      (id l : String) (d : Document) (w : World)
      → lookup_login l w.documents ≡ some d
      → (d' : Document) × (lookup_login l (delete_profile lib e id w).1.documents ≡ some d')
        × (d'.id ≡ d.id)
        × (d'.password_hash ≡ d.password_hash)
  delete-lookup id l d w found = elim (delete-documents id w) [
    | inl same ↦ (d, ap (λ ds. lookup_login l ds) same ∙ found, refl, refl)
    | inr (i, changed) ↦
        elim (lookup_login-update i (deleted (e.now w.commands)) l (λ x. refl) (λ x. refl)
          w.documents d found) [
            | inl kept ↦ (d, ap (λ ds. lookup_login l ds) changed ∙ kept, refl, refl)
            | inr marked ↦ (
              deleted (e.now w.commands) d,
              ap (λ ds. lookup_login l ds) changed ∙ marked,
              refl,
              refl,
            )
          ]
  ]

  -- An account opens with its password after any deletion, be it that of the account itself, where
  -- the database answers.
  pub delete_profile-verify :
      (id l password : String) (d : Document) (w : World)
      → lookup_login l w.documents ≡ some d
      → lib.compare_hash d.password_hash password ≡ true
      → late.database (find_by_login_one l ∷ (delete_profile lib e id w).1.commands) ≡ no_fault
      → (u : User) × ((verify_credentials lib late l password (delete_profile lib e id w).1).0
          ≡ ok u)
        × (u.id ≡ lib.hex d.id)
  delete_profile-verify id l password d w found right calm =
      let (d', there, same, hash) = delete-lookup id l d w found in
      (
        user_of lib d',
        verify-healthy lib late l password (delete_profile lib e id w).1 d' calm there
            (ap (λ h. lib.compare_hash h password) hash ∙ right),
        ap lib.hex same,
      )
