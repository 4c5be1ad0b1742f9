-- ===== src/User/Indexed.antt =====
-- The unique indexes of the collection `users`, under any requests.
use inno_taxi.Base.{
  ℕ, String, Bool, true, false, List, [], ◌∷◌, ◌++◌, ◌≡◌, ◌≢◌, refl, sym, ◌∙◌, inl, inr, arith,
}
use inno_taxi.Base.Lists.{All}
use inno_taxi.Base.Tests.{◌==◌, Bool-cases, ==_eq, ==_ne}
use inno_taxi.User.Entity.{role_analyst, Document, ObjectId, Library}
use inno_taxi.User.Repository.{
  Env, World, is_taken, is_taken_by_other, is_active, update_active, profile_set, password_set,
  deleted, role_added,
}
use inno_taxi.User.Http.{Validator}
use inno_taxi.User.Requests.{Request, handle, run}
use inno_taxi.User.Steps.{
  Profiles, Hashes, Step, unchanged, joined, renamed, rehashed, removed, promoted,
}
use inno_taxi.User.Handled.{handle-Step}

-- The unique indexes, between two documents and on all.
abbrev pub Apart : Document → Document → Type 0
Apart x y = (x.id ≢ y.id) × (x.email ≢ y.email) × (x.phone ≢ y.phone)

abbrev pub IsIndexed : List Document → Type 0
IsIndexed [] = Unit
IsIndexed (x ∷ xs) = All (Apart x) xs × IsIndexed xs

Apart-sym : (x y : Document) → Apart x y → Apart y x
Apart-sym x y (a, b, c) = ((λ p. a (sym p)), (λ p. b (sym p)), (λ p. c (sym p)))

All-weaken :
    (P Q : Document → Type 0) (xs : List Document)
    → ((x : Document) → P x → Q x)
    → All P xs
    → All Q xs
All-weaken P Q [] h ps = tt
All-weaken P Q (x ∷ xs) h (p, ps) = (h x p, All-weaken P Q xs h ps)

append-IsIndexed :
    (d : Document) (xs : List Document)
    → is_taken d.id d.email d.phone xs ≡ false
    → IsIndexed xs
    → IsIndexed (xs ++ d ∷ [])
unfolding is_taken
append-IsIndexed d [] h ps = (tt, tt)
append-IsIndexed d (x ∷ xs) h (p, ps) = (last xs p, append-IsIndexed d xs (ground (arith, h)) ps)
  where
    apart : Apart x d
    apart = (
      ==_ne x.id d.id (ground (arith, h)),
      ==_ne x.email d.email (ground (arith, h)),
      ==_ne x.phone d.phone (ground (arith, h)),
    )

    last : (ys : List Document) → All (Apart x) ys → All (Apart x) (ys ++ d ∷ [])
    last [] qs = (apart, tt)
    last (y ∷ ys) (q, qs) = (q, last ys qs)

module _ (i : ObjectId) (f : Document → Document) where
  active_id : (y : Document) → is_active i y ≡ true → y.id ≡ i
  active_id y h = ==_eq y.id i (ground (arith, h))

  kept-Apart :
      (z : Document) (ys : List Document)
      → ((y : Document) → y.id ≡ i → Apart z y → Apart z (f y))
      → All (Apart z) ys
      → All (Apart z) (update_active i f ys)
  unfolding update_active
  kept-Apart z [] h ps = tt
  kept-Apart z (y ∷ ys) h (p, ps) = elim (Bool-cases (is_active i y)) [
    | inl active ↦ rw active (h y (active_id y active) p, ps)
    | inr other ↦ rw other (p, kept-Apart z ys h ps)
  ]

  update-IsIndexed :
      (ds : List Document)
      → ((x : Document) → (f x).id ≡ x.id)
      → All (λ y. (x : Document) → y.id ≢ i → x.id ≡ i → Apart y x → Apart y (f x)) ds
      → IsIndexed ds
      → IsIndexed (update_active i f ds)
  unfolding update_active
  update-IsIndexed [] same_id fits ps = tt
  update-IsIndexed (x ∷ xs) same_id (fit, fits) (p, ps) = elim (Bool-cases (is_active i x)) [
    | inl active ↦ rw active (moved active xs fits p, ps)
    | inr other ↦
        rw other (kept-Apart x xs (beside (x.id == i) refl) p, update-IsIndexed xs same_id fits ps)
  ]
    where
      moved :
          is_active i x ≡ true
          → (ys : List Document)
          → All (λ y. (z : Document) → y.id ≢ i → z.id ≡ i → Apart y z → Apart y (f z)) ys
          → All (Apart x) ys
          → All (Apart (f x)) ys
      moved active [] fs qs = tt
      moved active (y ∷ ys) (g, fs) (q, qs) =
          let mine = active_id x active in
          (
            Apart-sym y (f x) (g x (λ same. q.0 (mine ∙ sym same)) mine (Apart-sym x y q)),
            moved active ys fs qs,
          )

      beside : (b : Bool) → (x.id == i) ≡ b → (y : Document) → y.id ≡ i → Apart x y → Apart x (f y)
      beside true same y mine q = absurd (q.0 (==_eq x.id i same ∙ sym mine))
      beside false other y mine q = fit y (==_ne x.id i other) mine q

-- A change that leaves e-mail and phone.
stays-IsIndexed :
    (i : ObjectId) (f : Document → Document) (ds : List Document)
    → ((x : Document) → ((f x).id ≡ x.id) × ((f x).email ≡ x.email) × ((f x).phone ≡ x.phone))
    → IsIndexed ds
    → IsIndexed (update_active i f ds)
stays-IsIndexed i f ds h = update-IsIndexed i f ds (λ x. (h x).0) (fits ds)
  where
    fits :
        (ys : List Document)
        → All (λ y. (x : Document) → y.id ≢ i → x.id ≡ i → Apart y x → Apart y (f x)) ys
    fits [] = tt
    fits (y ∷ ys) = (
      (λ x other mine q.
          ((λ e. q.0 (e ∙ (h x).0)), (λ e. q.1 (e ∙ (h x).1)), (λ e. q.2 (e ∙ (h x).2)))),
      fits ys,
    )

renamed-IsIndexed :
    (i : ObjectId) (name email phone : String) (t : ℕ) (ds : List Document)
    → is_taken_by_other i email phone ds ≡ false
    → IsIndexed ds
    → IsIndexed (update_active i (profile_set name email phone t) ds)
unfolding is_taken_by_other
renamed-IsIndexed i name email phone t ds free =
    update-IsIndexed i (profile_set name email phone t) ds (λ x. refl) (fits ds free)
  where
    fits :
        (ys : List Document)
        → is_taken_by_other i email phone ys ≡ false
        → All
            (λ y.
              (x : Document)
              → y.id ≢ i
              → x.id ≡ i
              → Apart y x
              → Apart y (profile_set name email phone t x))
            ys
    fits [] h = tt
    fits (y ∷ ys) h = elim (Bool-cases (y.id == i)) [
      | inl same ↦
          ((λ x other mine q. absurd (other (==_eq y.id i same))), fits ys (ground (arith, h)))
      | inr different ↦ (
        (λ x other mine q. (
          q.0,
          ==_ne y.email email (ground (arith, h, different)),
          ==_ne y.phone phone (ground (arith, h, different)),
        )),
        fits ys (ground (arith, h)),
      )
    ]

Step-IsIndexed :
    {V : Profiles} {H : Hashes} (ds ds' : List Document)
    → Step V H ds ds'
    → IsIndexed ds
    → IsIndexed ds'
Step-IsIndexed ds _ unchanged h = h
Step-IsIndexed ds _ (joined d free role fine made) h = append-IsIndexed d ds free h
Step-IsIndexed ds _ (renamed i name email phone t free fine) h =
    renamed-IsIndexed i name email phone t ds free h
Step-IsIndexed ds _ (rehashed i hash t fine) h =
    stays-IsIndexed i (password_set hash t) ds (λ x. (refl, refl, refl)) h
Step-IsIndexed ds _ (removed i t) h = stays-IsIndexed i (deleted t) ds (λ x. (refl, refl, refl)) h
Step-IsIndexed ds _ (promoted i t) h =
    stays-IsIndexed i (role_added role_analyst t) ds (λ x. (refl, refl, refl)) h

module _ (lib : Library) (v : Validator) where
  -- Where ids, e-mails and phones are unique, they stay so after any requests, whatever fails.
  run-IsIndexed :
      (qs : List (Env × Request)) (w : World)
      → IsIndexed w.documents
      → IsIndexed (run lib v qs w).documents
  unfolding run
  run-IsIndexed [] w h = h
  run-IsIndexed ((e, q) ∷ qs) w h =
      run-IsIndexed qs (handle lib v e q w)
        (Step-IsIndexed w.documents _ (handle-Step lib v e q w) h)
