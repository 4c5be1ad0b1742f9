-- ===== src/User/Valid.antt =====
-- What the collection `users` holds, under any requests to services/user_service.
use inno_taxi.Base.{List, [], ◌∷◌, ◌++◌, inl, inr}
use inno_taxi.Base.Lists.{All}
use inno_taxi.Base.Tests.{Bool-cases}
use inno_taxi.User.Entity.{Document, ObjectId, Library}
use inno_taxi.User.Repository.{Env, World, is_active, update_active}
use inno_taxi.User.Http.{Validator}
use inno_taxi.User.Requests.{Request, handle, run}
use inno_taxi.User.Steps.{
  Profiles, Hashes, Step, unchanged, joined, renamed, rehashed, removed, promoted,
}
use inno_taxi.User.Handled.{IsProfile, IsHash, handle-Step}

abbrev Holds : Profiles → Hashes → Document → Type 0
Holds V H d = V d.name d.email d.phone × H d.password_hash

update-Holds :
    (V : Profiles) (H : Hashes) (i : ObjectId) (f : Document → Document) (ds : List Document)
    → ((x : Document) → Holds V H x → Holds V H (f x))
    → All (Holds V H) ds
    → All (Holds V H) (update_active i f ds)
unfolding update_active
update-Holds V H i f [] h ps = tt
update-Holds V H i f (x ∷ xs) h (p, ps) = elim (Bool-cases (is_active i x)) [
  | inl active ↦ rw active (h x p, ps)
  | inr other ↦ rw other (p, update-Holds V H i f xs h ps)
]

joined-Holds :
    (V : Profiles) (H : Hashes) (d : Document) (ds : List Document)
    → Holds V H d
    → All (Holds V H) ds
    → All (Holds V H) (ds ++ d ∷ [])
joined-Holds V H d [] h ps = (h, tt)
joined-Holds V H d (x ∷ xs) h (p, ps) = (p, joined-Holds V H d xs h ps)

Step-Holds :
    (V : Profiles) (H : Hashes) (ds ds' : List Document)
    → Step V H ds ds'
    → All (Holds V H) ds
    → All (Holds V H) ds'
Step-Holds V H ds _ unchanged h = h
Step-Holds V H ds _ (joined d free role fine made) h = joined-Holds V H d ds (fine, made) h
Step-Holds V H ds _ (renamed i name email phone t free fine) h =
    update-Holds V H i _ ds (λ x p. (fine, p.1)) h
Step-Holds V H ds _ (rehashed i hash t made) h = update-Holds V H i _ ds (λ x p. (p.0, made)) h
Step-Holds V H ds _ (removed i t) h = update-Holds V H i _ ds (λ x p. p) h
Step-Holds V H ds _ (promoted i t) h = update-Holds V H i _ ds (λ x p. p) h

module _ (lib : Library) (v : Validator) where
  -- A name of 2 to 32 runes, an e-mail and a phone that the validator accepts, and the hash of a password
  -- of 8 to 32 runes.
  abbrev pub IsValid : Document → Type 0
  IsValid = Holds (IsProfile v) (IsHash lib v)

  -- Where every document has a name of 2 to 32 runes, an e-mail and a phone that the validator accepts
  -- and the hash of a password of 8 to 32 runes, every document does after any requests, whatever fails.
  pub run-IsValid :
      (qs : List (Env × Request)) (w : World)
      → All IsValid w.documents
      → All IsValid (run lib v qs w).documents
  unfolding run
  run-IsValid [] w h = h
  run-IsValid ((e, q) ∷ qs) w h =
      run-IsValid qs (handle lib v e q w)
        (Step-Holds (IsProfile v) (IsHash lib v) w.documents _ (handle-Step lib v e q w) h)
