-- ===== src/User/Roles.antt =====
-- Who has the role of an admin, under any requests to services/user_service.
use inno_taxi.Base.{ℕ, String, false, List, [], ◌∷◌, ◌++◌, ◌≡◌, refl, ap, ◌⊎◌, inl, inr, arith}
use inno_taxi.Base.Lists.{All}
use inno_taxi.Base.Tests.{Bool-cases}
use inno_taxi.User.Entity.{
  role_user, role_driver, role_admin, role_analyst, Document, ObjectId, Library,
}
use inno_taxi.User.Repository.{Env, World, is_active, update_active, role_added, has_role}
use inno_taxi.User.Http.{Validator}
use inno_taxi.User.Requests.{Request, handle, run}
use inno_taxi.User.Steps.{
  Profiles, Hashes, Step, unchanged, joined, renamed, rehashed, removed, promoted,
}
use inno_taxi.User.Handled.{handle-Step}

abbrev pub IsNoAdmin : Document → Type 0
IsNoAdmin d = has_role role_admin d.roles ≡ false

append-no_admin :
    (xs : List String)
    → has_role role_admin xs ≡ false
    → has_role role_admin (xs ++ role_analyst ∷ []) ≡ false
unfolding has_role
append-no_admin [] h = refl
append-no_admin (x ∷ xs) h = ground (arith, h, append-no_admin xs (ground (arith, h)))

update-IsNoAdmin :
    (i : ObjectId) (f : Document → Document) (ds : List Document)
    → ((x : Document) → IsNoAdmin x → IsNoAdmin (f x))
    → All IsNoAdmin ds
    → All IsNoAdmin (update_active i f ds)
unfolding update_active
update-IsNoAdmin i f [] h ps = tt
update-IsNoAdmin i f (x ∷ xs) h (p, ps) = elim (Bool-cases (is_active i x)) [
  | inl active ↦ rw active (h x p, ps)
  | inr other ↦ rw other (p, update-IsNoAdmin i f xs h ps)
]

joined-IsNoAdmin :
    (d : Document) (ds : List Document)
    → (d.roles ≡ role_user ∷ []) ⊎ (d.roles ≡ role_driver ∷ [])
    → All IsNoAdmin ds
    → All IsNoAdmin (ds ++ d ∷ [])
unfolding has_role
joined-IsNoAdmin d [] (inl role) ps = (ap (λ rs. has_role role_admin rs) role, tt)
joined-IsNoAdmin d [] (inr role) ps = (ap (λ rs. has_role role_admin rs) role, tt)
joined-IsNoAdmin d (x ∷ xs) role (p, ps) = (p, joined-IsNoAdmin d xs role ps)

added-IsNoAdmin : (t : ℕ) (x : Document) → IsNoAdmin x → IsNoAdmin (role_added role_analyst t x)
added-IsNoAdmin t x h = elim (Bool-cases (has_role role_analyst x.roles)) [
  | inl there ↦ rw there h
  | inr new ↦ rw new (append-no_admin x.roles h)
]

Step-IsNoAdmin :
    {V : Profiles} {H : Hashes} (ds ds' : List Document)
    → Step V H ds ds'
    → All IsNoAdmin ds
    → All IsNoAdmin ds'
Step-IsNoAdmin ds _ unchanged h = h
Step-IsNoAdmin ds _ (joined d free role fine made) h = joined-IsNoAdmin d ds role h
Step-IsNoAdmin ds _ (renamed i name email phone t free fine) h =
    update-IsNoAdmin i _ ds (λ x p. p) h
Step-IsNoAdmin ds _ (rehashed i hash t fine) h = update-IsNoAdmin i _ ds (λ x p. p) h
Step-IsNoAdmin ds _ (removed i t) h = update-IsNoAdmin i _ ds (λ x p. p) h
Step-IsNoAdmin ds _ (promoted i t) h =
    update-IsNoAdmin i (role_added role_analyst t) ds (added-IsNoAdmin t) h

module _ (lib : Library) (v : Validator) where
  -- Where nobody has the role of an admin, nobody gets it by any requests, whatever fails.
  pub run-IsNoAdmin :
      (qs : List (Env × Request)) (w : World)
      → All IsNoAdmin w.documents
      → All IsNoAdmin (run lib v qs w).documents
  unfolding run
  run-IsNoAdmin [] w h = h
  run-IsNoAdmin ((e, q) ∷ qs) w h =
      run-IsNoAdmin qs (handle lib v e q w)
        (Step-IsNoAdmin w.documents _ (handle-Step lib v e q w) h)
