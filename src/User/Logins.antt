-- ===== src/User/Logins.antt =====
-- Whom a login leads to, in services/user_service/repository/mongo, after a document has changed.
use inno_taxi.Base.{
  String, none, some, List, [], ◌∷◌, ◌≡◌, ◌≢◌, refl, sym, ap, ◌∙◌, ◌⊎◌, inl, inr, arith,
}
use mathlib.Core.Path.{subst}
use inno_taxi.Base.Lists.{All}
use inno_taxi.Base.Tests.{Bool-cases, ==_eq}
use inno_taxi.User.Entity.{Document, ObjectId}
use inno_taxi.User.Repository.{has_login, is_active, lookup_login, lookup_active, update_active}
use inno_taxi.User.Indexed.{Apart, IsIndexed}

module _ (i : ObjectId) (f : Document → Document) (l : String)
    (keeps_email : (x : Document) → (f x).email ≡ x.email)
    (keeps_phone : (x : Document) → (f x).phone ≡ x.phone) where
  same_login : (x : Document) → has_login l (f x) ≡ has_login l x
  same_login x = rw (keeps_email x) (rw (keeps_phone x) refl)

  -- Who logs in with `l`, after a change.
  pub lookup_login-update :
      (ds : List Document) (d : Document)
      → lookup_login l ds ≡ some d
      → (lookup_login l (update_active i f ds) ≡ some d)
        ⊎ (lookup_login l (update_active i f ds) ≡ some (f d))
  unfolding lookup_login update_active
  lookup_login-update [] d h = absurd (ground (arith, h))
  lookup_login-update (x ∷ xs) d h = elim (Bool-cases (is_active i x)) [
    | inl active ↦ rw active (elim (Bool-cases (has_login l x)) [
      | inl mine ↦ inr (ground (arith, same_login x, mine, rw mine at h))
      | inr other ↦ inl (ground (arith, same_login x, other, rw other at h))
    ])
    | inr inactive ↦ rw inactive (elim (Bool-cases (has_login l x)) [
      | inl mine ↦ inl (ground (arith, mine, rw mine at h))
      | inr other ↦ rw other (lookup_login-update xs d (rw other at h))
    ])
  ]

  no_other_active :
      (x : Document) (xs : List Document) → x.id ≡ i → All (Apart x) xs → lookup_active i xs ≡ none
  unfolding lookup_active
  no_other_active x [] mine ps = refl
  no_other_active x (y ∷ ys) mine (p, ps) = elim (Bool-cases (is_active i y)) [
    | inl active ↦ absurd (p.0 (mine ∙ sym (==_eq y.id i (ground (arith, active)))))
    | inr inactive ↦ rw inactive (no_other_active x ys mine ps)
  ]

  found-Apart :
      (x : Document) (xs : List Document) (d : Document)
      → lookup_login l xs ≡ some d
      → All (Apart x) xs
      → x.id ≢ d.id
  unfolding lookup_login
  found-Apart x [] d h ps = absurd (ground (arith, h))
  found-Apart x (y ∷ ys) d h (p, ps) = elim (Bool-cases (has_login l y)) [
    | inl mine ↦
        (let here : y ≡ d = ground (arith, rw mine at h) in
          subst (λ (z : Document). x.id ≢ z.id) here p.0)
    | inr other ↦ found-Apart x ys d (rw other at h) ps
  ]

  -- It is the account that was changed, where its id is its own.
  pub lookup_login-updated :
      (ds : List Document) (d d' : Document)
      → IsIndexed ds
      → lookup_login l ds ≡ some d
      → d.id ≡ i
      → lookup_active i ds ≡ some d'
      → lookup_login l (update_active i f ds) ≡ some (f d)
  unfolding lookup_login update_active lookup_active
  lookup_login-updated [] d d' ps h mine found = absurd (ground (arith, h))
  lookup_login-updated (x ∷ xs) d d' (p, ps) h mine found = elim (Bool-cases (is_active i x)) [
    | inl active ↦ rw active (elim (Bool-cases (has_login l x)) [
      | inl here ↦ ground (arith, same_login x, here, rw here at h)
      | inr other ↦
          absurd (
            found-Apart x xs d (rw other at h) p (==_eq x.id i (ground (arith, active)) ∙ sym mine))
    ])
    | inr inactive ↦ rw inactive (elim (Bool-cases (has_login l x)) [
      | inl here ↦
          (let same : x ≡ d = ground (arith, rw here at h) in
            absurd (
              ground (
                arith,
                rw inactive at found,
                no_other_active x xs (ap (λ (z : Document). z.id) same ∙ mine) p,
              )))
      | inr other ↦
          rw other (lookup_login-updated xs d d' ps (rw other at h) mine (rw inactive at found))
    ])
  ]
