-- ===== src/Shared/Agrees.antt =====
-- The two ways to learn the caller, on a token that the auth service has signed.
use Prim.Native.String.{◌++◌}
use inno_taxi.Base.{
  ℕ, String, List, some, true, false, ◌∷◌, ◌≡◌, refl, sym, ap, ◌∙◌, inl, inr, arith,
}
use inno_taxi.Base.Action.{ok}
use inno_taxi.Base.Tests.{◌==◌, ==_eq, Bool-cases}
use inno_taxi.Base.Text.{has_prefix, has_prefix-append, trim_prefix-append}
use inno_taxi.Auth.Entity.{AccessClaims, Jwt}
use inno_taxi.Shared.{bearer_prefix, custom_claims, caller_of, key_of, auth, auth_interceptor}

bearer-not_empty : (raw : String) → ((bearer_prefix ++ raw) == "") ≡ false
bearer-not_empty raw = elim (Bool-cases ((bearer_prefix ++ raw) == "")) [
  | inl empty ↦ absurd (
      no_prefix (
        ap (λ s. has_prefix s bearer_prefix) (sym (==_eq _ _ empty))
        ∙ has_prefix-append bearer_prefix raw))
  | inr other ↦ other
]
  where
    no_prefix : has_prefix "" bearer_prefix ≡ true → ⊥
    no_prefix h = ground (arith, h)

module _ (jwt : Jwt) (secret : String) (now : ℕ) where
  -- Both learn the subject and the roles of a token that parses.
  pub auth-bearer :
      (raw : String) (c : AccessClaims)
      → jwt.parse raw (key_of secret) now ≡ some c
      → auth jwt secret now (bearer_prefix ++ raw) ≡ ok (caller_of (custom_claims c))
  unfolding auth
  auth-bearer raw c p = rw (bearer-not_empty raw) (
      rw (has_prefix-append bearer_prefix raw)
        (rw (trim_prefix-append bearer_prefix raw) (rw p refl)))

  pub auth_interceptor-bearer :
      (raw : String) (more : List String) (c : AccessClaims)
      → jwt.parse raw (key_of secret) now ≡ some c
      → auth_interceptor jwt secret now (some ((bearer_prefix ++ raw) ∷ more))
        ≡ ok (caller_of (custom_claims c))
  unfolding auth_interceptor
  auth_interceptor-bearer raw more c p =
      rw (has_prefix-append bearer_prefix raw)
        (rw (trim_prefix-append bearer_prefix raw) (rw p refl))
