-- ===== src/Auth/Sessions.antt =====
-- The keys of services/auth_service/repository/redis_repo that are gone, and stay so.
use inno_taxi.Base.{ℕ, String, false, List, [], ◌∷◌, ◌≡◌, refl, inl, inr, arith}
use inno_taxi.Base.Tests.{Bool-cases}
use inno_taxi.Auth.Store.{
  access_key, refresh_key, del, exists, World, Key, same_key, Session, remove, holds, put,
}

abbrev pub IsGone : Key → List Session → Type 0
IsGone k ss = (now : ℕ) → holds k now ss ≡ false

pub remove-IsGone : (k : Key) (ss : List Session) → IsGone k (remove k ss)
unfolding remove holds
remove-IsGone k [] now = refl
remove-IsGone k (s ∷ ss) now = elim (Bool-cases (same_key s.key k)) [
  | inl same ↦ rw same (remove-IsGone k ss now)
  | inr other ↦ rw other (rw other (remove-IsGone k ss now))
]

pub remove-keeps : (k j : Key) (ss : List Session) → IsGone k ss → IsGone k (remove j ss)
unfolding remove holds
remove-keeps k j [] h now = refl
remove-keeps k j (s ∷ ss) h now = elim (Bool-cases (same_key s.key j)) [
  | inl same ↦ rw same (remove-keeps k j ss (λ t. ground (arith, h t)) now)
  | inr other ↦ rw other (ground (arith, h now, remove-keeps k j ss (λ t. ground (arith, h t)) now))
]

pub put-keeps :
    (k j : Key) (ttl now : ℕ) (ss : List Session)
    → same_key j k ≡ false
    → IsGone k ss
    → IsGone k (put j ttl now ss)
unfolding holds
put-keeps k j ttl now ss other h t = rw other (remove-keeps k j ss h t)

-- The world in which the new pair of a refresh is issued.
abbrev pub rotated : String → World → World
rotated sid w = record {
  sessions = remove (refresh_key sid) (remove (access_key sid) w.sessions);
  commands = del (refresh_key sid) ∷ del (access_key sid) ∷ exists (refresh_key sid) ∷ w.commands;
}
