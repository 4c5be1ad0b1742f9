-- ===== src/Base/Action.antt =====
-- A call of a Go method `func (...) (A, error)` that changes a world: it returns its result or an
-- error, and the world as the call left it. What was written before an error stays written.
use mathlib.Core.Bool.{Bool, true, false}
use mathlib.Core.Path.{◌≡◌, refl}

pub data Result (E A : Type 0) : Type 0 where
  ok : A → Result E A
  err : E → Result E A

abbrev pub Action : Type 0 → Type 0 → Type 0 → Type 0
Action W E A = W → Result E A × W

module _ {W E A : Type 0} where
  abbrev pub pure : A → Action W E A
  pure a w = (ok a, w)

  abbrev pub raise : E → Action W E A
  raise e w = (err e, w)

  -- The result is looked at, and an error goes no further.
  abbrev pub attempt : Action W E A → Action W E (Result E A)
  attempt m w = let (r, w') = m w in (ok r, w')

  abbrev pub lift : Result E A → Action W E A
  lift r w = (r, w)

-- What follows a call that has returned.
abbrev pub continue : {W E A B : Type 0} → (A → Action W E B) → Result E A → W → Result E B × W
continue f (ok a) w = f a w
continue f (err e) w = (err e, w)

infixl 5 ◌>>=◌ ◌>>◌
abbrev pub ◌>>=◌ : {W E A B : Type 0} → Action W E A → (A → Action W E B) → Action W E B
◌>>=◌ m f w = continue f (m w).0 (m w).1

abbrev pub ◌>>◌ : {W E A B : Type 0} → Action W E A → Action W E B → Action W E B
m >> k = m >>= λ _. k

abbrev pub raise_if : {W E : Type 0} → Bool → E → Action W E (Unit {0})
raise_if true e w = (err e, w)
raise_if false e w = (ok tt, w)

-- An `error` that is logged and dropped: `if err := m; err != nil { slog.Error(...) }`.
abbrev pub best_effort : {W E A : Type 0} → Action W E A → Action W E (Unit {0})
best_effort m w = let (r, w') = m w in (ok tt, w')

-- A chain that succeeded: its first call did, and the rest, in the world that it left, ended as the
-- chain did.
pub >>=-eq-ok :
    {W E A B : Type 0} (m : Action W E A) (f : A → Action W E B) (w : W) {b : B}
    → ((m >>= f) w).0 ≡ ok b
    → (a : A) × ((m w).0 ≡ ok a) × (f a (m w).1 ≡ (m >>= f) w)
>>=-eq-ok {W} {E} {A} {B} m f w {b} h = go (m w).0 (m w).1 h
  where
    go :
        (r : Result E A) (v : W)
        → (continue f r v).0 ≡ ok b
        → (a : A) × (r ≡ ok a) × (f a v ≡ continue f r v)
    go (ok a) v h = (a, refl, refl)
    go (err x) v h = cc
