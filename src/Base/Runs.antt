-- ===== src/Base/Runs.antt =====
-- What a call ends with, as a family, with one rule for each way to compose calls.
use mathlib.Core.Path.{◌≡◌, refl}
use mathlib.Core.Bool.{Bool, true, false}
use inno_taxi.Base.Action.{Result, ok, err, Action, continue, ◌>>=◌, ◌>>◌, raise_if}

-- `m`, run in `w`, ends with a result and a world of which `Q` holds.
pub data Runs {W E A : Type 0} (Q : Result E A → W → Type 0) (m : Action W E A) (w : W)
    : Type 0 where
  runs : Q (m w).0 (m w).1 → Runs Q m w

pub Runs-post :
    {W E A : Type 0} {Q : Result E A → W → Type 0} {m : Action W E A} {w : W}
    → Runs Q m w
    → Q (m w).0 (m w).1
Runs-post (runs q) = q

module _ {W E A B : Type 0} (Q : Result E B → W → Type 0) where
  -- What the first call of a chain has to end with.
  abbrev pub Then : (A → Action W E B) → Result E A → W → Type 0
  Then f (ok a) w = Runs Q (f a) w
  Then f (err x) w = Q (err x) w

  Then-continue :
      (f : A → Action W E B) (r : Result E A) (w : W)
      → Then f r w
      → Q (continue f r w).0 (continue f r w).1
  Then-continue f (ok a) w h = Runs-post h
  Then-continue f (err x) w h = h

  pub Runs-bind :
      (m : Action W E A) (f : A → Action W E B) (w : W) → Runs (Then f) m w → Runs Q (m >>= f) w
  Runs-bind m f w (runs h) = runs (Then-continue f (m w).0 (m w).1 h)

module _ {W E B : Type 0} (Q : Result E B → W → Type 0) where
  pub Runs-raise_if :
      (b : Bool) (x : E) (m : Action W E B) (w : W)
      → (b ≡ true → Q (err x) w)
      → (b ≡ false → Runs Q m w)
      → Runs Q (raise_if b x >> m) w
  Runs-raise_if true x m w stop go = runs (stop refl)
  Runs-raise_if false x m w stop go = runs (Runs-post (go refl))
