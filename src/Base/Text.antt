-- ===== src/Base/Text.antt =====
-- Go's `strings.HasPrefix`, `strings.TrimPrefix` and `strings.Join`.
use Prim.Native.String.{String, ◌++◌, len, slice}
use mathlib.Core.Bool.{Bool, true}
use mathlib.Core.List.{List, [], ◌∷◌}
use mathlib.Core.Path.{◌≡◌, refl}
use text.Mathlib.Text.{starts_with}
use text.Mathlib.TextEquality.{starts_with_iff}
use text.Mathlib.TextPositions.{len-append, slice-append_right}
use inno_taxi.Base.Tests.{if◌then◌else◌}

abbrev pub has_prefix : String → String → Bool
has_prefix = starts_with

unfoldable pub trim_prefix : String → String → String
trim_prefix s p = if has_prefix s p then slice s (len p) (len s) else s

unfoldable pub join : List String → String → String
join [] sep = ""
join (s ∷ []) sep = s
join (s ∷ t ∷ ss) sep = s ++ sep ++ join (t ∷ ss) sep

pub has_prefix-append : (p s : String) → has_prefix (p ++ s) p ≡ true
has_prefix-append p s = (starts_with_iff (p ++ s) p).1 (s, refl)

pub trim_prefix-append : (p s : String) → trim_prefix (p ++ s) p ≡ s
unfolding trim_prefix
trim_prefix-append p s = rw (has_prefix-append p s) (rw (len-append p s) (slice-append_right p s))
