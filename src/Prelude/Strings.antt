-- ===== src/Prelude/Strings.antt =====
-- Texts as whole values, and a Go `map[string]struct{}` as the list of the keys put into it.
use Prim.Native.String.{String}
use mathlib.Core.Bool.{Bool, false, true, ◌||◌}
use mathlib.Core.List.{List, [], ◌∷◌, ◌++◌}
use mathlib.Core.Path.{◌≡◌, refl}
use native.Mathlib.Omega.{arith}
use text.Mathlib.TextEquality.{eq_iff}
use text.Mathlib.Text.{◌==◌ as eq}

abbrev pub str_eq : String → String → Bool
str_eq s t = eq s t

abbrev pub str_mem : String → List String → Bool
str_mem k [] = false
str_mem k (x ∷ xs) = str_eq k x || str_mem k xs

pub str_eq_refl : (s : String) → str_eq s s ≡ true
str_eq_refl s = (eq_iff s s).1 refl

pub str_mem-append :
    (k : String) (xs ys : List String) → str_mem k (xs ++ ys) ≡ (str_mem k xs || str_mem k ys)
str_mem-append k [] ys = refl
str_mem-append k (x ∷ xs) ys = ground (arith, str_mem-append k xs ys)
