-- ===== src/Base/Texts.antt =====
-- C strings in lists of bytes.
use code_slices.Base.Tests.{◌==◌, if◌then◌else◌, ◌>>=◌}
use code_slices.Base.Lists.{length}
use Prim.Native.Nat.{ℕ, zero, suc}
use mathlib.Core.Path.{◌≡◌, refl}
use mathlib.Core.Option.{Option, none, some}
use mathlib.Core.List.{List, [], ◌∷◌}
use native.Mathlib.Omega.{arith}

-- A C string: what stands in front of the first 0, if there is one.
unfoldable pub c_text : List ℕ → Option (List ℕ)
c_text [] = none
c_text (c ∷ s) = if c == 0 then some [] else (do rest ← c_text s; some (c ∷ rest))

abbrev pub zeros : ℕ → List ℕ
zeros zero = []
zeros (suc n) = 0 ∷ zeros n

pub length-zeros : (n : ℕ) → length (zeros n) ≡ n
length-zeros zero = refl
length-zeros (suc n) = omega (arith, length-zeros n)
