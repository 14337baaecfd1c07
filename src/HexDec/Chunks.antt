-- ===== src/HexDec/Chunks.antt =====
-- The chunks of a text in main of c/hex-dec.c.
use Prim.Native.Nat.{ℕ, zero, suc, ◌<◌}
use code_slices.Base.{List, [], ◌∷◌, ◌++◌, length}
use code_slices.Base.Int.{short_of}
use code_slices.HexDec.{Piece, dot, number, separator}
use code_slices.HexDec.Decode.{print_hex}

-- The numbers of `vs` with `size` digits each, in front of `rest`.
unfoldable pub print_chunks : ℕ → List ℕ → List ℕ → List ℕ
print_chunks size [] rest = rest
print_chunks size (v ∷ vs) rest = print_hex size v (print_chunks size vs rest)

abbrev pub AllBelow : ℕ → List ℕ → Type 0
AllBelow bound [] = Unit {0}
AllBelow bound (v ∷ vs) = (v < bound) × AllBelow bound vs

-- Each number with a dot in front.
unfoldable pub preceded : List ℕ → List Piece
preceded [] = []
preceded (v ∷ vs) = dot ∷ number (short_of v) ∷ preceded vs

-- The numbers with dots between them.
unfoldable pub dotted : List ℕ → List Piece
unfolding preceded
dotted [] = []
dotted (v ∷ vs) = number (short_of v) ∷ preceded vs

abbrev from : ℕ → List ℕ → List Piece
from zero vs = dotted vs
from (suc i) vs = preceded vs

-- What main prints behind the chunks for the low `r` digits of `w`.
abbrev pub left_over : ℕ → ℕ → List ℕ → List Piece
left_over zero w vs = dotted vs
left_over (suc r) w vs = dotted (vs ++ w ∷ []) ++ dot ∷ []

-- What the part behind the loop prints.
abbrev behind : ℕ → ℕ → List ℕ → List Piece
behind zero w vs = []
behind (suc r) w vs = separator (length vs) ++ number (short_of w) ∷ dot ∷ []
