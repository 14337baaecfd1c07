-- ===== src/StringFind/Verdict.antt =====
-- Where string_compare of c/string-find.c agrees with strncmp: what TEST_CMP prints for two texts.
use code_slices.Base.{
  ◌++◌, false, true, Bool, ℕ, zero, suc, ◌≡◌, some, List, [], ◌∷◌, length, ◌==◌, ltb, if◌then◌else◌,
}
use code_slices.Base.Int.{ℤ, pos, negsuc, ltb_ℤ, eqb_ℤ}
use code_slices.StringFind.{c_str, Comparison}
use code_slices.StringFind.Text.{IsText}

-- The order of the first `n` bytes of two texts, where the end of a text is below each byte.
pub data Order : Type 0 where
  below same above : Order

unfoldable pub order : ℕ → List ℕ → List ℕ → Order
order zero s t = same
order (suc n) [] [] = same
order (suc n) [] (d ∷ t) = below
order (suc n) (c ∷ s) [] = above
order (suc n) (c ∷ s) (d ∷ t) = if c == d then order n s t else (if ltb c d then below else above)

-- A result says by its sign how the texts stand.
abbrev pub Signed : Order → ℤ → Type 0
Signed below r = ltb_ℤ r (pos 0) ≡ true
Signed same r = r ≡ pos 0
Signed above r = ltb_ℤ (pos 0) r ≡ true

-- strncmp: the sign of its result is the order of the texts, whatever its size.
pub record IsStrncmp (strncmp : Comparison) : Type 0 where
  pub by_sign :
      (s t : List ℕ) (n : ℕ)
      → IsText s
      → IsText t
      → (r : ℤ) × (strncmp (some (c_str s)) (some (c_str t)) n ≡ some r) × Signed (order n s t) r

-- How a text stands to another, and what string_compare gives for the length of the second.
data Standing (s t : List ℕ) (r : ℤ) (o : Order) : Type 0 where
  at_end : s ≡ t → o ≡ same → r ≡ pos 0 → Standing s t r o
  going_on : (c : ℕ) (rest : List ℕ) → s ≡ t ++ c ∷ rest → o ≡ same → r ≡ pos 1 → Standing s t r o
  smaller : o ≡ below → r ≡ negsuc 0 → Standing s t r o
  greater : o ≡ above → r ≡ negsuc 0 → Standing s t r o

-- What TEST_CMP prints, by how the texts stand and by the result `r` of strncmp.
pub data Verdict (s t : List ℕ) (r : ℤ) (pass : Bool) : Type 0 where
  equal : s ≡ t → pass ≡ true → Verdict s t r pass
  continued : (c : ℕ) (rest : List ℕ) → s ≡ t ++ c ∷ rest → pass ≡ false → Verdict s t r pass
  before : order (length t) s t ≡ below → pass ≡ eqb_ℤ r (negsuc 0) → Verdict s t r pass
  behind : order (length t) s t ≡ above → pass ≡ false → Verdict s t r pass
