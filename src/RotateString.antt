-- ===== src/RotateString.antt =====
-- c/online-test/rotate-string.cpp: rotation of a string in place. `none` stands for what C++ leaves
-- undefined.
pub mod Rotated
mod Tests
use code_slices.Base.{
  ℕ, zero, suc, ◌+◌, ◌-◌, ◌%◌, ◌^◌, Option, none, some, List, [], ◌∷◌, ltb, leb, ◌==◌,
  if◌then◌else◌, ◌>>=◌, length, get_elem?, codes,
}
use code_slices.Base.Int.{ℤ, pos, negsuc}

-- `s[r]`: the character behind the last is a 0.
abbrev pub char_at : List ℕ → ℕ → Option ℕ
char_at s r = if r == length s then some 0 else get_elem? s r

-- `s[r] = c`
unfoldable pub set_char : List ℕ → ℕ → ℕ → Option (List ℕ)
set_char [] r c = none
set_char (x ∷ s) zero c = some (c ∷ s)
set_char (x ∷ s) (suc r) c = do rest ← set_char s r c; some (x ∷ rest)

-- The inner loop from `r` on, with the rounds that are left.
unfoldable pub shift_loop : (rounds r : ℕ) → List ℕ → Option (List ℕ)
unfolding set_char
shift_loop zero r s = some s
shift_loop (suc rounds) r s = do
  c ← char_at s (r + 1)
  next ← set_char s r c
  shift_loop rounds (r + 1) next

-- The outer loop with its three steps, for `rounds` rounds; `l` is the length.
unfoldable pub rotate_loop : (l rounds : ℕ) → List ℕ → Option (List ℕ)
unfolding shift_loop set_char
rotate_loop l zero s = some s
rotate_loop l (suc rounds) s = do
  c ← char_at s 0
  shifted ← shift_loop l 0 s
  next ← set_char shifted (l - 1) c
  rotate_loop l rounds next

-- `n % l` for a length of 0 is undefined.
abbrev pub rest_of : ℕ → ℕ → Option ℕ
rest_of n zero = none
rest_of n (suc l) = some (n % suc l)

-- The length is kept as an `unsigned int`, of 32 bits.
unfoldable pub rotate : List ℕ → ℕ → Option (List ℕ)
unfolding rotate_loop
rotate s n =
    let l = length s % 2 ^ 32 in
    do rounds ← if ltb l n then rest_of n l else some n; rotate_loop l rounds s

-- An `int` as an `unsigned int`.
abbrev pub to_unsigned : ℤ → ℕ
to_unsigned (pos n) = n % 2 ^ 32
to_unsigned (negsuc n) = 2 ^ 32 - 1 - n % 2 ^ 32

-- The strings that main prints, each on a line of its own.
unfoldable pub rotate_main : Option (List (List ℕ))
rotate_main =
    let call : ℤ → Option (List ℕ) = λ n. rotate (codes "abcdefg") (to_unsigned n) in
    do
      by_3 ← call (pos 3)
      by_13 ← call (pos 13)
      by_33 ← call (pos 33)
      by_0 ← call (pos 0)
      by_negative ← call (negsuc 0)
      some (by_3 ∷ by_13 ∷ by_33 ∷ by_0 ∷ by_negative ∷ [])
