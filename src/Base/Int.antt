-- ===== src/Base/Int.antt =====
-- C's signed integers: values as ℤ over the native numbers, under the library's names, and the
-- conversions between the widths that the sources use.
use code_slices.Base.Tests.{leb, ltb, ◌==◌, if◌then◌else◌, ◌>>=◌}
use Prim.Native.Nat.{ℕ, zero, suc, ◌/◌, ◌+◌, ◌-◌, ◌%◌, ◌^◌, ◌<◌, ◌≤◌}
use mathlib.Core.Path.{◌≡◌}
use mathlib.Core.Bool.{Bool, true, false, not}
use mathlib.Core.Option.{Option, none, some}
use native.Mathlib.Omega.{arith}

-- `negsuc n` is -(n + 1).
pub data ℤ : Type 0 where
  pos : ℕ → ℤ
  negsuc : ℕ → ℤ

abbrev pub pos_part : ℤ → ℕ
pos_part (pos n) = n
pos_part (negsuc n) = 0

abbrev pub neg_part : ℤ → ℕ
neg_part (pos n) = 0
neg_part (negsuc n) = suc n

-- a - b, as an integer.
abbrev pub sub_ℕ : ℕ → ℕ → ℤ
sub_ℕ a b = if leb b a then pos (a - b) else negsuc (b - a - 1)

infixl 65 ◌+ℤ◌ ◌-ℤ◌
unfoldable pub ◌+ℤ◌ : ℤ → ℤ → ℤ
a +ℤ b = sub_ℕ (pos_part a + pos_part b) (neg_part a + neg_part b)

unfoldable pub ◌-ℤ◌ : ℤ → ℤ → ℤ
a -ℤ b = sub_ℕ (pos_part a + neg_part b) (neg_part a + pos_part b)

abbrev pub ltb_ℤ : ℤ → ℤ → Bool
ltb_ℤ a b = ltb (pos_part a + neg_part b) (pos_part b + neg_part a)

abbrev pub eqb_ℤ : ℤ → ℤ → Bool
eqb_ℤ a b = pos_part a + neg_part b == pos_part b + neg_part a

abbrev pub int_max : ℕ
int_max = 2 ^ 31 - 1

-- An `int` result, undefined where it does not fit.
abbrev pub fits_int : ℤ → Option ℤ
fits_int (pos n) = if leb n int_max then some (pos n) else none
fits_int (negsuc n) = if leb n int_max then some (negsuc n) else none

-- The same for a result that is not negative.
abbrev pub fits_nonneg : ℕ → Option ℕ
fits_nonneg n = if leb n int_max then some n else none

-- Conversion to `size_t`, modulo 2 ^ 64.
abbrev pub to_size : ℤ → ℕ
to_size (pos n) = n % 2 ^ 64
to_size (negsuc n) = 2 ^ 64 - 1 - n % 2 ^ 64

-- Conversion of a `size_t` to `int`, modulo 2 ^ 32.
abbrev pub to_int : ℕ → ℤ
to_int n = if leb (n % 2 ^ 32) int_max then pos (n % 2 ^ 32) else negsuc (2 ^ 32 - 1 - n % 2 ^ 32)

-- The `short` with the bit pattern `n`.
unfoldable pub short_of : ℕ → ℤ
short_of n =
    if ltb (n % 2 ^ 16) (2 ^ 15) then pos (n % 2 ^ 16) else negsuc (2 ^ 16 - 1 - n % 2 ^ 16)

-- The bit pattern of an integer in 16 bits.
unfoldable pub pattern16 : ℤ → ℕ
pattern16 (pos n) = n % 2 ^ 16
pattern16 (negsuc n) = 2 ^ 16 - 1 - n % 2 ^ 16

pub short_of-pattern16 : (n : ℕ) → short_of (n % 2 ^ 16) ≡ short_of n
unfolding short_of
short_of-pattern16 n = ground arith

-- Adding to a `short` and converting back adds the patterns.
pub pattern16-add : (n m : ℕ) → pattern16 (short_of n +ℤ pos m) ≡ (n + m) % 2 ^ 16
unfolding pattern16 short_of ◌+ℤ◌
pattern16-add n m = ground arith

pub fits_nonneg-some : (n : ℕ) → n ≤ int_max → fits_nonneg n ≡ some n
fits_nonneg-some n h = ground arith

pub fits_nonneg-none : (n : ℕ) → int_max < n → fits_nonneg n ≡ none
fits_nonneg-none n h = ground arith

-- A `short` plus a small number is an `int`.
pub fits_int-short_add :
    (n m : ℕ) → m ≤ 2 ^ 30 → fits_int (short_of n +ℤ pos m) ≡ some (short_of n +ℤ pos m)
unfolding short_of ◌+ℤ◌
fits_int-short_add n m h = ground arith

pub pos-add : (a b : ℕ) → pos a +ℤ pos b ≡ pos (a + b)
unfolding ◌+ℤ◌
pos-add a b = ground arith

pub to_int-small : (n : ℕ) → n ≤ int_max → to_int n ≡ pos n
to_int-small n h = ground arith

abbrev pub magnitude : ℤ → ℕ
magnitude (pos n) = n
magnitude (negsuc n) = suc n

-- `a` with the sign of `negative`.
abbrev pub signed : Bool → ℕ → ℤ
signed negative a = if negative then sub_ℕ 0 a else pos a

abbrev pub is_negative : ℤ → Bool
is_negative (pos n) = false
is_negative (negsuc n) = true

-- C's division of `int`s, towards 0, and its remainder: undefined for a zero divisor, and where the
-- quotient does not fit.
unfoldable pub div_int : ℤ → ℤ → Option ℤ
div_int a (pos zero) = none
div_int a (pos (suc b)) = fits_int (signed (is_negative a) (magnitude a / suc b))
div_int a (negsuc b) = fits_int (signed (not (is_negative a)) (magnitude a / suc b))

unfoldable pub mod_int : ℤ → ℤ → Option ℤ
unfolding div_int
mod_int a b = do quotient ← div_int a b; some (signed (is_negative a) (magnitude a % magnitude b))
