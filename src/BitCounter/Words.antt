-- ===== src/BitCounter/Words.antt =====
-- int_bit_counter of c/int-bit-counter.c on every word of 32 bits.
use native.Mathlib.Nat.{div-div-eq-div-mul, pow-succ'}
use code_slices.Base.{
  ℕ, zero, suc, ◌+◌, ◌-◌, ◌*◌, ◌/◌, ◌%◌, ◌^◌, ◌≤◌, ◌<◌, ◌≡◌, refl, sym, ap, ◌∙◌, Bool, true, false,
  List, [], ◌∷◌, arith, dec_le, length,
}
use code_slices.Base.Int.{pos, negsuc, to_int, int_max}
use code_slices.BitCounter.{shift_right, low_bit, count_loop, int_bit_counter}

-- A word as its bits, the lowest first.
unfoldable pub value : List Bool → ℕ
value [] = 0
value (true ∷ bs) = 1 + 2 * value bs
value (false ∷ bs) = 2 * value bs

unfoldable pub trues : List Bool → ℕ
trues [] = 0
trues (true ∷ bs) = 1 + trues bs
trues (false ∷ bs) = trues bs

value-lt : (bs : List Bool) → value bs < 2 ^ length bs
unfolding value
value-lt [] = omega arith
value-lt (true ∷ bs) = omega (arith, value-lt bs, pow-succ' 2 (length bs))
value-lt (false ∷ bs) = omega (arith, value-lt bs, pow-succ' 2 (length bs))

div-pow-suc : (v k : ℕ) → v / 2 ^ suc k ≡ v / 2 / 2 ^ k
div-pow-suc v k = ap (λ d. v / d) (pow-succ' 2 k) ∙ sym (div-div-eq-div-mul v 2 (2 ^ k))

-- The bits of two words that add up to all ones differ everywhere.
complement : (k m w v : ℕ) → k < m → w + v + 1 ≡ 2 ^ m → w / 2 ^ k % 2 + v / 2 ^ k % 2 ≡ 1
complement k zero w v lt e = elim lt [ ]
complement zero (suc m) w v lt e = omega (arith, pow-succ' 2 m)
complement (suc k) (suc m) w v lt e =
    rw (div-pow-suc w k, div-pow-suc v k)
      (complement k m (w / 2) (v / 2) (omega arith) (omega (arith, pow-succ' 2 m)))

-- A bit of the `int` is the bit of its pattern, also below zero.
bit-to_int : (v k : ℕ) → v < 2 ^ 32 → k < 32 → low_bit (shift_right (to_int v) k) ≡ v / 2 ^ k % 2
unfolding low_bit shift_right
bit-to_int v k word lt = elim (dec_le v int_max) [
  | yes small ↦ (let e : to_int v ≡ pos v = ground arith in rw e)
  | no big ↦
      let e : to_int v ≡ negsuc (2 ^ 32 - 1 - v) = ground arith in
      rw e (omega (arith, complement k 32 (2 ^ 32 - 1 - v) v lt (omega arith)))
]

-- The sum of the lowest `k` bits, as the loop counts them and from below.
bits_below : ℕ → ℕ → ℕ
bits_below zero v = 0
bits_below (suc k) v = v / 2 ^ k % 2 + bits_below k v

count_loop-bits_below :
    (v : ℕ)
    → v < 2 ^ 32
    → (k count : ℕ) → k ≤ 32
    → count_loop k (to_int v) count ≡ count + bits_below k v
unfolding count_loop bits_below
count_loop-bits_below v word zero count le = omega arith
count_loop-bits_below v word (suc k) count le =
    rw (bit-to_int v k word le)
      (omega (arith, count_loop-bits_below v word k (count + v / 2 ^ k % 2) (omega arith)))

bits_below-suc : (k v : ℕ) → bits_below (suc k) v ≡ v % 2 + bits_below k (v / 2)
unfolding bits_below
bits_below-suc zero v = omega arith
bits_below-suc (suc k) v =
    omega (arith, bits_below-suc k v, ap (λ (t : ℕ). t % 2) (div-pow-suc v k))

bits_below-value : (bs : List Bool) → bits_below (length bs) (value bs) ≡ trues bs
unfolding value trues
bits_below-value [] = unfold bits_below in refl
bits_below-value (true ∷ bs) =
    let half : (1 + 2 * value bs) / 2 ≡ value bs = omega arith in
    rw (bits_below-suc, half, bits_below-value bs) (omega arith)
bits_below-value (false ∷ bs) =
    let half : 2 * value bs / 2 ≡ value bs = omega arith in
    rw (bits_below-suc, half, bits_below-value bs) (omega arith)

-- For every word of 32 bits, read as an `int` in two's complement, int_bit_counter gives the number
-- of bits that are set, of negative numbers too.
pub int_bit_counter-trues :
    (bs : List Bool) → length bs ≡ 32 → int_bit_counter (to_int (value bs)) ≡ trues bs
unfolding int_bit_counter
int_bit_counter-trues bs whole =
    let small : value bs < 2 ^ 32 = rw whole at (value-lt bs) in
    count_loop-bits_below (value bs) small 32 0 (omega arith)
    ∙ omega (arith, bits_below-value bs, ap (λ k. bits_below k (value bs)) whole)
