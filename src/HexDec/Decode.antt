-- ===== src/HexDec/Decode.antt =====
-- What bt_char2_to_byte of c/hex-dec.c computes.
use Prim.Native.Nat.{ℕ, zero, suc, ◌+◌, ◌-◌, ◌*◌, ◌/◌, ◌^◌, ◌≤◌, ◌<◌, ◌%◌}
use native.Mathlib.Nat.{pow-suc, one-le-pow, pow-le-pow_right}
use code_slices.Base.{
  none, some, List, ◌∷◌, ◌≡◌, ◌≢◌, arith, ltb, le→ltb, if◌then◌else◌, >>=-none, dec_lt, length,
  drop, get_elem?, ap, ◌∙◌,
}
use code_slices.Base.Int.{
  ℤ, pos, ◌+ℤ◌, fits_int, to_size, short_of, pattern16, int_max, pattern16-add, short_of-pattern16,
  fits_nonneg-some, fits_int-short_add, fits_nonneg, fits_nonneg-none,
}
use code_slices.HexDec.{upcase, hex_char_to_dec, byte_loop, bt_char2_to_byte}

-- The upper-case digit that `%X` prints for a value below 16.
unfoldable pub hex_digit : ℕ → ℕ
hex_digit d = if ltb d 10 then b'0' + d else b'A' + d - 10

-- `printf ("%0*X", k, v)` in front of `rest`: the low `k` digits of `v`.
unfoldable pub print_hex : ℕ → ℕ → List ℕ → List ℕ
print_hex zero v rest = rest
print_hex (suc k) v rest = print_hex k (v / 16) (hex_digit (v % 16) ∷ rest)

decode_digit : (d : ℕ) → d < 16 → hex_char_to_dec (upcase (hex_digit d)) ≡ d
unfolding hex_char_to_dec upcase hex_digit
decode_digit d h = ground arith

-- A lower-case digit is never decoded to its value.
pub lower_case_wrong : (d : ℕ) → 10 ≤ d → d < 16 → hex_char_to_dec (upcase (b'a' + d - 10)) ≢ d
unfolding hex_char_to_dec upcase
lower_case_wrong d lo hi = ground arith

pub length-print_hex : (k v : ℕ) (rest : List ℕ) → length (print_hex k v rest) ≡ k + length rest
unfolding print_hex
length-print_hex zero v rest = omega arith
length-print_hex (suc k) v rest =
    omega (arith, length-print_hex k (v / 16) (hex_digit (v % 16) ∷ rest))

pub drop-print_hex : (k v j : ℕ) (rest : List ℕ) → drop (k + j) (print_hex k v rest) ≡ drop j rest
unfolding print_hex
drop-print_hex zero v j rest = ap (λ n. drop n rest) (omega arith)
drop-print_hex (suc k) v j rest =
    ap (λ n. drop n (print_hex k (v / 16) (hex_digit (v % 16) ∷ rest))) (omega arith)
    ∙ drop-print_hex k (v / 16) (suc j) (hex_digit (v % 16) ∷ rest)

-- Behind the `k` digits stands `rest`.
get_elem?-print_hex :
    (k v i j : ℕ) (rest : List ℕ) → j ≡ k + i → get_elem? (print_hex k v rest) j ≡ get_elem? rest i
unfolding print_hex
get_elem?-print_hex zero v i j rest e = ap (get_elem? rest) (omega arith)
get_elem?-print_hex (suc k) v i j rest e =
    get_elem?-print_hex k (v / 16) (suc i) j (hex_digit (v % 16) ∷ rest) (omega arith)

product_le : (d base : ℕ) → d ≤ 15 → base ≤ 2 ^ 26 → d * base ≤ 2 ^ 30
product_le d base small fits = grind arith

-- One round, where the product and the next base fit an `int`.
round :
    (c : List ℕ) (k d r base : ℕ)
    → get_elem? c k ≡ some (hex_digit d)
    → d < 16
    → base ≤ 2 ^ 26
    → byte_loop c (suc k) (short_of r) base ≡ byte_loop c k (short_of (r + d * base)) (base * 16)
unfolding byte_loop
round c k d r base e small fits =
    let le = product_le d base (omega arith) fits in
    rw (
      e,
      decode_digit d small,
      fits_nonneg-some (d * base) (omega arith),
      fits_int-short_add r (d * base) le,
      fits_nonneg-some (base * 16) (omega arith),
      pattern16-add,
      short_of-pattern16,
    )

base_le : (k base : ℕ) → base * 16 ^ suc k ≤ 2 ^ 28 → base ≤ 2 ^ 26
base_le k base h = grind (arith, one-le-pow k 16, pow-suc 16 k)

recompose : (r base v : ℕ) → r + v % 16 * base + base * 16 * (v / 16) ≡ r + base * v
recompose r base v =
    let split : v ≡ 16 * (v / 16) + v % 16 = omega arith in
    omega (arith, ap (λ (t : ℕ). base * t) split)

byte_loop-print_hex :
    (k v r base : ℕ) (rest : List ℕ)
    → v < 16 ^ k
    → base * 16 ^ k ≤ 2 ^ 28
    → byte_loop (print_hex k v rest) k (short_of r) base ≡ some (short_of (r + base * v))
unfolding byte_loop print_hex
byte_loop-print_hex zero v r base rest small fits =
    let none_left : v ≡ 0 = omega arith in rw none_left (ap (λ n. some (short_of n)) (omega arith))
byte_loop-print_hex (suc k) v r base rest small fits =
    round (print_hex (suc k) v rest) k (v % 16) r base
      (get_elem?-print_hex k (v / 16) 0 k (hex_digit (v % 16) ∷ rest) (omega arith)) (omega arith)
      (base_le k base fits)
    ∙ byte_loop-print_hex k (v / 16) (r + v % 16 * base) (base * 16) (hex_digit (v % 16) ∷ rest)
        (omega (arith, pow-suc 16 k)) (omega (arith, ap (λ (t : ℕ). base * t) (pow-suc 16 k)))
    ∙ ap (λ n. some (short_of n)) (recompose r base v)

pow_small : (size : ℕ) → size ≤ 7 → 1 * 16 ^ size ≤ 2 ^ 28
pow_small size few =
    let bound : 16 ^ size ≤ 16 ^ 7 = pow-le-pow_right (omega arith) few in omega arith

long_enough :
    (size v : ℕ) (rest : List ℕ) → size ≤ 7 → to_size (pos size) ≤ length (print_hex size v rest)
long_enough size v rest few = omega (arith, length-print_hex size v rest)

-- Text that `printf` made of the low `size` digits of a number decodes to it, whatever follows: for
-- at most 7 digits, and up to the conversion to `short`.
pub bt_char2_to_byte-print_hex :
    (size v : ℕ) (rest : List ℕ)
    → size ≤ 7
    → v < 16 ^ size
    → bt_char2_to_byte (some (print_hex size v rest)) (pos size) ≡ some (short_of v)
unfolding bt_char2_to_byte
bt_char2_to_byte-print_hex size v rest few small = rw (le→ltb _ _ (long_enough size v rest few)) (
    byte_loop-print_hex size v 0 1 rest small (pow_small size few)
    ∙ ap (λ n. some (short_of n)) (omega arith))

byte_loop-overflow :
    (c : List ℕ) (k base : ℕ) (ret : ℤ)
    → base ≤ int_max
    → int_max < base * 16 ^ k
    → byte_loop c k ret base ≡ none
unfolding byte_loop
byte_loop-overflow c zero base ret fits over = absurd (omega arith)
byte_loop-overflow c (suc k) base ret fits over = >>=-none (get_elem? c k) λ hex.
    >>=-none (fits_nonneg (hex_char_to_dec (upcase hex) * base)) λ product.
      >>=-none (fits_int (ret +ℤ pos product)) λ sum. elim (dec_lt int_max (base * 16)) [
        | yes big ↦ rw (fits_nonneg-none _ big)
        | no fit ↦ rw (fits_nonneg-some (base * 16) (omega arith)) (
            byte_loop-overflow c k (base * 16) (short_of (pattern16 sum)) (omega arith)
              (omega (arith, ap (λ (t : ℕ). base * t) (pow-suc 16 k))))
      ]

-- From 8 digits on, `base` overflows: with that many characters there the result is undefined.
pub bt_char2_to_byte-overflow :
    (c : List ℕ) (size : ℕ)
    → 8 ≤ size
    → size < 2 ^ 31
    → size ≤ length c
    → bt_char2_to_byte (some c) (pos size) ≡ none
unfolding bt_char2_to_byte
bt_char2_to_byte-overflow c size many small long =
    let bound : 16 ^ 8 ≤ 16 ^ size = pow-le-pow_right (omega arith) many in
    rw (le→ltb (length c) (size % 2 ^ 64) (omega arith))
      (byte_loop-overflow c size 1 (pos 0) (omega arith) (omega arith))
