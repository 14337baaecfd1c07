-- ===== src/HexDec.antt =====
-- c/hex-dec.c: decoding of hexadecimal text. A `char` is its byte, a `short` or `int` the integer
-- that it holds; `none` stands for what C leaves undefined.
pub mod Decode
pub mod Chunks
mod Tests
use Prim.Native.Nat.{ℕ, zero, suc, ◌+◌, ◌-◌, ◌*◌, ◌^◌, bit_and}
use code_slices.Base.{
  map, Bool, true, false, ◌&&◌, ◌||◌, not, Option, none, some, List, [], ◌∷◌, ◌++◌, drop, ltb, leb,
  if◌then◌else◌, ◌>>=◌, length, codes, get_elem?,
}
use code_slices.Base.Int.{
  ℤ, pos, ◌+ℤ◌, fits_int, fits_nonneg, to_size, short_of, pattern16, pos_part, negsuc, ltb_ℤ,
  to_int, div_int, mod_int,
}

-- UPCASE
unfoldable pub upcase : ℕ → ℕ
upcase c = if leb b'a' c && leb c b'z' then c - 27 else c

-- IS_HEX_CHAR
unfoldable pub is_hex_char : ℕ → Bool
is_hex_char c =
    (leb b'0' c && leb c b'9') || ((leb b'A' c && leb c b'F') || (leb b'a' c && leb c b'f'))

unfoldable pub hex_char_to_dec : ℕ → ℕ
unfolding is_hex_char
hex_char_to_dec hex =
    if not (is_hex_char hex) then 0 else if ltb b'9' hex then hex - b'A' + 10 else hex - b'0'

-- The `while` of bt_char2_to_byte, with the rounds left: `size` is one less.
unfoldable pub byte_loop : List ℕ → ℕ → ℤ → ℕ → Option ℤ
unfolding ◌+ℤ◌ short_of pattern16 hex_char_to_dec upcase
byte_loop c zero ret base = some ret
byte_loop c (suc size) ret base = do
  hex ← get_elem? c size
  product ← fits_nonneg (hex_char_to_dec (upcase hex) * base)
  sum ← fits_int (ret +ℤ pos product)
  next ← fits_nonneg (base * 16)
  byte_loop c size (short_of (pattern16 sum)) next

-- `size` is compared as a `size_t`; a negative one enters no round.
unfoldable pub bt_char2_to_byte : Option (List ℕ) → ℤ → Option ℤ
unfolding byte_loop
bt_char2_to_byte none size = some (pos 0)
bt_char2_to_byte (some c) size =
    if ltb (length c) (to_size size) then some (pos 0) else byte_loop c (pos_part size) (pos 0) 1

-- What main prints with `printf`.
pub data Piece : Type 0 where
  dot newline : Piece
  number : ℤ → Piece

-- `if (i > 0) printf (".")`
abbrev pub separator : ℕ → List Piece
separator i = if ltb 0 i then dot ∷ [] else []

-- `xx += size`, undefined outside the string.
abbrev pub advance : List ℕ → ℤ → Option (List ℕ)
advance xx (pos size) = if leb size (length xx) then some (drop size xx) else none
advance xx (negsuc size) = none

-- The `for` of main from `i` on, with the rounds that are left: what it prints, and `xx` behind it.
unfoldable pub chunk_loop : ℕ → ℕ → List ℕ → ℤ → Option (List Piece × List ℕ)
chunk_loop zero i xx size = some ([], xx)
chunk_loop (suc rounds) i xx size = do
  n ← bt_char2_to_byte (some xx) size
  next ← advance xx size
  (more, last) ← chunk_loop rounds (suc i) next size
  some (separator i ++ number n ∷ more, last)

-- The part behind the loop, for the characters that are left; `i` is the number of chunks.
unfoldable pub remainder : ℕ → List ℕ → ℤ → Option (List Piece)
remainder i xx size =
    if ltb_ℤ (pos 0) size
    then (do n ← bt_char2_to_byte (some xx) size; some (separator i ++ number n ∷ dot ∷ []))
    else some []

-- main with the arguments `size`, as atoi reads it, and `xx`.
unfoldable pub hex_oct : ℤ → List ℕ → Option (List Piece)
hex_oct size xx =
    let len = to_int (length xx) in
    do
      rounds ← div_int len size
      (chunks, last) ← chunk_loop (pos_part rounds) 0 xx size
      left ← mod_int len size
      rest ← remainder (pos_part rounds) last left
      some (chunks ++ (rest ++ newline ∷ []))

-- A line of main, or a part of one: a decoded string, a piece of the chunks, numbers in hexadecimal.
pub data Output : Type 0 where
  decoded : List ℕ → ℤ → Output
  piece : Piece → Output
  colons : ℕ → ℕ → ℕ → Output
  hexadecimal : ℕ → Output

abbrev pub decode_line : List ℕ → ℤ → Option Output
decode_line xx size = do n ← bt_char2_to_byte (some xx) size; some (decoded xx n)

-- `if (argc >= 3)`, with the size as atoi reads it and the string.
abbrev pub chunks_of : Option (ℤ × List ℕ) → Option (List Output)
chunks_of none = some []
chunks_of (some (size, xx)) = do pieces ← hex_oct size xx; some (map piece pieces)

unfoldable pub hex_main : Option (ℤ × List ℕ) → Option (List Output)
hex_main args = do
  first ← decode_line (codes "64") (pos 2)
  second ← decode_line (codes "6F") (pos 2)
  third ← decode_line (codes "1AF") (pos 3)
  chunks ← chunks_of args
  some
      (first ∷ second ∷ third ∷ (chunks ++ colons 11 8 128 ∷ hexadecimal (bit_and 11 (2 ^ 1)) ∷ []))
