-- ===== src/HexDec/Tests.antt =====
-- The decoding of c/hex-dec.c at the texts that its main tries, and the theorems at an input.
use code_slices.Base.{[], ◌∷◌, none, some, ◌+◌, ◌-◌, ◌≡◌, ◌≢◌, refl, arith, codes}
use code_slices.Base.Int.{pos, negsuc, div_int, mod_int, short_of}
use code_slices.HexDec.{
  decoded, piece, colons, hexadecimal, hex_main, dot, newline, number, chunk_loop, remainder,
  hex_oct, upcase, hex_char_to_dec, bt_char2_to_byte,
}
use code_slices.HexDec.Decode.{
  print_hex, bt_char2_to_byte-print_hex, bt_char2_to_byte-overflow, lower_case_wrong,
}

too_short : bt_char2_to_byte (some (codes "1")) (pos 2) ≡ some (pos 0)
unfolding bt_char2_to_byte
too_short = refl

bt_char2_to_byte-print_hex_example :
    bt_char2_to_byte (some (print_hex 3 0x1AF (codes "64"))) (pos 3) ≡ some (short_of 0x1AF)
bt_char2_to_byte-print_hex_example =
    bt_char2_to_byte-print_hex 3 0x1AF (codes "64") (omega arith) (omega arith)

bt_char2_to_byte-overflow_example : bt_char2_to_byte (some (codes "00000001")) (pos 8) ≡ none
bt_char2_to_byte-overflow_example =
    bt_char2_to_byte-overflow (codes "00000001") 8 (omega arith) (omega arith) (omega arith)

lower_case_d : hex_char_to_dec (upcase (b'a' + 13 - 10)) ≢ 13
lower_case_d = lower_case_wrong 13 (omega arith) (omega arith)

odd_length :
    hex_oct (pos 2) (codes "6F1AC")
    ≡ some (number (pos 111) ∷ dot ∷ number (pos 26) ∷ dot ∷ number (pos 12) ∷ dot ∷ newline ∷ [])
unfolding hex_oct chunk_loop remainder div_int mod_int bt_char2_to_byte
odd_length = refl

-- `len / size` for a size of 0.
zero_size : hex_oct (pos 0) (codes "6F") ≡ none
unfolding hex_oct div_int
zero_size = refl

-- A negative size has no chunks; the characters are read as one.
negative_size : hex_oct (negsuc 2) (codes "6F") ≡ some (number (pos 111) ∷ dot ∷ newline ∷ [])
unfolding hex_oct chunk_loop remainder div_int mod_int bt_char2_to_byte
negative_size = refl

-- What main prints with the arguments 2 and 6F.
main_prints :
    hex_main (some (pos 2, codes "6F"))
    ≡ some (
        decoded (codes "64") (pos 100)
        ∷ decoded (codes "6F") (pos 111)
        ∷ decoded (codes "1AF") (pos 431)
        ∷ piece (number (pos 111))
        ∷ piece newline
        ∷ colons 11 8 128
        ∷ hexadecimal 2
        ∷ [])
unfolding hex_main hex_oct chunk_loop remainder div_int mod_int bt_char2_to_byte
main_prints = refl
