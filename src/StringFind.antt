-- ===== src/StringFind.antt =====
-- c/string-find.c: length, comparison and search of C strings. A pointer is the bytes from it to the
-- end of its buffer, the terminating 0 included; `none` is a read past that end, an overflow of an
-- `int`, or exhausted fuel.
pub mod Text
pub mod Verdict
pub mod Find
pub mod Empty
mod Tests
use code_slices.Base.{
  ℕ, zero, suc, ◌+◌, ◌%◌, ◌^◌, Bool, true, false, ◌&&◌, not, Option, none, some, List, [], ◌∷◌,
  ◌++◌, codes, ltb, leb, ◌==◌, if◌then◌else◌, ◌>>=◌, get_elem?,
}
use code_slices.Base.Int.{
  ℤ, pos, negsuc, ◌+ℤ◌, ◌-ℤ◌, ltb_ℤ, eqb_ℤ, fits_int, fits_nonneg, to_size, to_int,
}

-- The `while` of string_len.
unfoldable pub len_loop : List ℕ → ℕ → Option ℕ
len_loop [] len = none
len_loop (c ∷ str) len =
    if c == 0 then some len else (do next ← fits_nonneg (len + 1); len_loop str next)

-- A null pointer has length 0.
unfoldable pub string_len : Option (List ℕ) → Option ℕ
unfolding len_loop
string_len none = some 0
string_len (some str) = len_loop str 0

-- What string_compare returns after its loop, with `*str1` and `n` there.
abbrev pub verdict : ℕ → ℤ → ℤ
verdict c n = if eqb_ℤ n (pos 0) then (if c == 0 then pos 0 else pos 1) else negsuc 0

-- The `while` of string_compare and what follows it.
unfoldable pub compare_loop : List ℕ → List ℕ → ℤ → Option ℤ
unfolding ◌-ℤ◌
compare_loop [] str2 n = none
compare_loop (c ∷ str1) [] n = if c == 0 then some (verdict c n) else none
compare_loop (c ∷ str1) (d ∷ str2) n =
    let rest = compare_loop str1 str2 (n -ℤ pos 1) in
    if not (c == 0) && (not (d == 0) && (ltb_ℤ (pos 0) n && c == d))
    then rest
    else some (verdict c n)

unfoldable pub string_compare : Option (List ℕ) → Option (List ℕ) → ℕ → Option ℤ
unfolding compare_loop
string_compare none str2 len = some (negsuc 0)
string_compare (some str1) none len = some (negsuc 0)
string_compare (some str1) (some str2) len = compare_loop str1 str2 (to_int len)

-- `cmp_func`
abbrev pub Comparison : Type 0
Comparison = Option (List ℕ) → Option (List ℕ) → ℕ → Option ℤ

-- TEST_CMP: the two results, and whether PASS is printed. The `int` of string_len becomes a `size_t`.
unfoldable pub test_cmp :
    Comparison → Comparison → Option (List ℕ) → Option (List ℕ) → Option (ℤ × ℤ × Bool)
test_cmp c1 c2 str1 str2 = do
  len ← string_len str2
  ret1 ← c1 str1 str2 len
  ret2 ← c2 str1 str2 len
  some (ret1, ret2, eqb_ℤ ret1 ret2)

-- `*(str + i)`
abbrev pub read : List ℕ → ℤ → Option ℕ
read str (pos i) = get_elem? str i
read str (negsuc i) = none

-- `at` is the parameter `pos`, a `size_t`.
unfoldable pub string_find_recurse : ℕ → List ℕ → List ℕ → ℕ → ℤ → ℤ → ℤ → Option ℤ
unfolding ◌-ℤ◌ ◌+ℤ◌
string_find_recurse zero str dst at str_len dst_len target_len = none
string_find_recurse (suc fuel) str dst at str_len dst_len target_len = do
  offset ← fits_int (dst_len -ℤ target_len)
  c ← read str (pos at +ℤ offset)
  d ← read dst offset
  if c == d
      then (if eqb_ℤ target_len (pos 1) then some (to_int at) else (do
        shorter ← fits_int (target_len -ℤ pos 1)
        string_find_recurse fuel str dst at str_len dst_len shorter))
      else (do
        space ← fits_int (str_len -ℤ target_len)
        let rest = string_find_recurse fuel str dst ((at + 1) % 2 ^ 64) str_len dst_len dst_len
        if leb (to_size space) at then some (negsuc 0) else rest)

-- The lengths are kept as `size_t` and become `int` arguments. A null pointer of length 0 is
-- dereferenced by string_find_recurse.
unfoldable pub string_find : ℕ → Option (List ℕ) → Option (List ℕ) → Option ℤ
unfolding string_len
string_find fuel str dst = do
  slen ← string_len str
  dlen ← string_len dst
  if ltb slen dlen then some (negsuc 0) else (do
    s ← str
    d ← dst
    string_find_recurse fuel s d 0 (to_int slen) (to_int dlen) (to_int dlen))

-- What main prints of its searches for the strings of `dsts`, and of its comparisons of str1 with the
-- strings of `strs`.
unfoldable pub find_all : ℕ → List ℕ → List (List ℕ) → Option (List ℤ)
find_all fuel str [] = some []
find_all fuel str (dst ∷ dsts) = do
  found ← string_find fuel (some str) (some dst)
  more ← find_all fuel str dsts
  some (found ∷ more)

unfoldable pub test_all : Comparison → List ℕ → List (List ℕ) → Option (List (ℤ × ℤ × Bool))
test_all strncmp str1 [] = some []
test_all strncmp str1 (str2 ∷ strs) = do
  line ← test_cmp strncmp string_compare (some str1) (some str2)
  lines ← test_all strncmp str1 strs
  some (line ∷ lines)

-- A text as a C string: its bytes and the terminating 0.
abbrev pub c_str : List ℕ → List ℕ
c_str s = s ++ 0 ∷ []

unfoldable pub find_main : ℕ → (strncmp : Comparison) → Option (List ℤ × List (ℤ × ℤ × Bool))
find_main fuel strncmp =
    let str = c_str (codes "abcdefghigjlkmn") in
    do
      found ← find_all fuel str (
          str
          ∷ c_str (codes "abc")
          ∷ c_str (codes "def")
          ∷ c_str (codes "lkmn")
          ∷ c_str (codes "bcdefghigjlkmn")
          ∷ c_str (codes "lkmnxx")
          ∷ c_str (codes "lkxx")
          ∷ c_str (codes "xlkm")
          ∷ c_str (codes "abcdefghigjlkmnopq")
          ∷ [])
      empty ← test_all strncmp (c_str []) (c_str [] ∷ [])
      compared ← test_all strncmp (c_str (codes "abcdef")) (
          c_str (codes "abcdef")
          ∷ c_str (codes "abc")
          ∷ c_str (codes "def")
          ∷ c_str (codes "abcdefghijk")
          ∷ [])
      some (found, empty ++ compared)
