-- ===== src/FlexArray.antt =====
-- c/flexible-string-array.c: a struct with its bytes behind it in the same block. `none` stands for
-- what C leaves undefined, a call that returns NULL gives `some none`.
pub mod Message
mod Tests
use code_slices.Base.{
  ℕ, zero, suc, ◌+◌, ◌-◌, ◌%◌, ◌^◌, ◌≡◌, Bool, true, false, Option, none, some, List, [], ◌∷◌, ◌++◌,
  ltb, leb, if◌then◌else◌, ◌>>=◌, length, take, drop, zeros, c_text, codes,
}
use code_slices.Base.Int.{ℤ, pos, ltb_ℤ, to_int, to_size}

abbrev pub max_data_len : ℕ
max_data_len = 256

-- `size` is the field `length`; `bytes` holds those of the block behind it.
pub record Helloworld : Type 0 where
  pub size : ℤ
  pub bytes : List ℕ

-- What the code relies on of malloc: a new block has as many bytes as were asked for. They are not
-- initialised.
abbrev pub Allocates : (ℕ → Option (List ℕ)) → Type 0
Allocates malloc = (n : ℕ) (block : List ℕ) → malloc n ≡ some block → length block ≡ n

-- Writing `bytes` at the front of a block, and reading the first `n` bytes of one.
abbrev pub write_front : (bytes block : List ℕ) → Option (List ℕ)
write_front bytes block =
    if leb (length bytes) (length block) then some (bytes ++ drop (length bytes) block) else none

abbrev pub read_front : ℕ → List ℕ → Option (List ℕ)
read_front n block = if leb n (length block) then some (take n block) else none

-- memset and memcpy of helloworld_new. The field takes the first 4 bytes of the block; sizeof counts
-- no others, and its sum with `n` is taken modulo 2 ^ 64.
unfoldable pub filled : (bytes : List ℕ) (n : ℕ) (block : List ℕ) → Option (Option Helloworld)
filled bytes n block = if ltb (length block) 4 then none else (do
  cleared ← write_front (zeros n) (drop 4 block)
  source ← read_front n bytes
  filled_in ← write_front source cleared
  some (some (record { size = to_int n; bytes = filled_in })))

-- What helloworld_new does with the result of malloc.
abbrev pub make : List ℕ → ℕ → Option (List ℕ) → Option (Option Helloworld)
make bytes n none = some none
make bytes n (some block) = filled bytes n block

unfoldable pub helloworld_new :
    (malloc : ℕ → Option (List ℕ)) (bytes : Option (List ℕ)) (n : ℕ) → Option (Option Helloworld)
helloworld_new malloc none n = some none
helloworld_new malloc (some bytes) n = make bytes n (malloc ((4 + n) % 2 ^ 64))

-- `p->length > MAX_DATA_LEN ? MAX_DATA_LEN : p->length`
abbrev pub copied : ℤ → ℤ
copied size = if ltb_ℤ (pos max_data_len) size then pos max_data_len else size

-- The string that LOGD is given; there is none for NULL. `buff` has `max_data_len + 1` bytes, and
-- memcpy takes a negative length as a `size_t`.
unfoldable pub helloworld_dump : Option Helloworld → Option (Option (List ℕ))
helloworld_dump none = some none
helloworld_dump (some p) =
    let len = to_size (copied p.size) in
    if ltb max_data_len len
    then none
    else (do buff ← read_front len p.bytes; text ← c_text (buff ++ 0 ∷ []); some (some text))

-- The number of blocks that are allocated, once `p` is freed.
unfoldable pub helloworld_free : Option Helloworld → ℕ → Option ℕ
helloworld_free none blocks = some blocks
helloworld_free (some p) zero = none
helloworld_free (some p) (suc blocks) = some blocks

-- The number of blocks behind helloworld_new.
abbrev pub allocated : Option Helloworld → ℕ → ℕ
allocated none blocks = blocks
allocated (some p) blocks = suc blocks

-- main on a text with its 0: what is logged, and the blocks that are left.
unfoldable pub hello_main :
    (malloc : ℕ → Option (List ℕ)) (text : List ℕ) (blocks : ℕ) → Option (Option (List ℕ) × ℕ)
hello_main malloc text blocks = do
  p ← helloworld_new malloc (some (text ++ 0 ∷ [])) (length (text ++ 0 ∷ []))
  logged ← helloworld_dump p
  left ← helloworld_free p (allocated p blocks)
  some (logged, left)
