-- ===== src/RotateString/Tests.antt =====
-- The calls of main of c/online-test/rotate-string.cpp, and the theorem at an input.
use code_slices.Base.{◌%◌, ◌≡◌, refl, none, some, [], ◌∷◌, ◌++◌, arith, codes, length, take, drop}
use code_slices.RotateString.{rotate, rotate_main}
use code_slices.RotateString.Rotated.{rotate-rotated}

rotate-rotated_example :
    rotate (codes "abcdefg") 13
    ≡ some (
        drop (13 % length (codes "abcdefg")) (codes "abcdefg")
        ++ take (13 % length (codes "abcdefg")) (codes "abcdefg"))
rotate-rotated_example = rotate-rotated (codes "abcdefg") 13 (omega arith) (omega arith)

main_prints :
    rotate_main
    ≡ some (
        codes "defgabc"
        ∷ codes "gabcdef"
        ∷ codes "fgabcde"
        ∷ codes "abcdefg"
        ∷ codes "defgabc"
        ∷ [])
unfolding rotate_main rotate
main_prints = refl

-- The length of an empty string is divided by.
empty : rotate [] 1 ≡ none
unfolding rotate
empty = refl
