-- ===== src/StringFind/Tests.antt =====
-- The searches and comparisons that main of c/string-find.c tries, and the theorems at an input.
use code_slices.Base.{
  ℕ, zero, suc, ◌≡◌, refl, true, false, none, some, List, [], ◌∷◌, arith, codes, if◌then◌else◌,
  ◌==◌, ltb,
}
use code_slices.Base.Int.{ℤ, pos, negsuc}
use code_slices.StringFind.{
  c_str, find_main, find_all, test_all, string_find, string_find_recurse, string_compare, test_cmp,
  Comparison,
}
use code_slices.StringFind.Verdict.{order, Signed, IsStrncmp, Verdict}
use code_slices.StringFind.Text.{IsText}
use code_slices.StringFind.Find.{FirstAt, string_find-FirstAt}

abbrev alphabet : List ℕ
alphabet = codes "abcdefghigjlkmn"

found_middle : string_find 400 (some (c_str alphabet)) (some (c_str (codes "def"))) ≡ some (pos 3)
unfolding string_find string_find_recurse
found_middle = refl

found_end : string_find 400 (some (c_str alphabet)) (some (c_str (codes "lkmn"))) ≡ some (pos 11)
unfolding string_find string_find_recurse
found_end = refl

tail_mismatch :
    string_find 400 (some (c_str alphabet)) (some (c_str (codes "lkmnxx"))) ≡ some (negsuc 0)
unfolding string_find string_find_recurse
tail_mismatch = refl

compare_longer :
    string_compare (some (c_str (codes "abcdef"))) (some (c_str (codes "abc"))) 3 ≡ some (pos 1)
unfolding string_compare
compare_longer = refl

string_find-FirstAt_example :
    (r : ℤ) × (string_find 400 (some (c_str alphabet)) (some (c_str (codes "def"))) ≡ some r)
    × FirstAt alphabet (codes "def") r
string_find-FirstAt_example =
    string_find-FirstAt 400 alphabet (codes "def") (omega arith) (omega arith) (omega arith)
      (omega arith) (omega arith) (omega arith)

-- A strncmp over the bytes of the buffers.
reference_loop : ℕ → List ℕ → List ℕ → ℤ
reference_loop zero s t = pos 0
reference_loop (suc n) [] t = pos 0
reference_loop (suc n) (c ∷ s) [] = pos 1
reference_loop (suc n) (c ∷ s) (d ∷ t) =
    if c == d
    then (if c == 0 then pos 0 else reference_loop n s t)
    else (if ltb c d then negsuc 0 else pos 1)

reference : Comparison
reference none t n = none
reference (some s) none n = none
reference (some s) (some t) n = some (reference_loop n s t)

reference_loop-Signed :
    (n : ℕ) (s t : List ℕ)
    → IsText s
    → IsText t
    → Signed (order n s t) (reference_loop n (c_str s) (c_str t))
unfolding reference_loop order
reference_loop-Signed zero s t ts us = refl
reference_loop-Signed (suc n) [] [] ts us = refl
reference_loop-Signed (suc n) [] (d ∷ t) ts us = ground arith
reference_loop-Signed (suc n) (c ∷ s) [] ts us = ground arith
reference_loop-Signed (suc n) (c ∷ s) (d ∷ t) ts us =
    ground (arith, reference_loop-Signed n s t ts.1 us.1)

abbrev reference-IsStrncmp : IsStrncmp reference
unfolding reference
reference-IsStrncmp = record {
  by_sign = λ s t n ts us.
      (reference_loop n (c_str s) (c_str t), refl, reference_loop-Signed n s t ts us);
}

-- What main prints: five strings are found, four are not; the third comparison fails.
main_prints :
    find_main 400 reference
    ≡ some (
      pos 0 ∷ pos 0 ∷ pos 3 ∷ pos 11 ∷ pos 1 ∷ negsuc 0 ∷ negsuc 0 ∷ negsuc 0 ∷ negsuc 0 ∷ [],
      (pos 0, pos 0, true)
          ∷ (pos 0, pos 0, true)
          ∷ (pos 0, pos 1, false)
          ∷ (negsuc 0, negsuc 0, true)
          ∷ (negsuc 0, negsuc 0, true)
          ∷ [],
    )
unfolding find_main find_all test_all test_cmp string_find string_find_recurse string_compare
    reference reference_loop
main_prints = refl
