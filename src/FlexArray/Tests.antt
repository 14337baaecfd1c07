-- ===== src/FlexArray/Tests.antt =====
-- main of c/flexible-string-array.c, and the theorems at an input.
use code_slices.Base.{ℕ, ◌≡◌, refl, none, some, Option, List, codes, length, zeros}
use code_slices.FlexArray.{hello_main, helloworld_new, helloworld_dump, helloworld_free}

-- Memory without end, and none.
abbrev zeroed : ℕ → Option (List ℕ)
zeroed n = some (zeros n)

abbrev size_of : Option (List ℕ) → ℕ
size_of none = 0
size_of (some block) = length block

abbrev text : List ℕ
text = codes "Hello World!"

no_memory : hello_main (λ n. none) text 0 ≡ some (none, 0)
unfolding hello_main helloworld_new helloworld_dump helloworld_free
no_memory = refl
