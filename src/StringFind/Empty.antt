-- ===== src/StringFind/Empty.antt =====
-- string_find of c/string-find.c for an empty target.
use code_slices.Base.{ℕ, ◌≤◌, List, length}
use code_slices.Base.Int.{int_max}
use code_slices.StringFind.Text.{IsText}

module _ (str : List ℕ) (text : IsText str) (small : length str ≤ int_max) where
  abbrev sl : ℕ
  sl = length str
