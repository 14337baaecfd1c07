-- ===== src/FlexArray/Message.antt =====
-- What helloworld_dump of c/flexible-string-array.c logs of a struct that helloworld_new has made.
use code_slices.Base.{ℕ, Option, none, some, List, take}
use code_slices.FlexArray.{max_data_len}

-- What is logged, by what malloc gives.
abbrev pub logged : Option (List ℕ) → List ℕ → Option (List ℕ)
logged none text = none
logged (some block) text = some (take max_data_len text)
