-- ===== src/Uevent/Fields.antt =====
-- What dump_event of tools/uevent-view/main.c makes of a kernel message: `action@path`, then the
-- fields `KEY=value`, each with a 0 behind it.
use code_slices.Base.{ℕ, ◌≡◌, Bool, true, false, ◌||◌, List, [], ◌∷◌, ◌++◌, ◌==◌}
use code_slices.Uevent.{is_capital, is_mark, is_plain}

pub record Field : Type 0 where
  pub key : List ℕ
  pub value : List ℕ

-- A key is of capitals and underscores, a capital first.
abbrev pub IsKeyRest : List ℕ → Type 0
IsKeyRest [] = Unit {0}
IsKeyRest (c ∷ cs) = ((is_capital c || c == b'_') ≡ true) × IsKeyRest cs

abbrev pub IsKey : List ℕ → Type 0
IsKey [] = ⊥
IsKey (c ∷ cs) = (is_capital c ≡ true) × IsKeyRest cs

-- A value has no capital, `=` or `@`.
abbrev pub IsLow : List ℕ → Type 0
IsLow [] = Unit {0}
IsLow (c ∷ cs) = (is_capital c ≡ false) × (is_mark c ≡ false) × IsLow cs

abbrev pub any_plain : List ℕ → Bool
any_plain [] = false
any_plain (c ∷ cs) = is_plain c || any_plain cs

-- It has a lower-case letter or a digit.
abbrev pub IsValue : List ℕ → Type 0
IsValue v = IsLow v × (any_plain v ≡ true)

abbrev pub AreFields : List Field → Type 0
AreFields [] = Unit {0}
AreFields (f ∷ fs) = IsKey f.key × IsValue f.value × AreFields fs

-- The fields as the kernel sends them, and as the README shows them.
abbrev pub wire : List Field → List ℕ
wire [] = []
wire (f ∷ fs) = f.key ++ (b'=' ∷ (f.value ++ 0 ∷ wire fs))

abbrev pub shown : List Field → List ℕ
shown [] = []
shown (f ∷ fs) = 10 ∷ b' ' ∷ b' ' ∷ (f.key ++ (b' ' ∷ b'=' ∷ b' ' ∷ (f.value ++ 0 ∷ shown fs)))

abbrev pub message : List ℕ → List ℕ → List Field → List ℕ
message action path fs = action ++ (b'@' ∷ (path ++ 0 ∷ wire fs))
