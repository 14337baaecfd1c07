-- ===== src/StringFind/Text.antt =====
-- Texts as C strings: their bytes, none of them 0, and the 0 behind them; string_len of them.
use code_slices.Base.{
  ℕ, zero, suc, ◌+◌, ◌≤◌, ◌<◌, ◌≡◌, ◌≢◌, refl, ◌∙◌, ap, false, none, some, List, [], ◌∷◌, arith,
  ◌==◌, length, get_elem?,
}
pub use code_slices.Base.{IsText}
use code_slices.Base.Int.{int_max, fits_nonneg-some}
use code_slices.StringFind.{c_str, len_loop, string_len}

len_loop-c_str :
    (s : List ℕ) (n : ℕ)
    → IsText s
    → n + length s ≤ int_max
    → len_loop (c_str s) n ≡ some (n + length s)
unfolding len_loop
len_loop-c_str [] n text fits = ap some (omega arith)
len_loop-c_str (c ∷ s) n text fits =
    let more : (c == 0) ≡ false = ground (arith, text.0) in
    rw (more, fits_nonneg-some (n + 1) (omega arith))
      (len_loop-c_str s (n + 1) text.1 (omega arith) ∙ ap some (omega arith))

-- string_len counts the bytes in front of the terminating 0.
pub string_len-length :
    (s : List ℕ) → IsText s → length s ≤ int_max → string_len (some (c_str s)) ≡ some (length s)
unfolding string_len
string_len-length s text fits = len_loop-c_str s 0 text (omega arith) ∙ ap some (omega arith)

pub get_elem?-inside : (s : List ℕ) (i : ℕ) → i < length s → get_elem? (c_str s) i ≡ get_elem? s i
get_elem?-inside [] i lt = elim lt [ ]
get_elem?-inside (c ∷ s) zero lt = refl
get_elem?-inside (c ∷ s) (suc i) lt = get_elem?-inside s i (omega arith)

pub get_elem?-end : (s : List ℕ) (i : ℕ) → i ≡ length s → get_elem? (c_str s) i ≡ some 0
get_elem?-end [] zero e = refl
get_elem?-end [] (suc i) e = absurd (omega arith)
get_elem?-end (c ∷ s) zero e = absurd (omega arith)
get_elem?-end (c ∷ s) (suc i) e = get_elem?-end s i (omega arith)

pub get_elem?-past : (s : List ℕ) (i : ℕ) → length s < i → get_elem? (c_str s) i ≡ none
get_elem?-past s zero lt = elim lt [ ]
get_elem?-past [] (suc i) lt = refl
get_elem?-past (c ∷ s) (suc i) lt = get_elem?-past s i (omega arith)

pub lt_of_some : {c : ℕ} (s : List ℕ) (i : ℕ) → get_elem? s i ≡ some c → i < length s
lt_of_some [] i e = absurd (cc)
lt_of_some (d ∷ s) zero e = omega arith
lt_of_some (d ∷ s) (suc i) e = omega (arith, lt_of_some s i e)

pub none_of_le : (s : List ℕ) (i : ℕ) → length s ≤ i → get_elem? s i ≡ none
none_of_le [] i le = refl
none_of_le (d ∷ s) zero le = absurd (omega arith)
none_of_le (d ∷ s) (suc i) le = none_of_le s i (omega arith)

-- A byte of a text is not 0.
pub IsText-nonzero : {c : ℕ} (s : List ℕ) (i : ℕ) → IsText s → get_elem? s i ≡ some c → c ≢ 0
IsText-nonzero [] i text e = absurd (cc)
IsText-nonzero (d ∷ s) zero text e = ground (arith, text.0)
IsText-nonzero (d ∷ s) (suc i) text e = IsText-nonzero s i text.1 e
