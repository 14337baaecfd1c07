-- ===== src/RotateString/Rotated.antt =====
-- What rotate of c/online-test/rotate-string.cpp computes.
use mathlib.Core.List.{append_assoc, append-nil}
use native.Mathlib.Nat.{mod-lt, mod_self, mod-eq_of_lt}
use code_slices.Base.{
  take-drop, take_all, drop_all, dec_lt, ℕ, zero, suc, ◌+◌, ◌-◌, ◌%◌, ◌^◌, ◌≤◌, ◌<◌, ◌≡◌, ◌∙◌, sym,
  ap, refl, some, List, [], ◌∷◌, ◌++◌, arith, length, take, drop, length-append, length-take,
  le→ltb, lt→ltb,
}
use code_slices.RotateString.{char_at, set_char, shift_loop, rotate_loop, rest_of, rotate}

char_at-cons : (x : ℕ) (s : List ℕ) (r : ℕ) → char_at (x ∷ s) (suc r) ≡ char_at s r
char_at-cons x s r = ground arith

-- Reading and writing behind `pre`.
char_at-append : (pre s : List ℕ) (r : ℕ) → char_at (pre ++ s) (length pre + r) ≡ char_at s r
char_at-append [] s r = ap (char_at s) (omega arith)
char_at-append (x ∷ pre) s r =
    ap (char_at (x ∷ (pre ++ s))) (omega arith)
    ∙ char_at-cons x (pre ++ s) (length pre + r)
    ∙ char_at-append pre s r

set_char-append :
    (pre : List ℕ) (x c : ℕ) (s : List ℕ)
    → set_char (pre ++ x ∷ s) (length pre) c ≡ some (pre ++ c ∷ s)
unfolding set_char
set_char-append [] x c s = refl
set_char-append (y ∷ pre) x c s = rw (set_char-append pre x c s) refl

next_char : (x y : ℕ) (s : List ℕ) → char_at (x ∷ y ∷ s) 1 ≡ some y
next_char x y s = ground arith

-- The inner loop moves what stands behind `x` to the front by one, and the 0 with it.
shift_loop-append :
    (x : ℕ) (pre s : List ℕ)
    → shift_loop (suc (length s)) (length pre) (pre ++ x ∷ s) ≡ some (pre ++ (s ++ 0 ∷ []))
unfolding shift_loop
shift_loop-append x pre [] = rw (char_at-append pre (x ∷ []) 1, set_char-append pre x 0 []) refl
shift_loop-append x pre (y ∷ s) =
    let further : length pre + 1 ≡ length (pre ++ y ∷ []) =
      omega (arith, length-append pre (y ∷ [])) in
    rw (char_at-append pre (x ∷ y ∷ s) 1, next_char x y s, set_char-append pre x y (y ∷ s))
      (ap (λ r. shift_loop (suc (length s)) r (pre ++ y ∷ y ∷ s)) further
        ∙ ap (shift_loop (suc (length s)) (length (pre ++ y ∷ [])))
            (sym (append_assoc pre (y ∷ []) (y ∷ s)))
        ∙ shift_loop-append y (pre ++ y ∷ []) s
        ∙ ap some (append_assoc pre (y ∷ []) (s ++ 0 ∷ [])))

-- A round puts the first character behind the others.
rotate_round :
    (l rounds x : ℕ) (s : List ℕ)
    → l ≡ suc (length s)
    → rotate_loop l (suc rounds) (x ∷ s) ≡ rotate_loop l rounds (s ++ x ∷ [])
unfolding rotate_loop
rotate_round l rounds x s e =
    let first : char_at (x ∷ s) 0 ≡ some x = ground arith in
    let last : l - 1 ≡ length s = omega arith in
    rw
      (
        first,
        ap (λ k. shift_loop k 0 (x ∷ s)) e ∙ shift_loop-append x [] s,
        last,
        set_char-append s 0 x [],
      )
      refl

rotate_loop-append :
    (l : ℕ) (xs ys : List ℕ)
    → l ≡ length (xs ++ ys)
    → rotate_loop l (length xs) (xs ++ ys) ≡ some (ys ++ xs)
unfolding rotate_loop
rotate_loop-append l [] ys e = ap some (sym (append-nil ys))
rotate_loop-append l (x ∷ xs) ys e =
    let same : l ≡ length (xs ++ (ys ++ x ∷ [])) =
      omega
        (arith, length-append xs ys, length-append xs (ys ++ x ∷ []), length-append ys (x ∷ [])) in
    rotate_round l (length xs) x (xs ++ ys) e
    ∙ ap (rotate_loop l (length xs)) (append_assoc xs ys (x ∷ []))
    ∙ rotate_loop-append l xs (ys ++ x ∷ []) same
    ∙ ap some (append_assoc ys (x ∷ []) xs)

-- At most as many rounds as there are characters.
rotate_loop-drop :
    (s : List ℕ) (n : ℕ) → n ≤ length s → rotate_loop (length s) n s ≡ some (drop n s ++ take n s)
rotate_loop-drop s n h =
    let size : n ≡ length (take n s) = omega (arith, length-take n s) in
    ap (λ k. rotate_loop (length s) k s) size
    ∙ ap (rotate_loop (length s) (length (take n s))) (sym (take-drop n s))
    ∙ rotate_loop-append (length s) (take n s) (drop n s) (ap length (sym (take-drop n s)))

rest_of-some : (n l : ℕ) → 0 < l → rest_of n l ≡ some (n % l)
rest_of-some n (suc l) some_l = refl
rest_of-some n zero some_l = elim some_l [ ]

-- As many rounds as there are characters change nothing.
full_turn : (s : List ℕ) → drop (length s) s ++ take (length s) s ≡ drop 0 s ++ take 0 s
full_turn s =
    rw (drop_all (length s) s (omega arith), take_all (length s) s (omega arith))
      (sym (append-nil s))

-- For every string that is not empty, of less than 2 ^ 32 characters, and every `n`, rotate stays
-- inside the string and its 0, and returns the string rotated by `n` modulo its length: the
-- characters from there on, then those in front.
pub rotate-rotated :
    (s : List ℕ) (n : ℕ)
    → 0 < length s
    → length s < 2 ^ 32
    → rotate s n ≡ some (drop (n % length s) s ++ take (n % length s) s)
unfolding rotate
rotate-rotated s n filled small =
    let l : length s % 2 ^ 32 ≡ length s = omega arith in
    elim (dec_lt (length s) n) [
      | yes more ↦
          let below : n % length s < length s = mod-lt n filled in
          rw (l, lt→ltb _ _ more, rest_of-some n (length s) filled)
            (rotate_loop-drop s (n % length s) (omega arith))
      | no few ↦
          rw (l, le→ltb (length s) n (omega arith))
            (rotate_loop-drop s n (omega arith)
              ∙ ap some (elim (dec_lt n (length s)) [
                | yes less ↦ ap (λ k. drop k s ++ take k s) (sym (mod-eq_of_lt less))
                | no full ↦
                    let whole : n ≡ length s = omega arith in
                    rw whole
                      (full_turn s ∙ ap (λ k. drop k s ++ take k s) (sym (mod_self (length s))))
              ]))
    ]
