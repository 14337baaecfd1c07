-- ===== src/Uevent/Dump.antt =====
-- dump_event of tools/uevent-view/main.c: what its loop writes for a piece of a message, and that it
-- only inserts.
use code_slices.Base.{
  ℕ, ◌≡◌, refl, sym, ◌∙◌, ap, Bool, true, false, some, List, [], ◌∷◌, ◌++◌, length, Bool-cases, inl,
  inr,
}
use mathlib.Core.List.{append_assoc}
use code_slices.Base.Int.{pos}
use code_slices.Uevent.{written, next_cap, is_capital, is_mark, dump_loop, dump_event}

-- What the loop writes for all of `xs`, and its `cap` behind it.
unfoldable pub render : List ℕ → Bool → List ℕ
render [] cap = []
render (c ∷ xs) cap = written c cap ++ render xs (next_cap c cap)

unfoldable pub cap_after : List ℕ → Bool → Bool
cap_after [] cap = cap
cap_after (c ∷ xs) cap = cap_after xs (next_cap c cap)

pub render-append :
    (xs ys : List ℕ) (cap : Bool)
    → render (xs ++ ys) cap ≡ render xs cap ++ render ys (cap_after xs cap)
unfolding render cap_after
render-append [] ys cap = refl
render-append (c ∷ xs) ys cap =
    ap (λ t. written c cap ++ t) (render-append xs ys (next_cap c cap))
    ∙ sym (append_assoc (written c cap) (render xs (next_cap c cap)) _)

pub cap_after-append :
    (xs ys : List ℕ) (cap : Bool) → cap_after (xs ++ ys) cap ≡ cap_after ys (cap_after xs cap)
unfolding cap_after
cap_after-append [] ys cap = refl
cap_after-append (c ∷ xs) ys cap = cap_after-append xs ys (next_cap c cap)

dump_loop-render :
    (xs behind : List ℕ) (cap : Bool)
    → dump_loop (xs ++ behind) (length xs) cap ≡ some (render xs cap)
unfolding dump_loop render
dump_loop-render [] behind cap = refl
dump_loop-render (c ∷ xs) behind cap = rw (dump_loop-render xs behind (next_cap c cap))

pub dump_event-render :
    (xs behind : List ℕ)
    → dump_event (xs ++ behind) (pos (length xs)) true ≡ some (render xs false ++ 10 ∷ 10 ∷ [])
unfolding dump_event
dump_event-render xs behind = rw (dump_loop-render xs behind false)

-- The second text is the first with blanks and line breaks inserted.
pub data Inserted : List ℕ → List ℕ → Type 0 where
  done : Inserted [] []
  kept : {xs ys : List ℕ} (c : ℕ) → Inserted xs ys → Inserted (c ∷ xs) (c ∷ ys)
  blank : {xs ys : List ℕ} → Inserted xs ys → Inserted xs (b' ' ∷ ys)
  line : {xs ys : List ℕ} → Inserted xs ys → Inserted xs (10 ∷ ys)

written-Inserted :
    (c : ℕ) (cap : Bool) (xs ys : List ℕ) → Inserted xs ys → Inserted (c ∷ xs) (written c cap ++ ys)
written-Inserted c cap xs ys i = elim (Bool-cases (is_capital c)) [
  | inl capital ↦ rw capital (elim (Bool-cases cap) [
    | inl more ↦ rw more (kept c i)
    | inr first ↦ rw first (line (blank (blank (kept c i))))
  ])
  | inr small ↦ rw small (elim (Bool-cases (is_mark c)) [
    | inl mark ↦ rw mark (blank (kept c (blank i)))
    | inr other ↦ rw other (kept c i)
  ])
]

render-Inserted : (xs : List ℕ) (cap : Bool) → Inserted xs (render xs cap ++ 10 ∷ 10 ∷ [])
unfolding render
render-Inserted [] cap = line (line done)
render-Inserted (c ∷ xs) cap =
    rw (append_assoc (written c cap) (render xs (next_cap c cap)) (10 ∷ 10 ∷ []))
      (written-Inserted c cap xs _ (render-Inserted xs (next_cap c cap)))

-- Of a buffer that holds `len` bytes or more, dump_event writes the first `len`, all of them and in
-- order, and inserts nothing but blanks and line breaks.
pub dump_event-Inserted :
    (xs behind : List ℕ)
    → (out : List ℕ) × (dump_event (xs ++ behind) (pos (length xs)) true ≡ some out)
      × Inserted xs out
dump_event-Inserted xs behind = (_, dump_event-render xs behind, render-Inserted xs false)
