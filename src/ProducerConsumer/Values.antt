-- ===== src/ProducerConsumer/Values.antt =====
-- Which values the consumers of c/producer-consumer/main.c take.
use mathlib.Core.List.{Perm, perm_middle, append_assoc, append-nil}
use mathlib.Core.List.Perm
use code_slices.Base.{
  ℕ, zero, suc, ◌+◌, ◌-◌, ◌≤◌, ◌<◌, ◌≡◌, refl, ap, sym, ◌∙◌, Option, none, some, List, [], ◌∷◌,
  ◌++◌, arith, length,
}
use code_slices.ProducerConsumer.{
  buffer_max, Producer, Consumer, Main, System, Produce, Consume, produce, consume, conduct, Step,
  act, spurious, Reach, here, later,
}
use code_slices.ProducerConsumer.Invariant.{Reach-Inv, Counts, consumed}
use code_slices.ProducerConsumer.Return.{values_at_return}
use code_slices.ProducerConsumer.Stack.{
  Use, puts, takes, produced, used_of, used_by, uses, serve, serve_one, buffered, Conduct-same,
  Spurious-same, uses-served, length-contents,
}

-- The values put, and the values taken, the first one first.
abbrev pub put_values : List Use → List ℕ
put_values [] = []
put_values (puts v ∷ us) = v ∷ put_values us
put_values (takes v ∷ us) = put_values us

abbrev pub taken_values : List Use → List ℕ
taken_values [] = []
taken_values (puts v ∷ us) = taken_values us
taken_values (takes v ∷ us) = v ∷ taken_values us

put_values-append : (us vs : List Use) → put_values (us ++ vs) ≡ put_values us ++ put_values vs
put_values-append [] vs = refl
put_values-append (puts v ∷ us) vs = ap (λ l. v ∷ l) (put_values-append us vs)
put_values-append (takes v ∷ us) vs = put_values-append us vs

-- From `k` down to 1.
unfoldable pub countdown : ℕ → List ℕ
countdown zero = []
countdown (suc k) = suc k ∷ countdown k

served_by :
    (o : Option (List ℕ)) (us : List Use) (last : List ℕ)
    → elim o [ none ↦ none | some next ↦ serve us next ] ≡ some last
    → (next : List ℕ) × (o ≡ some next) × (serve us next ≡ some last)
served_by none us last e = absurd (cc)
served_by (some next) us last e = (next, refl, e)

-- The first use, and the rest.
served :
    (u : Use) (us : List Use) (stack last : List ℕ)
    → serve (u ∷ us) stack ≡ some last
    → (next : List ℕ) × (serve_one u stack ≡ some next) × (serve us next ≡ some last)
unfolding serve
served u us stack last e = served_by (serve_one u stack) us last e

put_gives : (v : ℕ) (stack next : List ℕ) → serve_one (puts v) stack ≡ some next → next ≡ v ∷ stack
put_gives v stack next e = ground arith

take_gives :
    (v x : ℕ) (stack next : List ℕ)
    → serve_one (takes v) (x ∷ stack) ≡ some next
    → (x ≡ v) × (next ≡ stack)
take_gives v x stack next e = ground arith

-- A stack loses no value and makes none up.
serve-Perm :
    (us : List Use) (stack last : List ℕ)
    → serve us stack ≡ some last
    → Perm (last ++ taken_values us) (stack ++ put_values us)
unfolding serve
serve-Perm [] stack last e = let same : stack ≡ last = cc in rw same (Perm.refl (last ++ []))
serve-Perm (puts v ∷ us) stack last e =
    let (next, one, more) = served (puts v) us stack last e in
    let all = serve-Perm us next last more in
    Perm.trans (rw (put_gives v stack next one) at all)
      (Perm.symm (perm_middle stack (put_values us)))
serve-Perm (takes v ∷ us) [] last e = absurd (cc)
serve-Perm (takes v ∷ us) (x ∷ stack) last e =
    let (next, one, more) = served (takes v) us (x ∷ stack) last e in
    let (xv, same) = take_gives v x stack next one in
    let all = serve-Perm us next last more in
    Perm.trans (perm_middle last (taken_values us)) (Perm.cons' (sym xv) (rw same at all))

put_next : (m : ℕ) → 0 < m → m ∷ countdown (m - 1) ≡ countdown m
unfolding countdown
put_next zero more = absurd (omega arith)
put_next (suc m) more = let e : suc m - 1 ≡ m = omega arith in rw e refl

module _ {n k : ℕ} (s : System) (counts : Counts n k s) where
  Produce-puts :
      {t : System} (p : Produce n s t)
      → put_values (produced s p) ++ countdown t.nums ≡ countdown s.nums
  Produce-puts (Produce.lock e more free) = refl
  Produce-puts (Produce.finish e spent) = refl
  Produce-puts (Produce.wait e full) = refl
  Produce-puts (Produce.put e space sig) = put_next s.nums (counts.busy e)
  Produce-puts (Produce.unlock e) = refl
  Produce-puts (Produce.relock e free) = refl

  Consume-puts :
      (i : ℕ) {t : System} (c : Consume n i s t)
      → put_values (used_of i s c) ++ countdown t.nums ≡ countdown s.nums
  Consume-puts i (Consume.lock e free) = refl
  Consume-puts i (Consume.leave e over) = refl
  Consume-puts i (Consume.wait e going empty) = refl
  Consume-puts i (Consume.take e going some_there sig) = refl
  Consume-puts i (Consume.unlock e) = refl
  Consume-puts i (Consume.relock e free) = refl
  Consume-puts i (Consume.return e) = refl

  Step-puts :
      {t : System} (st : Step n s t)
      → put_values (used_by s st) ++ countdown t.nums ≡ countdown s.nums
  Step-puts (act (produce p)) = Produce-puts p
  Step-puts (act (consume i lt c)) = Consume-puts i c
  Step-puts (act (conduct c)) = let (_, _, e) = Conduct-same c in ap countdown e
  Step-puts (spurious w) = let (_, _, e) = Spurious-same w in ap countdown e

-- The producer puts the values from DATA_NUMS downwards.
puts-countdown :
    {n k : ℕ} {s : System} (reach : Reach n k s)
    → put_values (uses reach) ++ countdown s.nums ≡ countdown k
unfolding uses
puts-countdown here = refl
puts-countdown (later {s} {t} reach step) =
    ap (λ l. l ++ countdown t.nums) (put_values-append (uses reach) (used_by s step))
    ∙ append_assoc (put_values (uses reach)) (put_values (used_by s step)) (countdown t.nums)
    ∙ ap (λ l. put_values (uses reach) ++ l) (Step-puts s (Reach-Inv reach).counts step)
    ∙ puts-countdown reach

-- When main has returned the other threads have too. The values that the consumers have taken and
-- those still in the buffer, at most BUFFER_MAX, are the numbers from 1 to the count of the data, each
-- of them once; and the consumers have counted all but those in the buffer.
pub values_taken :
    {n k : ℕ} {s : System} (reach : Reach n k s)
    → s.main ≡ Main.returned
    → (s.producer ≡ Producer.returned)
      × ((i : ℕ) → i < n → s.consumers i ≡ Consumer.returned)
      × Perm (buffered s ++ taken_values (uses reach)) (countdown k)
      × (length (buffered s) + consumed n s ≡ k)
      × (length (buffered s) ≤ buffer_max)
unfolding countdown
values_taken {k = k} {s = s} reach e =
    let (over, gone, few, bounded) = values_at_return reach e in
    let none_left : s.nums ≡ 0 = (Reach-Inv reach).stages.spent over in
    let all : put_values (uses reach) ≡ countdown k =
      sym (append-nil (put_values (uses reach)))
      ∙ ap (λ x. put_values (uses reach) ++ countdown x) (sym none_left)
      ∙ puts-countdown reach in
    let len = length-contents s.current s.buffer in
    (
      over,
      gone,
      rw (← all) (serve-Perm (uses reach) [] (buffered s) (uses-served reach)),
      omega (arith, few, len),
      omega (arith, bounded, len),
    )
