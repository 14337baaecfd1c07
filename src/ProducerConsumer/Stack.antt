-- ===== src/ProducerConsumer/Stack.antt =====
-- The buffer of c/producer-consumer/main.c is a stack of at most BUFFER_MAX values.
use code_slices.Base.{
  ℕ, zero, suc, ◌+◌, ◌-◌, ◌≤◌, ◌<◌, ◌≡◌, ◌≢◌, refl, ap, sym, ◌∙◌, Option, none, some, true, List,
  [], ◌∷◌, ◌++◌, ltb, ◌==◌, if◌then◌else◌, arith, length,
}
use code_slices.Family.{update, update-same, update-other}
use code_slices.ProducerConsumer.{
  buffer_max, System, Produce, Consume, Conduct, Spurious, producer_wakes, consumer_wakes, Act,
  produce, consume, conduct, Step, act, spurious, Reach, here, later,
}
use code_slices.ProducerConsumer.Invariant.{Reach-Inv, Counts}

-- What a step does to the buffer: `buffer[current] = nums`, or `current--` over the value at the end.
pub data Use : Type 0 where
  puts takes : ℕ → Use

abbrev pub produced : {n : ℕ} (s : System) {t : System} → Produce n s t → List Use
produced s (Produce.lock e more free) = []
produced s (Produce.finish e spent) = []
produced s (Produce.wait e full) = []
produced s (Produce.put e space sig) = puts s.nums ∷ []
produced s (Produce.unlock e) = []
produced s (Produce.relock e free) = []

abbrev pub used_of : {n : ℕ} (i : ℕ) (s : System) {t : System} → Consume n i s t → List Use
used_of i s (Consume.lock e free) = []
used_of i s (Consume.leave e over) = []
used_of i s (Consume.wait e going empty) = []
used_of i s (Consume.take e going some_there sig) = takes (s.buffer (s.current - 1)) ∷ []
used_of i s (Consume.unlock e) = []
used_of i s (Consume.relock e free) = []
used_of i s (Consume.return e) = []

abbrev pub acted : {n : ℕ} (s : System) {t : System} → Act n s t → List Use
acted s (produce p) = produced s p
acted s (consume i lt c) = used_of i s c
acted s (conduct c) = []

abbrev pub used_by : {n : ℕ} (s : System) {t : System} → Step n s t → List Use
used_by s (act a) = acted s a
used_by s (spurious w) = []

-- The uses of the buffer in a run, the first one first.
unfoldable pub uses : {n k : ℕ} {s : System} → Reach n k s → List Use
uses here = []
uses (later {s} reach step) = uses reach ++ used_by s step

-- A stack of bounded size, its top first.
abbrev pub serve_one : Use → List ℕ → Option (List ℕ)
serve_one (puts v) stack = if ltb (length stack) buffer_max then some (v ∷ stack) else none
serve_one (takes v) [] = none
serve_one (takes v) (x ∷ stack) = if x == v then some stack else none

unfoldable pub serve : List Use → List ℕ → Option (List ℕ)
serve [] stack = some stack
serve (u ∷ us) stack = elim (serve_one u stack) [ none ↦ none | some next ↦ serve us next ]

-- `buffer[current - 1]` down to `buffer[0]`
unfoldable pub contents : ℕ → (ℕ → ℕ) → List ℕ
contents zero buffer = []
contents (suc current) buffer = buffer current ∷ contents current buffer

pub length-contents : (current : ℕ) (buffer : ℕ → ℕ) → length (contents current buffer) ≡ current
unfolding contents
length-contents zero buffer = refl
length-contents (suc current) buffer = ap suc (length-contents current buffer)

contents_beyond :
    (current i v : ℕ) (buffer : ℕ → ℕ)
    → current ≤ i
    → contents current (update buffer i v) ≡ contents current buffer
unfolding contents
contents_beyond zero i v buffer le = refl
contents_beyond (suc current) i v buffer le =
    rw
      (
        update-other buffer i current v (omega arith),
        contents_beyond current i v buffer (omega arith),
      )
      refl

serve_on :
    (o : Option (List ℕ)) (us vs : List Use) (next : List ℕ)
    → ((stack : List ℕ) → serve us stack ≡ some next → serve (us ++ vs) stack ≡ serve vs next)
    → elim o [ none ↦ none | some stack ↦ serve us stack ] ≡ some next
    → elim o [ none ↦ none | some stack ↦ serve (us ++ vs) stack ] ≡ serve vs next
serve_on none us vs next each e = absurd (cc)
serve_on (some stack) us vs next each e = each stack e

serve-append :
    (us vs : List Use) (stack next : List ℕ)
    → serve us stack ≡ some next
    → serve (us ++ vs) stack ≡ serve vs next
unfolding serve
serve-append [] vs stack next e = let same : stack ≡ next = cc in rw same refl
serve-append (x ∷ us) vs stack next e =
    serve_on (serve_one x stack) us vs next (λ y. serve-append us vs y next) e

put_on :
    (current v : ℕ) (buffer : ℕ → ℕ)
    → contents (current + 1) (update buffer current v) ≡ v ∷ contents current buffer
unfolding contents
put_on current v buffer =
    let e : current + 1 ≡ suc current = omega arith in
    rw (e, update-same buffer current v, contents_beyond current current v buffer (omega arith))
      refl

taken_off :
    (current : ℕ) (buffer : ℕ → ℕ)
    → current ≢ 0
    → contents current buffer ≡ buffer (current - 1) ∷ contents (current - 1) buffer
unfolding contents
taken_off zero buffer ne = absurd (ne refl)
taken_off (suc current) buffer ne = let e : suc current - 1 ≡ current = omega arith in rw e refl

put_room :
    (v : ℕ) (stack : List ℕ)
    → length stack < buffer_max
    → serve (puts v ∷ []) stack ≡ some (v ∷ stack)
unfolding serve
put_room v stack lt =
    let e : ltb (length stack) buffer_max ≡ true = ground arith in rw (serve, e) refl

take_top : (v : ℕ) (stack : List ℕ) → serve (takes v ∷ []) (v ∷ stack) ≡ some stack
unfolding serve
take_top v stack = let e : (v == v) ≡ true = ground arith in rw (serve, e) refl

abbrev pub buffered : System → List ℕ
buffered s = contents s.current s.buffer

-- The step leaves the values alone.
abbrev pub SameBuffer : System → System → Type 0
SameBuffer s t = (t.current ≡ s.current) × (t.buffer ≡ s.buffer) × (t.nums ≡ s.nums)

pub Conduct-same : {n : ℕ} {s t : System} → Conduct n s t → SameBuffer s t
Conduct-same (Conduct.join_producer e over) = (refl, refl, refl)
Conduct-same (Conduct.lock e free) = (refl, refl, refl)
Conduct-same (Conduct.set_end e) = (refl, refl, refl)
Conduct-same (Conduct.broadcast e) = (refl, refl, refl)
Conduct-same (Conduct.unlock e) = (refl, refl, refl)
Conduct-same (Conduct.join_consumers e all) = (refl, refl, refl)

pub Spurious-same : {n : ℕ} {s t : System} → Spurious n s t → SameBuffer s t
Spurious-same (producer_wakes e) = (refl, refl, refl)
Spurious-same (consumer_wakes i lt e) = (refl, refl, refl)

module _ {n k : ℕ} (s : System) (counts : Counts n k s) where
  Produce-serve :
      {t : System} (p : Produce n s t) → serve (produced s p) (buffered s) ≡ some (buffered t)
  unfolding serve
  Produce-serve (Produce.lock e more free) = refl
  Produce-serve (Produce.finish e spent) = refl
  Produce-serve (Produce.wait e full) = refl
  Produce-serve (Produce.put e space sig) =
      put_room s.nums (buffered s)
        (omega (arith, length-contents s.current s.buffer, counts.bounded, space))
      ∙ ap (λ x. some x) (sym (put_on s.current s.nums s.buffer))
  Produce-serve (Produce.unlock e) = refl
  Produce-serve (Produce.relock e free) = refl

  Consume-serve :
      (i : ℕ) {t : System} (c : Consume n i s t)
      → serve (used_of i s c) (buffered s) ≡ some (buffered t)
  unfolding serve
  Consume-serve i (Consume.lock e free) = refl
  Consume-serve i (Consume.leave e over) = refl
  Consume-serve i (Consume.wait e going empty) = refl
  Consume-serve i (Consume.take e going some_there sig) =
      ap (serve (takes (s.buffer (s.current - 1)) ∷ [])) (taken_off s.current s.buffer some_there)
      ∙ take_top (s.buffer (s.current - 1)) (contents (s.current - 1) s.buffer)
  Consume-serve i (Consume.unlock e) = refl
  Consume-serve i (Consume.relock e free) = refl
  Consume-serve i (Consume.return e) = refl

  Step-serve :
      {t : System} (st : Step n s t) → serve (used_by s st) (buffered s) ≡ some (buffered t)
  unfolding serve
  Step-serve (act (produce p)) = Produce-serve p
  Step-serve (act (consume i lt c)) = Consume-serve i c
  Step-serve (act (conduct c)) = let (c1, b1, _) = Conduct-same c in rw (c1, b1) refl
  Step-serve (spurious w) = let (c1, b1, _) = Spurious-same w in rw (c1, b1) refl

nothing_yet : serve [] [] ≡ some (contents 0 (λ _. 0))
unfolding serve contents
nothing_yet = refl

-- In every run the uses of the buffer are those of a stack of at most BUFFER_MAX values: a put finds
-- room on it, a take gets the value that was put last and not taken since, and what the buffer holds
-- is the stack.
pub uses-served :
    {n k : ℕ} {s : System} → (reach : Reach n k s) → serve (uses reach) [] ≡ some (buffered s)
unfolding uses
uses-served here = nothing_yet
uses-served (later {s} reach step) =
    serve-append (uses reach) (used_by s step) [] (buffered s) (uses-served reach)
    ∙ Step-serve s (Reach-Inv reach).counts step
