-- ===== src/Queue/Fifo.antt =====
-- The queue of c/multi-thread-queue/queue.c as a first-in first-out list: every sequence of calls.
use code_slices.Base.{ℕ, ◌≡◌, refl, ap, inl, inr, Bool, true, false, List, [], ◌∷◌, ◌++◌}
use code_slices.Memory.{Ptr, Heap, Cmd, pure, ◌>>=◌, Malloc}
use code_slices.Memory.Ends.{Ends, ends, Ends-then}
use code_slices.Memory.Chain.{Nodes}
use code_slices.Queue.{q_enqueue, q_dequeue}
use code_slices.Queue.Enqueue.{IsQueue, locked, q_enqueue_lem}
use code_slices.Queue.Dequeue.{q_dequeue-nil, q_dequeue-cons}

pub data Call : Type 0 where
  enqueue : ℕ → Call
  dequeue : Ptr → Call

-- What each call returns.
unfoldable pub run : Malloc → Ptr → List Call → Cmd (List Bool)
run m q [] = pure []
run m q (enqueue d ∷ calls) = do done ← q_enqueue m q d; rest ← run m q calls; pure (done ∷ rest)
run m q (dequeue t ∷ calls) = do done ← q_dequeue q t; rest ← run m q calls; pure (done ∷ rest)

-- A first-in first-out list of values, before and after a sequence of calls, with what they return.
-- An enqueue that returns `false`, for want of memory, adds nothing.
pub data Fifo : List ℕ → List Call → List Bool → List ℕ → Type 0 where
  done : (vs : List ℕ) → Fifo vs [] [] vs
  put :
      {vs left : List ℕ} {d : ℕ} {calls : List Call} {bs : List Bool}
      → Fifo (vs ++ d ∷ []) calls bs left
      → Fifo vs (enqueue d ∷ calls) (true ∷ bs) left
  refused :
      {vs left : List ℕ} {d : ℕ} {calls : List Call} {bs : List Bool}
      → Fifo vs calls bs left
      → Fifo vs (enqueue d ∷ calls) (false ∷ bs) left
  empty :
      {left : List ℕ} {t : Ptr} {calls : List Call} {bs : List Bool}
      → Fifo [] calls bs left
      → Fifo [] (dequeue t ∷ calls) (false ∷ bs) left
  taken :
      {vs left : List ℕ} {v : ℕ} {t : Ptr} {calls : List Call} {bs : List Bool}
      → Fifo vs calls bs left
      → Fifo (v ∷ vs) (dequeue t ∷ calls) (true ∷ bs) left

unfoldable pub values : Nodes → List ℕ
values [] = []
values ((_, d) ∷ xs) = d ∷ values xs

values-append : (xs : Nodes) (p : Ptr) (d : ℕ) → values (xs ++ (p, d) ∷ []) ≡ values xs ++ d ∷ []
unfolding values
values-append [] p d = refl
values-append ((q, e) ∷ xs) p d = ap (λ vs. e ∷ vs) (values-append xs p d)

-- The queue ends up with the values of a first-in first-out list that the same calls, with the same
-- results, were made on.
abbrev pub Refines : Ptr → List ℕ → List Call → List Bool → Heap → Type 0
Refines q vs calls rs g = (ys : Nodes) × IsQueue g q ys × Fifo vs calls rs (values ys)

-- Every sequence of enqueues and dequeues on a queue at rest ends, and behaves as on a first-in
-- first-out list, whether malloc succeeds or fails.
pub run-Fifo :
    (m : Malloc) (q : Ptr) (calls : List Call) (h : Heap) (xs : Nodes)
    → IsQueue h q xs
    → Ends (Refines q (values xs) calls) (run m q calls h)
unfolding run values
run-Fifo m q [] h xs is = ends (xs, is, done (values xs))
run-Fifo m q (enqueue d ∷ calls) h xs is = Ends-then (q_enqueue_lem m h q d xs is) λ b g o. elim o [
  | inl (e, longer) ↦ Ends-then (run-Fifo m q calls g _ longer) λ bs k (ys, left, f).
      rw e (ends (ys, left, put (rw (values-append xs (m.address (locked h q)) d) at f)))
  | inr (e, rest, _) ↦
      Ends-then (run-Fifo m q calls g xs rest)
        λ bs k (ys, left, f). rw e (ends (ys, left, refused f))
]
run-Fifo m q (dequeue t ∷ calls) h [] is = Ends-then (q_dequeue-nil h q t is) λ b g (e, rest, _, _).
    Ends-then (run-Fifo m q calls g [] rest) λ bs k (ys, left, f). rw e (ends (ys, left, empty f))
run-Fifo m q (dequeue t ∷ calls) h ((p, d) ∷ xs) is =
    Ends-then (q_dequeue-cons h q t p d xs is) λ b g (e, rest, _).
      Ends-then (run-Fifo m q calls g xs rest) λ bs k (ys, left, f). rw e (ends (ys, left, taken f))
