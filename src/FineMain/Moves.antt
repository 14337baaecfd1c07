-- ===== src/FineMain/Moves.antt =====
-- No consumer of c/multi-thread-queue/main.c is stuck in a call of q_dequeue.
use code_slices.Base.{
  ℕ, ◌≡◌, ◌≢◌, refl, sym, ap, ◌∙◌, ◌⊎◌, inl, inr, Option, some, none, true, arith, ℕ_discrete,
}
use code_slices.Memory.{Ptr, Heap, Malloc}
use code_slices.Memory.Chain.{Nodes}
use code_slices.Queue.Enqueue.{IsQueue}
use code_slices.Queue.Fifo.{dequeue}
use code_slices.QueueMain.{Reach}
use code_slices.QueueMain.Tally.{Ready, in_use}
use code_slices.QueueMain.Accounting.{Reach-Stored}
use code_slices.Atomic.{Script, returns, access}
use code_slices.Atomic.Calls.{call-Fifo, cmd_of}
use code_slices.Atomic.Moves.{defined, ended}
use code_slices.FineMain.{Fine, FineCall, FineReach, locks, accesses, unlocks, leaves}
use code_slices.FineMain.View.{coarse}
use code_slices.FineMain.Simulation.{Outside, Inside, Mode, rest, held}
use code_slices.FineMain.Hidden.{no_access, no_unlock}
use code_slices.FineMain.Calls.{at_loop}
use code_slices.FineMain.Refine.{Reach-Sim, FineReach-Stages}

module _ (m : Malloc) (q : Ptr) (k n : ℕ) (h : Heap) (f : Fine) where
  -- A consumer that does not hold the mutex: it returns, or asks for the mutex.
  Outside-goes :
      (i : ℕ) (r : Script)
      → f.scripts i ≡ some r
      → Outside m q k n h (some r)
      → ((g : Fine) × FineCall q i f g) ⊎ ((x : Script) × (r ≡ Script.lock x))
  Outside-goes i (returns ret) e out = inl (_, leaves e)
  Outside-goes i (Script.lock x) e out = inr (x, refl)
  Outside-goes i (Script.unlock r) e out = absurd (no_unlock m q k n h out)
  Outside-goes i (access step next) e out = absurd (no_access m q k n h out)

  Inside-goes :
      (i : ℕ) (base : Heap) (ys : Nodes) (o : Option Script)
      → IsQueue base q ys
      → f.sys.heap.lock q ≡ some true
      → f.scripts i ≡ o
      → Inside m q k n h base f.sys.heap o
      → (g : Fine) × FineCall q i f g
  unfolding cmd_of
  Inside-goes i base ys none is taken_lock e inside = absurd inside
  Inside-goes i base ys (some (returns ret)) is taken_lock e inside = absurd inside.1
  Inside-goes i base ys (some (Script.lock r)) is taken_lock e inside = absurd inside.1
  Inside-goes i base ys (some (Script.unlock (returns ret))) is taken_lock e inside =
      (_, unlocks e taken_lock)
  Inside-goes i base ys (some (Script.unlock (Script.lock r))) is taken_lock e inside =
      absurd inside.1
  Inside-goes i base ys (some (Script.unlock (Script.unlock r))) is taken_lock e inside =
      absurd inside.1
  Inside-goes i base ys (some (Script.unlock (access step next))) is taken_lock e inside =
      absurd inside.1
  Inside-goes i base ys (some (access step next)) is taken_lock e (value, critical, does) =
      let (g, ok) =
        defined q step next f.sys.heap (step f.sys.heap) refl
          (ended does (call-Fifo m q (dequeue value) base ys is)) in
      (_, accesses e ok)

  pub used :
      (i : ℕ) (r : Script) → FineReach m q k n h f → f.scripts i ≡ some r → in_use f.sys.main ≡ true
  used i r fine e =
      let (lt, at) = at_loop m q k n h f i r e (Reach-Sim m q k n h f fine) in
      let stages = FineReach-Stages m q k n h f fine in
      ground (arith, stages.unborn i, stages.joined i)

  -- The queue that a consumer in a call works on.
  queue_of :
      (i : ℕ) (r : Script) (base : Heap)
      → Ready q h
      → FineReach m q k n h f
      → Reach m q k n h (coarse base f)
      → f.scripts i ≡ some r
      → (ys : Nodes) × IsQueue base q ys
  queue_of i r base ready fine reach e =
      let holds = (Reach-Stored ready reach).holds (used i r fine e) in (holds.nodes, holds.queue)

  -- What lets a call go on.
  abbrev Goes : ℕ → Script → Type 0
  Goes i r =
      ((g : Fine) × FineCall q i f g)
      ⊎ ((x : Script) × (j : ℕ) × (g : Fine) × (r ≡ Script.lock x) × (j ≢ i) × FineCall q j f g)

  Mode-Goes :
      (i : ℕ) (r : Script)
      → Ready q h
      → FineReach m q k n h f
      → f.scripts i ≡ some r
      → Mode m q k n h f
      → Goes i r
  Mode-Goes i r ready fine e (rest reach out) =
      let (ys, is) = queue_of i r f.sys.heap ready fine reach e in
      elim (Outside-goes i r e (rw e at (out i))) [
        | inl goes ↦ inl goes
        | inr (x, asks) ↦ inl (_, locks (e ∙ ap (λ y. some y) asks) is.unlocked)
      ]
  Mode-Goes i r ready fine e (held j base reach taken_lock inside out) =
      let (ys, is) = queue_of i r base ready fine reach e in
      let (g, goes) = Inside-goes j base ys (f.scripts j) is taken_lock refl inside in
      elim (ℕ_discrete i j) [
        | yes same ↦ inl (rw same (g, goes))
        | no ne ↦ elim (Outside-goes i r e (rw e at (out i ne))) [
          | inl own ↦ inl own
          | inr (x, asks) ↦ inr (x, j, g, asks, (λ ji. ne (sym ji)), goes)
        ]
      ]

pub fine_moves :
    {m : Malloc} {q : Ptr} {k n : ℕ} {h : Heap} {f : Fine}
    → Ready q h
    → FineReach m q k n h f
    → (i : ℕ) (r : Script) → f.scripts i ≡ some r
    → ((g : Fine) × FineCall q i f g)
      ⊎ ((x : Script) × (j : ℕ) × (g : Fine) × (r ≡ Script.lock x) × (j ≢ i) × FineCall q j f g)
fine_moves {m} {q} {k} {n} {h} {f} ready fine i r e =
    Mode-Goes m q k n h f i r ready fine e (Reach-Sim m q k n h f fine).mode
