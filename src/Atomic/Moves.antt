-- ===== src/Atomic/Moves.antt =====
-- No call of the queue of c/multi-thread-queue is stuck, whatever the other threads do.
use code_slices.Base.{◌≡◌, refl, Bool, Option, none, some}
use code_slices.Memory.{Ptr, Heap}
use code_slices.Memory.Ends.{Ends}
use code_slices.Atomic.{Script, access}
use code_slices.Atomic.Models.{exec}
use code_slices.Atomic.Calls.{call-Fifo}
use code_slices.Atomic.Calls.{call-Fifo}

Ends-none : {A : Type 0} {P : A → Heap → Type 0} → Ends P none → ⊥
Ends-none e = elim e [ ]

exec-fault :
    (q : Ptr) (step : Heap → Option Heap) (next : Heap → Script) (h : Heap)
    → step h ≡ none
    → exec q (access step next) h ≡ none
unfolding exec
exec-fault q step next h e = rw e refl

-- An access of a call that ends is defined.
pub defined :
    {P : Bool → Heap → Type 0} (q : Ptr) (step : Heap → Option Heap) (next : Heap → Script)
    (h : Heap) (o : Option Heap)
    → step h ≡ o
    → Ends P (exec q (access step next) h)
    → (g : Heap) × (step h ≡ some g)
defined q step next h none e end = absurd (Ends-none (rw (exec-fault q step next h e) at end))
defined q step next h (some g) e end = (g, e)

pub ended : {P : Bool → Heap → Type 0} {r o : Option (Bool × Heap)} → r ≡ o → Ends P o → Ends P r
ended e end = rw e end
