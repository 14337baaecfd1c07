-- ===== src/Memory/Ends.antt =====
-- Total correctness of a command: it ends with no fault and within its fuel, and a postcondition holds.
use code_slices.Base.{Option, some}
use code_slices.Memory.{Heap, Cmd, and_then}

pub data Ends {A : Type 0} (P : A → Heap → Type 0) : Option (A × Heap) → Type 0 where
  ends : {a : A} {h : Heap} → P a h → Ends P (some (a, h))

module _ {A : Type 0} {P : A → Heap → Type 0} where
  pub Ends-then :
      {B : Type 0} {Q : B → Heap → Type 0} {r : Option (A × Heap)} {k : A → Cmd B}
      → Ends P r
      → ((a : A) (h : Heap) → P a h → Ends Q (k a h))
      → Ends Q (and_then r k)
  Ends-then (ends p) next = next _ _ p

  pub weaken :
      {Q : A → Heap → Type 0} {r : Option (A × Heap)}
      → Ends P r
      → ((a : A) (h : Heap) → P a h → Q a h)
      → Ends Q r
  weaken (ends p) w = ends (w _ _ p)
