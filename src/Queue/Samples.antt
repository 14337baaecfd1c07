-- ===== src/Queue/Samples.antt =====
-- A malloc to run the examples of c/multi-thread-queue with.
use code_slices.Base.{◌≡◌, ◌≢◌, false, arith, if◌then◌else◌}
use code_slices.Memory.{Ptr, null, Heap, Malloc}

unfoldable pub five_or_null : Heap → Ptr
five_or_null h = if h.live 5 then null else 5

pub five_or_null-fresh : (h : Heap) → five_or_null h ≢ null → h.live (five_or_null h) ≡ false
unfolding five_or_null
five_or_null-fresh h ne = ground arith

-- Gives address 5 if it is not in use, and then nothing.
abbrev pub one_address : Malloc
one_address = record { address = five_or_null; fresh = five_or_null-fresh }
