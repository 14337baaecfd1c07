-- ===== src/Ring/Dump.antt =====
-- list_dump of c/multi-thread-queue/list.c on a ring.
use code_slices.Base.{List, [], ◌∷◌, ◌++◌}
use code_slices.Base.Int.{ℤ, to_int}
use code_slices.Memory.{Heap}
use code_slices.Memory.Chain.{Nodes, Chain, Ring}

-- The `data` of the cells, each converted to `int`.
unfoldable pub shown : Nodes → List ℤ
shown [] = []
shown ((_, d) ∷ xs) = to_int d ∷ shown xs

abbrev pub with_output : Heap → List ℤ → Heap
with_output h out = record h { printed = h.printed ++ out }
