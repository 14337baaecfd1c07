-- ===== src/Queue/Unique.antt =====
-- The memory of c/multi-thread-queue determines what the queue holds.
use code_slices.Memory.Chain.{Chain}
