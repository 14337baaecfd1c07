-- ===== src/ProducerConsumer/Safety.antt =====
-- What is safe in every reachable state of c/producer-consumer/main.c.
use code_slices.Base.{ℕ, ◌≡◌, true, arith}
use code_slices.ProducerConsumer.{Thread, System, Reach}
use code_slices.ProducerConsumer.Invariant.{holds, Reach-Inv}

-- Two threads are never between the lock of the mutex and its unlock at once.
pub mutual_exclusion :
    {n k : ℕ} {s : System}
    → Reach n k s
    → (t u : Thread) → holds s t ≡ true
    → holds s u ≡ true
    → t ≡ u
mutual_exclusion r t u ht hu =
    let locks = (Reach-Inv r).locks in ground (arith, locks.owner t ht, locks.owner u hu)
