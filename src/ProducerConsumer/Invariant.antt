-- ===== src/ProducerConsumer/Invariant.antt =====
-- What holds in every reachable state of c/producer-consumer/main.c.
mod Defs
mod Counting
mod Locking
mod Staging
pub use Defs.*
use Counting.{Step-Counts}
use Locking.{Step-Locks}
use Staging.{Step-Stages}
use code_slices.Base.{ℕ, refl, arith}
use code_slices.ProducerConsumer.{System, Reach, here, later, start}
use code_slices.Family.{total-eq-zero}

pub record Inv (n k : ℕ) (s : System) : Type 0 where
  pub counts : Counts n k s
  pub locks : Locks n s
  pub stages : Stages n s

start-Inv : (n k : ℕ) → Inv n k (start k)
start-Inv n k = record {
  counts = ground (
    arith,
    total-eq-zero waits n (start k).consumers (λ i lt. refl),
    total-eq-zero (λ m. m) n (start k).score (λ i lt. refl),
  );
  locks = record { owner = λ t. ground arith; inside = λ t. ground arith; absent = λ i far. refl };
  stages = record {
    joined = ground arith;
    spent = ground arith;
    ended = refl;
    gone = λ i. ground arith;
    roused = λ r. ground arith;
  };
}

pub Reach-Inv : {n k : ℕ} {s : System} → Reach n k s → Inv n k s
Reach-Inv {n} {k} here = start-Inv n k
Reach-Inv {n} {k} (later {s} r st) =
    let inv = Reach-Inv r in
    record {
      counts = Step-Counts n k s inv.counts st;
      locks = Step-Locks n s inv.locks st;
      stages = Step-Stages n s inv.stages st;
    }
