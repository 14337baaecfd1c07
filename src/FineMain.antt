-- ===== src/FineMain.antt =====
-- c/multi-thread-queue/main.c once more: the consumers' calls of q_dequeue take place access by
-- access, between the other steps of all threads. The steps of QueueMain stay as they are, but for
-- the one that is a whole call of a consumer.
mod View
mod Coarse
pub mod Simulation
pub mod Hidden
pub mod Calls
pub mod Refine
pub mod Moves
pub mod Goes
pub mod Weights
pub mod Ranks
pub mod Beside
pub mod Called
pub mod Finish
mod Tests
use code_slices.Base.{ℕ, ◌+◌, ◌<◌, ◌≡◌, Bool, true, false, Option, none, some, if◌then◌else◌}
use code_slices.Family.{update}
use code_slices.Memory.{Ptr, Heap, Malloc}
use code_slices.Memory.Mutex.{with_lock}
use code_slices.QueueMain.{
  Place, Consumer, System, placed, Consume, lock_count, count_up, unlock_count, lock, wait, relock,
  unlock, dequeue, Provide, Conduct, start,
}
use code_slices.Atomic as Atomic
use code_slices.Atomic.{Script, returns, access, leave}

-- `scripts i` is what consumer `i` still does of a call of q_dequeue. In a call it stands at
-- `working`, and its `count` goes up at the end.
pub record Fine : Type 0 where
  pub sys : System
  pub scripts : ℕ → Option Script

-- Not a whole call.
abbrev pub NoCall : {q : Ptr} {i : ℕ} {s t : System} → Consume q i s t → Type 0
NoCall (Consume.lock_count e free) = Unit {0}
NoCall (Consume.count_up e) = Unit {0}
NoCall (Consume.unlock_count e) = Unit {0}
NoCall (Consume.lock e free) = Unit {0}
NoCall (Consume.wait e) = Unit {0}
NoCall (Consume.relock e free) = Unit {0}
NoCall (Consume.unlock e) = Unit {0}
NoCall (Consume.dequeue value e run) = ⊥

-- What a consumer is once a call has returned `ret`.
abbrev pub called : Bool → Consumer → Consumer
called ret c = record { place = if ret then Place.working else Place.returned; count = c.count + 1 }

-- One step of consumer `i` in a call of q_dequeue.
pub data FineCall (q : Ptr) (i : ℕ) (f : Fine) : Fine → Type 0 where
  locks :
      {r : Script}
      → f.scripts i ≡ some (Script.lock r)
      → f.sys.heap.lock q ≡ some false
      → FineCall q i f (record {
        sys = record f.sys { heap = with_lock f.sys.heap q (some true) };
        scripts = update f.scripts i (some r);
      })
  accesses :
      {step : Heap → Option Heap} {next : Heap → Script} {h : Heap}
      → f.scripts i ≡ some (access step next)
      → step f.sys.heap ≡ some h
      → FineCall q i f (record {
        sys = record f.sys { heap = h };
        scripts = update f.scripts i (some (next f.sys.heap));
      })
  unlocks :
      {ret : Bool}
      → f.scripts i ≡ some (leave ret)
      → f.sys.heap.lock q ≡ some true
      → FineCall q i f (record {
        sys = record f.sys { heap = with_lock f.sys.heap q (some false) };
        scripts = update f.scripts i (some (returns ret));
      })
  leaves :
      {ret : Bool}
      → f.scripts i ≡ some (returns ret)
      → FineCall q i f (record {
        sys = record f.sys {
          consumers = update f.sys.consumers i (called ret (f.sys.consumers i));
        };
        scripts = update f.scripts i none;
      })

-- A step that some thread takes by itself.
pub data FineAct (m : Malloc) (q : Ptr) (k n : ℕ) (f : Fine) : Fine → Type 0 where
  consume :
      (i : ℕ) {t : System}
      → i < n
      → f.scripts i ≡ none
      → (st : Consume q i f.sys t) → NoCall st
      → FineAct m q k n f (record f { sys = t })
  provide : {t : System} → Provide n f.sys t → FineAct m q k n f (record f { sys = t })
  conduct : {t : System} → Conduct m q k n f.sys t → FineAct m q k n f (record f { sys = t })
  calls :
      (i : ℕ) (value : Ptr)
      → i < n
      → (f.sys.consumers i).place ≡ Place.working
      → f.scripts i ≡ none
      → FineAct m q k n f
          (record f { scripts = update f.scripts i (some (Atomic.q_dequeue q value)) })
  in_call : (i : ℕ) {g : Fine} → FineCall q i f g → FineAct m q k n f g

-- A consumer that waits may also wake without a signal.
pub data FineStep (m : Malloc) (q : Ptr) (k n : ℕ) (f : Fine) : Fine → Type 0 where
  act : {g : Fine} → FineAct m q k n f g → FineStep m q k n f g
  spurious :
      (i : ℕ)
      → i < n
      → (f.sys.consumers i).place ≡ Place.waiting
      → FineStep m q k n f
          (record f { sys = record f.sys { consumers = placed f.sys i Place.woken } })

pub data FineReach (m : Malloc) (q : Ptr) (k n : ℕ) (h : Heap) : Fine → Type 0 where
  here : FineReach m q k n h (record { sys = start h; scripts = λ _. none })
  later : {f g : Fine} → FineReach m q k n h f → FineStep m q k n f g → FineReach m q k n h g
