-- ===== src/Atomic/Tests.antt =====
-- Two threads on a small queue of c/multi-thread-queue, interleaved, and the theorems there.
use code_slices.Base.{
  ℕ, zero, suc, ◌≡◌, refl, Bool, true, false, Option, none, some, List, [], ◌∷◌, ◌==◌,
  if◌then◌else◌,
}
use code_slices.Memory.{Heap}
use code_slices.Memory.Chain.{Nodes}
use code_slices.Queue.Enqueue.{IsQueue}
use code_slices.Queue.Samples.{one_address, five_or_null}
use code_slices.Queue.Fifo.{Call, enqueue, dequeue, values, Refines}
use code_slices.Atomic.{
  Script, returns, lock, unlock, access, Place, idle, running, System, locks, accesses, unlocks,
  leaves, Reach, begin, here, later, call, act, script_of, q_dequeue, q_enqueue, is_empty, list_new,
  list_init, list_add, list_remove, list_free, take_first, assign_data, single,
}
use code_slices.Atomic.Serial.{Reach-Refines}

-- The head at 1 and a node at 2.
abbrev one_node : Heap
one_node = record {
  live = λ a. if a == 1 then true else a == 2;
  prev = λ a. if a == 1 then 2 else 1;
  next = λ a. if a == 1 then 2 else 1;
  payload = λ a. if a == 2 then 70 else 0;
  lock = λ _. some false;
  word = λ _. 0;
  printed = [];
}

abbrev cells : Nodes
cells = (2, 70) ∷ []

abbrev one_node-IsQueue : IsQueue one_node 1 cells
one_node-IsQueue = record {
  ring = record {
    head_live = refl;
    head_apart = refl;
    chain = (refl, refl, refl, refl, refl, (refl, refl));
  };
  unlocked = refl;
  null_free = refl;
}

-- What a schedule lets a thread do: begin a call, or take its next step, if it can.
data Turn : Type 0 where
  begins : ℕ → Call → Turn
  goes : ℕ → Turn

abbrev Reached : Type 0
Reached = (s : System) × Reach one_address 1 one_node s

abbrev begin_at :
    (s : System)
    → Reach one_address 1 one_node s
    → (i : ℕ) → Call
    → (p : Place) → s.threads i ≡ p
    → Reached
begin_at s reach i c idle e = (_, later reach (call i c e))
begin_at s reach i c (running d r) e = (s, reach)

abbrev lock_at :
    (s : System)
    → Reach one_address 1 one_node s
    → (i : ℕ) → (c : Call) (r : Script) → s.threads i ≡ running c (lock r)
    → (o : Option Bool) → s.heap.lock 1 ≡ o
    → Reached
lock_at s reach i c r e (some false) free = (_, later reach (act i (locks e free)))
lock_at s reach i c r e (some true) free = (s, reach)
lock_at s reach i c r e none free = (s, reach)

abbrev unlock_at :
    (s : System)
    → Reach one_address 1 one_node s
    → (i : ℕ) → (c : Call) (b : Bool) → s.threads i ≡ running c (unlock (returns b))
    → (o : Option Bool) → s.heap.lock 1 ≡ o
    → Reached
unlock_at s reach i c b e (some true) held = (_, later reach (act i (unlocks e held)))
unlock_at s reach i c b e (some false) held = (s, reach)
unlock_at s reach i c b e none held = (s, reach)

abbrev access_at :
    (s : System)
    → Reach one_address 1 one_node s
    → (i : ℕ) → (c : Call) (step : Heap → Option Heap) (next : Heap → Script)
    → s.threads i ≡ running c (access step next)
    → (o : Option Heap) → step s.heap ≡ o
    → Reached
access_at s reach i c step next e (some g) ok = (_, later reach (act i (accesses e ok)))
access_at s reach i c step next e none ok = (s, reach)

abbrev go_at :
    (s : System)
    → Reach one_address 1 one_node s
    → (i : ℕ) → (p : Place) → s.threads i ≡ p
    → Reached
go_at s reach i idle e = (s, reach)
go_at s reach i (running c (returns b)) e = (_, later reach (act i (leaves e)))
go_at s reach i (running c (lock r)) e = lock_at s reach i c r e (s.heap.lock 1) refl
go_at s reach i (running c (unlock (returns b))) e = unlock_at s reach i c b e (s.heap.lock 1) refl
go_at s reach i (running c (unlock (lock r))) e = (s, reach)
go_at s reach i (running c (unlock (unlock r))) e = (s, reach)
go_at s reach i (running c (unlock (access step next))) e = (s, reach)
go_at s reach i (running c (access step next)) e =
    access_at s reach i c step next e (step s.heap) refl

abbrev take : Reached → Turn → Reached
take (s, reach) (begins i c) = begin_at s reach i c (s.threads i) refl
take (s, reach) (goes i) = go_at s reach i (s.threads i) refl

unfoldable schedule : Reached → List Turn → Reached
schedule r [] = r
schedule r (t ∷ ts) = schedule (take r t) ts

abbrev several : ℕ → Turn → List Turn → List Turn
several zero t ts = ts
several (suc n) t ts = t ∷ several n t ts

-- Thread 0 takes the node out while thread 1 asks for the mutex.
turns : List Turn
turns =
    begins 0 (dequeue 0) ∷ begins 1 (enqueue 7) ∷ goes 0 ∷ goes 1 ∷ goes 0 ∷ goes 0 ∷ goes 1 ∷ []

in_call : Reached
in_call = schedule (begin one_node, here) turns

-- Both calls to their ends; thread 1 gets the mutex before thread 0 has returned.
both : Reached
both = schedule in_call (several 14 (goes 0) (several 14 (goes 1) (goes 0 ∷ [])))

both_results : (both.0).results ≡ true ∷ true ∷ []
unfolding both in_call turns schedule script_of q_dequeue q_enqueue is_empty list_new list_init
    list_add list_remove list_free take_first assign_data single five_or_null
both_results = refl

Reach-Refines_example : Refines 1 (values cells) (both.0).calls (both.0).results (both.0).heap
unfolding both in_call turns schedule script_of q_dequeue q_enqueue is_empty list_new list_init
    list_add list_remove list_free take_first assign_data single five_or_null
Reach-Refines_example =
    Reach-Refines one_address 1 one_node cells (both.0) one_node-IsQueue (both.1) refl

-- Thread 1 still asks for the mutex, at the start of its call.
asking : Script
asking = script_of one_address 1 (enqueue 7)
