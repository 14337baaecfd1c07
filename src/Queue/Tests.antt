-- ===== src/Queue/Tests.antt =====
-- The list and the queue of c/multi-thread-queue on a small memory, and the theorems there.
use code_slices.Base.{
  ◌≡◌, refl, Bool, true, false, Option, none, some, List, [], ◌∷◌, arith, ◌==◌, if◌then◌else◌,
}
use code_slices.Memory.{Heap, pthread_mutex_lock, pthread_mutex_unlock}
use code_slices.Memory.Ends.{Ends}
use code_slices.Memory.Chain.{Nodes, Ring, SameNodes}
use code_slices.Ring.{list_add, list_remove, list_new, list_free, is_empty}
use code_slices.Ring.Remove.{list_remove-append}
use code_slices.Queue.{q_enqueue, q_dequeue, q_clean}
use code_slices.Queue.Enqueue.{IsQueue}
use code_slices.Queue.Dequeue.{Cleaned, q_clean-Cleaned}
use code_slices.Queue.Samples.{one_address, five_or_null}
use code_slices.Queue.Fifo.{Call, enqueue, dequeue, run, values, Refines, run-Fifo}

-- The head at 1, nodes at 2 and 3, and a node at 4 outside the list.
abbrev two_nodes : Heap
two_nodes = record {
  live = λ a. if a == 1 then true else if a == 2 then true else if a == 3 then true else a == 4;
  prev = λ a. if a == 1 then 3 else if a == 2 then 1 else if a == 3 then 2 else a;
  next = λ a. if a == 1 then 2 else if a == 2 then 3 else if a == 3 then 1 else a;
  payload = λ a. if a == 2 then 70 else if a == 3 then 80 else if a == 4 then 90 else 0;
  lock = λ _. some false;
  word = λ _. 0;
  printed = [];
}

abbrev cells : Nodes
cells = (2, 70) ∷ (3, 80) ∷ []

cells-Ring : Ring two_nodes 1 cells
cells-Ring = record {
  head_live = refl;
  head_apart = refl;
  chain = (refl, refl, refl, refl, refl, (refl, refl, refl, refl, refl, (refl, refl)));
}

cells-IsQueue : IsQueue two_nodes 1 cells
cells-IsQueue = record { ring = cells-Ring; unlocked = refl; null_free = refl }

abbrev calls : List Call
calls = enqueue 7 ∷ dequeue 9 ∷ dequeue 9 ∷ dequeue 9 ∷ enqueue 8 ∷ []

abbrev results : Option (List Bool × Heap) → List Bool
results none = []
results (some (bs, _)) = bs

five_calls : results (run one_address 1 calls two_nodes) ≡ true ∷ true ∷ true ∷ true ∷ true ∷ []
unfolding run q_enqueue q_dequeue list_add list_remove list_new list_free is_empty five_or_null
    pthread_mutex_lock pthread_mutex_unlock
five_calls = refl

list_remove-append_example :
    Ends
      (λ r g.
        (r ≡ 3) × Ring g 1 ((2, 70) ∷ []) × (g.next 3 ≡ 3) × (g.prev 3 ≡ 3) × SameNodes two_nodes g)
      (list_remove 1 3 two_nodes)
list_remove-append_example = list_remove-append two_nodes 1 3 80 ((2, 70) ∷ []) [] cells-Ring

q_clean-Cleaned_example : Ends (λ _ g. Cleaned two_nodes 1 cells g) (q_clean 3 1 two_nodes)
q_clean-Cleaned_example = q_clean-Cleaned 3 two_nodes 1 cells cells-IsQueue (omega arith)

run-Fifo_example : Ends (Refines 1 (values cells) calls) (run one_address 1 calls two_nodes)
run-Fifo_example = run-Fifo one_address 1 calls two_nodes cells cells-IsQueue
