-- ===== src/QueueMain/Tests.antt =====
-- Two runs of c/multi-thread-queue/main.c with one node and one consumer, and the theorems there: in
-- the first the consumer waits before the broadcast, in the second it comes too late.
use code_slices.Base.{◌≡◌, ◌≢◌, refl, true, arith, [], ◌==◌, none}
use code_slices.Memory.{
  Heap, pthread_mutex_init, pthread_mutex_lock, pthread_mutex_unlock, pthread_mutex_destroy,
}
use code_slices.Ring.{list_init, list_add, list_remove, list_new, list_free, is_empty}
use code_slices.Queue.{q_init, q_enqueue, q_dequeue, q_clean}
use code_slices.Queue.Samples.{one_address, five_or_null}
use code_slices.QueueMain.{
  Main, System, Consume, Provide, Conduct, consume, provide, conduct, act, Reach, here, later, Run,
  stay, go,
}
use code_slices.QueueMain.Stages.{was_counted, all_registered}
use code_slices.QueueMain.Tally.{got}
use code_slices.QueueMain.Missed.{asleep, missed_wakeup}

-- `g_queue` at 1.
abbrev pub fresh_heap : Heap
fresh_heap = record {
  live = λ a. a == 1;
  prev = λ _. 0;
  next = λ _. 0;
  payload = λ _. 0;
  lock = λ _. none;
  word = λ _. 0;
  printed = [];
}

abbrev At : Type 0
At = (s : System) × Reach one_address 1 1 1 fresh_heap s

abbrev conducted : (r : At) {t : System} → Conduct one_address 1 1 1 r.0 t → At
conducted r c = (_, later r.1 (act (conduct c)))

abbrev consumed : (r : At) {t : System} → Consume 1 0 r.0 t → At
consumed r c = (_, later r.1 (act (consume 0 (omega arith) c)))

abbrev provided : (r : At) {t : System} → Provide 1 r.0 t → At
provided r c = (_, later r.1 (act (provide c)))

-- The queue is filled, and the consumer has been counted.
counted_in : At
unfolding q_init q_enqueue list_init list_new list_add is_empty five_or_null pthread_mutex_init
    pthread_mutex_lock pthread_mutex_unlock
counted_in =
    let a = conducted (_, here) (Conduct.init refl refl) in
    let b = conducted a (Conduct.enqueue refl (omega arith) refl) in
    let c = conducted b (Conduct.filled refl (omega arith)) in
    let d = conducted c (Conduct.create refl (omega arith)) in
    let e = conducted d (Conduct.created refl (omega arith)) in
    let f = consumed e (Consume.lock_count refl refl) in
    let g = consumed f (Consume.count_up refl) in consumed g (Consume.unlock_count refl)

broadcast_made : At
unfolding counted_in
broadcast_made =
    let a = provided counted_in (Provide.ready refl (omega arith)) in
    let b = provided a (Provide.lock refl refl) in
    let c = provided b (Provide.broadcast refl) in provided c (Provide.unlock refl)

-- The consumer waits in time, is woken, and empties the queue.
at_work : At
unfolding counted_in
at_work =
    let a = consumed counted_in (Consume.lock refl refl) in
    let b = consumed a (Consume.wait refl) in
    let c = provided b (Provide.ready refl (omega arith)) in
    let d = provided c (Provide.lock refl refl) in
    let e = provided d (Provide.broadcast refl) in
    let f = provided e (Provide.unlock refl) in
    let g = consumed f (Consume.relock refl refl) in consumed g (Consume.unlock refl)

all_done : At
unfolding at_work q_dequeue q_clean list_remove list_free is_empty pthread_mutex_lock
    pthread_mutex_unlock pthread_mutex_destroy
all_done =
    let a = consumed at_work (Consume.dequeue 9 refl refl) in
    let b = consumed a (Consume.dequeue 9 refl refl) in
    let c = conducted b (Conduct.join_provider refl refl) in
    let d = conducted c (Conduct.join refl (omega arith) refl) in
    let e = conducted d (Conduct.joined refl (omega arith)) in
    conducted e (Conduct.clean 2 refl refl)

one_taken : ((all_done.0).stored ≡ 1) × (got ((all_done.0).consumers 0) ≡ 1)
unfolding all_done
one_taken = (refl, refl)

all_registered_example : was_counted ((broadcast_made.0).consumers 0).place ≡ 1
unfolding broadcast_made
all_registered_example = all_registered broadcast_made.1 (ground arith) 0 (omega arith)

-- After the late consumer's lock and wait.
late_wait : (s : System) × Run one_address 1 1 1 broadcast_made.0 s
unfolding broadcast_made
late_wait = (
  _,
  go (go stay (consume 0 (omega arith) (Consume.lock refl refl)))
      (consume 0 (omega arith) (Consume.wait refl)),
)

missed_wakeup_example :
    (asleep ((late_wait.0).consumers 0).place ≡ true) × ((late_wait.0).main ≢ Main.returned)
unfolding broadcast_made
missed_wakeup_example = missed_wakeup broadcast_made.1 refl 0 (omega arith) refl late_wait.1
