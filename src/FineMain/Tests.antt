-- ===== src/FineMain/Tests.antt =====
-- A run of c/multi-thread-queue/main.c with one node and two consumers whose calls of q_dequeue are
-- interleaved, and the theorems there.
use code_slices.Base.{
  ℕ, zero, suc, ◌≡◌, ◌<◌, ◌⊎◌, refl, Bool, true, false, Option, none, some, arith,
}
use code_slices.Family.{total}
use code_slices.Memory.{
  Heap, pthread_mutex_init, pthread_mutex_lock, pthread_mutex_unlock, pthread_mutex_destroy,
}
use code_slices.Ring.{list_init, list_add, list_new, list_free, list_remove, is_empty}
use code_slices.Queue.{q_init, q_enqueue, q_dequeue, q_clean}
use code_slices.Queue.Samples.{one_address, five_or_null}
use code_slices.QueueMain.{System, Place, Consume, Provide, Conduct, Reach}
use code_slices.QueueMain.Tally.{got, Holds}
use code_slices.QueueMain.Tests.{fresh_heap}
use code_slices.Atomic as Atomic
use code_slices.Atomic.{Script, returns, access, leave}
use code_slices.FineMain.{
  Fine, FineAct, locks, accesses, unlocks, leaves, NoCall, consume, provide, conduct, calls,
  in_call, act, FineReach, here, later,
}
use code_slices.FineMain.View.{coarse}
use code_slices.FineMain.Refine.{FineReach-coarse, fine_accounted, fine_all_taken}
use code_slices.FineMain.Finish.{FineReturned, fine_returns}
use code_slices.Runs.{Inevitable}

abbrev At : Type 0
At = (f : Fine) × FineReach one_address 1 1 2 fresh_heap f

abbrev conducted : (r : At) {t : System} → Conduct one_address 1 1 2 r.0.sys t → At
conducted r c = (_, later r.1 (act (conduct c)))

abbrev provided : (r : At) {t : System} → Provide 2 r.0.sys t → At
provided r c = (_, later r.1 (act (provide c)))

abbrev consumed :
    (r : At) (i : ℕ) {t : System}
    → i < 2
    → r.0.scripts i ≡ none
    → (st : Consume 1 i r.0.sys t) → NoCall st
    → At
consumed r i lt out st whole = (_, later r.1 (act (consume i lt out st whole)))

abbrev lock_at :
    (f : Fine)
    → FineReach one_address 1 1 2 fresh_heap f
    → (i : ℕ) (r : Script) → f.scripts i ≡ some (Script.lock r)
    → (o : Option Bool) → f.sys.heap.lock 1 ≡ o
    → At
lock_at f reach i r e (some false) free = (_, later reach (act (in_call i (locks e free))))
lock_at f reach i r e (some true) free = (f, reach)
lock_at f reach i r e none free = (f, reach)

abbrev unlock_at :
    (f : Fine)
    → FineReach one_address 1 1 2 fresh_heap f
    → (i : ℕ) (ret : Bool) → f.scripts i ≡ some (leave ret)
    → (o : Option Bool) → f.sys.heap.lock 1 ≡ o
    → At
unlock_at f reach i ret e (some true) held = (_, later reach (act (in_call i (unlocks e held))))
unlock_at f reach i ret e (some false) held = (f, reach)
unlock_at f reach i ret e none held = (f, reach)

abbrev access_at :
    (f : Fine)
    → FineReach one_address 1 1 2 fresh_heap f
    → (i : ℕ) (step : Heap → Option Heap) (next : Heap → Script)
    → f.scripts i ≡ some (access step next)
    → (o : Option Heap) → step f.sys.heap ≡ o
    → At
access_at f reach i step next e (some g) ok = (_, later reach (act (in_call i (accesses e ok))))
access_at f reach i step next e none ok = (f, reach)

-- Consumer `i` takes the next step of its call, if it can.
abbrev goes_at :
    (f : Fine)
    → FineReach one_address 1 1 2 fresh_heap f
    → (i : ℕ) (o : Option Script) → f.scripts i ≡ o
    → At
goes_at f reach i none e = (f, reach)
goes_at f reach i (some (returns ret)) e = (_, later reach (act (in_call i (leaves e))))
goes_at f reach i (some (Script.lock r)) e = lock_at f reach i r e (f.sys.heap.lock 1) refl
goes_at f reach i (some (Script.unlock (returns ret))) e =
    unlock_at f reach i ret e (f.sys.heap.lock 1) refl
goes_at f reach i (some (Script.unlock (Script.lock r))) e = (f, reach)
goes_at f reach i (some (Script.unlock (Script.unlock r))) e = (f, reach)
goes_at f reach i (some (Script.unlock (access step next))) e = (f, reach)
goes_at f reach i (some (access step next)) e =
    access_at f reach i step next e (step f.sys.heap) refl

unfoldable goes : ℕ → ℕ → At → At
goes i zero r = r
goes i (suc some_steps) r =
    let (f, reach) = goes i some_steps r in goes_at f reach i (f.scripts i) refl

-- The queue is filled and the consumers are there.
created_both : At
unfolding q_init q_enqueue list_init list_new list_add is_empty five_or_null pthread_mutex_init
    pthread_mutex_lock pthread_mutex_unlock
created_both =
    let a = conducted (_, here) (Conduct.init refl refl) in
    let b = conducted a (Conduct.enqueue refl (omega arith) refl) in
    let c = conducted b (Conduct.filled refl (omega arith)) in
    let d = conducted c (Conduct.create refl (omega arith)) in
    let e = conducted d (Conduct.create refl (omega arith)) in
    conducted e (Conduct.created refl (omega arith))

-- Both consumers wait, the first after the second.
both_wait : At
unfolding created_both
both_wait =
    let a = consumed created_both 0 (omega arith) refl (Consume.lock_count refl refl) tt in
    let b = consumed a 0 (omega arith) refl (Consume.count_up refl) tt in
    let c = consumed b 0 (omega arith) refl (Consume.unlock_count refl) tt in
    let d = consumed c 1 (omega arith) refl (Consume.lock_count refl refl) tt in
    let e = consumed d 1 (omega arith) refl (Consume.count_up refl) tt in
    let f = consumed e 1 (omega arith) refl (Consume.unlock_count refl) tt in
    let g = consumed f 1 (omega arith) refl (Consume.lock refl refl) tt in
    let h = consumed g 1 (omega arith) refl (Consume.wait refl) tt in
    let i = consumed h 0 (omega arith) refl (Consume.lock refl refl) tt in
    consumed i 0 (omega arith) refl (Consume.wait refl) tt

-- The broadcast has woken them.
at_work : At
unfolding both_wait
at_work =
    let a = provided both_wait (Provide.ready refl (omega arith)) in
    let b = provided a (Provide.lock refl refl) in
    let c = provided b (Provide.broadcast refl) in
    let d = provided c (Provide.unlock refl) in
    let e = consumed d 0 (omega arith) refl (Consume.relock refl refl) tt in
    let f = consumed e 0 (omega arith) refl (Consume.unlock refl) tt in
    let g = consumed f 1 (omega arith) refl (Consume.relock refl refl) tt in
    consumed g 1 (omega arith) refl (Consume.unlock refl) tt

abbrev begun :
    (r : At) (i : ℕ)
    → i < 2
    → (r.0.sys.consumers i).place ≡ Place.working
    → r.0.scripts i ≡ none
    → At
begun r i lt at out = (_, later r.1 (act (calls i 9 lt at out)))

-- Consumer 0 is inside q_dequeue, and consumer 1 asks for the mutex.
in_calls : At
unfolding at_work Atomic.q_dequeue Atomic.is_empty Atomic.single goes
in_calls =
    let a = begun at_work 0 (omega arith) refl refl in begun (goes 0 2 a) 1 (omega arith) refl refl

-- Consumer 0 has given the mutex back, and has not returned.
given_back : At
unfolding in_calls Atomic.q_dequeue Atomic.is_empty Atomic.single goes Atomic.list_remove
    Atomic.list_free Atomic.take_first Atomic.assign_data
given_back = goes 0 16 in_calls

-- To the end, with consumer 1 in a call while consumer 0 returns.
all_done : At
unfolding given_back Atomic.q_dequeue Atomic.is_empty Atomic.single goes q_clean q_dequeue list_free
    list_remove is_empty pthread_mutex_lock pthread_mutex_unlock pthread_mutex_destroy
all_done =
    let a = begun (goes 1 8 (goes 0 1 (goes 1 1 given_back))) 0 (omega arith) refl refl in
    let b = conducted (goes 0 8 a) (Conduct.join_provider refl refl) in
    let c = conducted b (Conduct.join refl (omega arith) refl) in
    let d = conducted c (Conduct.join refl (omega arith) refl) in
    let e = conducted d (Conduct.joined refl (omega arith)) in
    conducted e (Conduct.clean 2 refl refl)

one_taken_here : (all_done.0.sys.stored ≡ 1) × (got (all_done.0.sys.consumers 0) ≡ 1)
unfolding all_done
one_taken_here = (refl, refl)

FineReach-coarse_example :
    (base : Heap) × Reach one_address 1 1 2 fresh_heap (coarse base in_calls.0)
    × ((base ≡ in_calls.0.sys.heap) ⊎ (in_calls.0.sys.heap.lock 1 ≡ some true))
FineReach-coarse_example = FineReach-coarse one_address 1 1 2 fresh_heap in_calls.0 in_calls.1

fine_accounted_example : Holds 2 1 (coarse given_back.0.sys.heap given_back.0)
unfolding given_back
fine_accounted_example = fine_accounted (refl, refl) given_back.1 refl refl

fine_all_taken_example :
    ((i : ℕ) → all_done.0.scripts i ≡ none)
    × (total got 2 all_done.0.sys.consumers ≡ all_done.0.sys.stored)
unfolding all_done
fine_all_taken_example = fine_all_taken (refl, refl) all_done.1 (omega arith) refl

fine_returns_example : Inevitable FineReturned (FineAct one_address 1 1 2) in_calls.0
unfolding in_calls
fine_returns_example =
    fine_returns (refl, refl) (omega arith) in_calls.1 refl (λ i lt. ground arith)
