-- ===== src/FineMain/Finish.antt =====
-- c/multi-thread-queue/main.c ends if no consumer misses the broadcast, also with its calls of
-- q_dequeue cut into accesses.
use code_slices.Base.{ℕ, ◌≤◌, ◌<◌, ◌≡◌, refl, Option, none, some, true, false}
use code_slices.Runs.{Inevitable, Ranking, Ranking-Inevitable}
use code_slices.Memory.{Ptr, Heap, Malloc}
use code_slices.QueueMain.{Consumer, Main}
use code_slices.QueueMain.Missed.{past_broadcast, asleep}
use code_slices.QueueMain.Tally.{Ready}
use code_slices.Atomic.{Script, returns, access}
use code_slices.FineMain.{
  Fine, FineAct, FineReach, later, act, consume, provide, conduct, calls, in_call,
}
use code_slices.FineMain.View.{view}
use code_slices.FineMain.Goes.{roused_goes}
use code_slices.FineMain.Weights.{Reach-Weighed}
use code_slices.FineMain.Ranks.{Ranked, Lower}
use code_slices.FineMain.Beside.{Consume-Lower, Provide-Lower, Conduct-Lower}
use code_slices.FineMain.Called.{called_awake, call-Lower, FineCall-Lower}

abbrev pub FineReturned : Fine → Type 0
FineReturned f = f.sys.main ≡ Main.returned

module _ (m : Malloc) (q : Ptr) (k n : ℕ) (h : Heap) (ready : Ready q h) (some_there : 1 ≤ n)
    (f : Fine) (rank : ℕ) (r : Ranked m q k n h f rank) where
  open r use {reach, roused, weights, fit, sums}

  FineAct-Lower : (g : Fine) → FineAct m q k n f g → Lower m q k n h f rank r g
  FineAct-Lower g (consume i lt out st whole) =
      Consume-Lower m q k n h ready some_there f rank r i lt out st whole
        (later reach (act (consume i lt out st whole)))
  FineAct-Lower g (provide st) =
      Provide-Lower m q k n h ready some_there f rank r st (later reach (act (provide st)))
  FineAct-Lower g (conduct st) =
      Conduct-Lower m q k n h ready some_there f rank r st (later reach (act (conduct st)))
  FineAct-Lower g (calls i value lt at out) =
      call-Lower m q k n h ready some_there f rank r i value lt out
        (later reach (act (calls i value lt at out)))
  FineAct-Lower g (in_call i step) =
      FineCall-Lower m q k n h ready some_there f rank r i g step
        (later reach (act (in_call i step)))

view-awake :
    (o : Option Script) (c : Consumer) → asleep c.place ≡ false → asleep (view o c).place ≡ false
view-awake none c up = up
view-awake (some (returns ret)) c up = called_awake ret
view-awake (some (Script.lock r)) c up = up
view-awake (some (Script.unlock r)) c up = up
view-awake (some (access step next)) c up = up

FineAct-Ranking :
    (m : Malloc) (q : Ptr) (k n : ℕ) (h : Heap)
    → Ready q h
    → 1 ≤ n
    → Ranking FineReturned (FineAct m q k n) (Ranked m q k n h)
FineAct-Ranking m q k n h ready some_there = record {
  moves = λ f rank r. roused_goes m q k n h ready f r.reach some_there r.roused;
  falls = λ f g rank r step. FineAct-Lower m q k n h ready some_there f rank r g step;
}

-- Once the broadcast is made and has reached every consumer, no schedule of the threads, with the
-- accesses of all calls of q_dequeue interleaved, can keep main from its return in finitely many
-- steps: no deadlock, no fault in the queue, no endless loop.
pub fine_returns :
    {m : Malloc} {q : Ptr} {k n : ℕ} {h : Heap} {f : Fine}
    → Ready q h
    → 1 ≤ n
    → FineReach m q k n h f
    → past_broadcast f.sys.provider ≡ true
    → ((i : ℕ) → i < n → asleep (f.sys.consumers i).place ≡ false)
    → Inevitable FineReturned (FineAct m q k n) f
fine_returns {m} {q} {k} {n} {h} {f} ready some_there reach late awake =
    let (weights, fit) = Reach-Weighed m q k n h f reach in
    Ranking-Inevitable (FineAct-Ranking m q k n h ready some_there) f _ (record {
      reach = reach;
      roused = record {
        late = late;
        awake = λ i lt. view-awake (f.scripts i) (f.sys.consumers i) (awake i lt);
      };
      weights = weights;
      fit = fit;
      sums = refl;
    })
