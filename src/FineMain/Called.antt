-- ===== src/FineMain/Called.antt =====
-- The steps of the calls of q_dequeue in c/multi-thread-queue/main.c leave less to do.
use mathlib.Core.Path.{subst}
use code_slices.Base.{
  ℕ, ◌+◌, ◌-◌, ◌≤◌, ◌<◌, ◌≡◌, refl, sym, ◌∙◌, Bool, none, some, true, false, arith, if◌then◌else◌,
}
use code_slices.Family.{update, total, total-update, update_each}
use code_slices.Memory.{Ptr, Heap, Malloc}
use code_slices.Memory.Mutex.{with_lock}
use code_slices.QueueMain.{Place, Consumer}
use code_slices.QueueMain.Missed.{asleep}
use code_slices.QueueMain.Tally.{got, Ready}
use code_slices.QueueMain.Finish.{left}
use code_slices.Atomic as Atomic
use code_slices.Atomic.{Script, returns, access, leave}
use code_slices.Atomic.Models.{Critical}
use code_slices.Atomic.Span.{Within}
use code_slices.FineMain.{Fine, FineCall, FineReach, locks, accesses, unlocks, leaves, called}
use code_slices.FineMain.View.{
  view_of, viewed, view_of-Critical, viewed-hidden, viewed-leave, viewed-unlock,
}
use code_slices.FineMain.Calls.{at_loop}
use code_slices.FineMain.Hidden.{view_of-q_dequeue}
use code_slices.FineMain.Refine.{fine_accounted}
use code_slices.FineMain.Moves.{used}
use code_slices.FineMain.Weights.{
  Critical-Fits, q_dequeue-Fits, AllFit-update, lock-Critical, access-Critical,
}
use code_slices.FineMain.Ranks.{Ranked, Lower, sim, hides}

pub called_awake : (ret : Bool) → asleep (if ret then Place.working else Place.returned) ≡ false
called_awake true = refl
called_awake false = refl

-- What a call that has given the mutex back took off.
call_lowers :
    (n i stored : ℕ) (ret : Bool) (v : ℕ → Consumer)
    → i < n
    → (v i).place ≡ Place.working
    → total got n (update v i (called ret (v i))) ≤ stored
    → (stored - total got n (update v i (called ret (v i))))
        + total left n (update v i (called ret (v i)))
      < (stored - total got n v) + total left n v
call_lowers n i stored true v lt e few = ground (
  arith,
  total-update got n i v (called true (v i)) lt,
  total-update left n i v (called true (v i)) lt,
)
call_lowers n i stored false v lt e few = ground (
  arith,
  total-update got n i v (called false (v i)) lt,
  total-update left n i v (called false (v i)) lt,
)

module _ (m : Malloc) (q : Ptr) (k n : ℕ) (h : Heap) (ready : Ready q h) (some_there : 1 ≤ n)
    (f : Fine) (rank : ℕ) (r : Ranked m q k n h f rank) where
  open r use {reach, roused, weights, fit, sums}

  pub call-Lower :
      (i : ℕ) (value : Ptr)
      → i < n
      → f.scripts i ≡ none
      → FineReach m q k n h
          (record f { scripts = update f.scripts i (some (Atomic.q_dequeue q value)) })
      → Lower m q k n h f rank r
          (record f { scripts = update f.scripts i (some (Atomic.q_dequeue q value)) })
  call-Lower i value lt out there =
      let weight : weights i ≡ 19 = rw out at (fit i) in
      hides m q k n h f rank r i 18 f.sys.heap f.sys.consumers (some (Atomic.q_dequeue q value)) lt
        there
        (viewed-hidden f.scripts f.sys.consumers i _
          (rw out (view_of-q_dequeue q value (f.sys.consumers i))))
        (q_dequeue-Fits q value) (omega arith)

  module _ (i : ℕ) where
    -- Consumer `i` goes on in its call with the mutex, at `x`.
    inside-Lower :
        (y x : Script) (a : Heap) (w : ℕ)
        → f.scripts i ≡ some y
        → view_of y (f.sys.consumers i) ≡ f.sys.consumers i
        → Critical q x
        → w < weights i
        → w ≤ 18
        → Within w x
        → FineReach m q k n h
            (record { sys = record f.sys { heap = a }; scripts = update f.scripts i (some x) })
        → Lower m q k n h f rank r
            (record { sys = record f.sys { heap = a }; scripts = update f.scripts i (some x) })
    inside-Lower y x a w e plain critical less le within there =
        let (lt, _) = at_loop m q k n h f i y e (sim m q k n h f rank r) in
        hides m q k n h f rank r i w a f.sys.consumers (some x) lt there
          (viewed-hidden f.scripts f.sys.consumers i (some x)
            (view_of-Critical q x (f.sys.consumers i) critical ∙ sym (rw e plain)))
          (Critical-Fits q w x critical le within) less

    unlock-Lower :
        (ret : Bool)
        → f.scripts i ≡ some (leave ret)
        → FineReach m q k n h (record {
          sys = record f.sys { heap = with_lock f.sys.heap q (some false) };
          scripts = update f.scripts i (some (returns ret));
        })
        → Lower m q k n h f rank r (record {
          sys = record f.sys { heap = with_lock f.sys.heap q (some false) };
          scripts = update f.scripts i (some (returns ret));
        })
    unlock-Lower ret e there =
        let (lt, at) = at_loop m q k n h f i (leave ret) e (sim m q k n h f rank r) in
        let v = viewed f.scripts f.sys.consumers in
        let working : (v i).place ≡ Place.working = rw e at in
        let same = viewed-unlock f.scripts f.sys.consumers i ret e in
        let holds =
          fine_accounted ready there (used m q k n h f i (leave ret) reach e) (ground arith) in
        let weight : (weights i ≤ 18) × (0 < weights i) = rw e at (fit i) in
        let few : total got n (update v i (called ret (v i))) ≤ f.sys.stored =
          rw (← same) (omega (arith, holds.kept)) in
        let lowers = call_lowers n i f.sys.stored ret v lt working few in
        let shown : (f.sys.stored
                - total got n (viewed (update f.scripts i (some (returns ret))) f.sys.consumers))
              + total left n (viewed (update f.scripts i (some (returns ret))) f.sys.consumers)
            < (f.sys.stored - total got n v) + total left n v =
          rw same lowers in
        (
          _,
          omega (arith, sums, shown, weight.0, weight.1, total-update (λ x. x) n i weights 20 lt),
          record {
            reach = there;
            roused = record {
              late = roused.late;
              awake =
                  subst (λ (c : ℕ → Consumer). (j : ℕ) → j < n → asleep (c j).place ≡ false)
                    (sym same)
                    (λ j lj.
                      update_each v (λ c. asleep c.place ≡ false) i j (called ret (v i))
                        (λ _. roused.awake j lj) (called_awake ret));
            };
            weights = update weights i 20;
            fit = AllFit-update weights f.scripts i 20 (some (returns ret)) fit refl;
            sums = refl;
          },
        )

    pub FineCall-Lower :
        (g : Fine) → FineCall q i f g → FineReach m q k n h g → Lower m q k n h f rank r g
    FineCall-Lower g (locks {r = x} e free) there =
        let (le, inside) = rw e at (fit i) in
        let (fewer, less, within) = inside in
        inside-Lower (Script.lock x) x _ fewer e refl
          (lock-Critical m q k n h f i x e (sim m q k n h f rank r).mode) less (omega arith) within
          there
    FineCall-Lower g (accesses {step = step} {next = next} {h = a} e ok) there =
        let (le, inside) = rw e at (fit i) in
        let (fewer, less, within) = inside in
        inside-Lower (access step next) (next f.sys.heap) a fewer e refl
          (access-Critical m q k n h f i step next a e ok (sim m q k n h f rank r).mode) less
          (omega arith) (within f.sys.heap) there
    FineCall-Lower g (unlocks {ret = ret} e _) there = unlock-Lower ret e there
    FineCall-Lower g (leaves {ret = ret} e) there =
        let (lt, at) = at_loop m q k n h f i (returns ret) e (sim m q k n h f rank r) in
        let weight : weights i ≡ 20 = rw e at (fit i) in
        hides m q k n h f rank r i 19 f.sys.heap
          (update f.sys.consumers i (called ret (f.sys.consumers i))) none lt there
          (viewed-leave f.scripts f.sys.consumers i ret e) refl (omega arith)
