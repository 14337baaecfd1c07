-- ===== src/FineMain/Calls.antt =====
-- The steps of a call of q_dequeue in c/multi-thread-queue/main.c: the view shows the one that gives
-- the mutex back, as the whole call.
use mathlib.Core.Path.{subst}
use code_slices.Base.{
  ℕ, ◌<◌, ◌≡◌, ◌≢◌, refl, sym, ap, ◌∙◌, ◌⊎◌, inl, inr, Bool, Option, none, some, true, false, arith,
  ℕ_discrete,
}
use code_slices.Family.{update, update-same, update-other, update_each}
use code_slices.Memory.{Ptr, Heap, Malloc}
use code_slices.Memory.Mutex.{with_lock}
use code_slices.Queue as Queue
use code_slices.QueueMain.{Place, Consumer, Main, System, Consume, dequeue, Reach, act, consume}
use code_slices.QueueMain as QueueMain
use code_slices.Atomic.{Script, returns, access, leave}
use code_slices.Atomic.Models.{exec, Leaves}
use code_slices.Atomic.Listing.{Behind, q_dequeue-Whole}
use code_slices.Atomic.Calls.{exec-lock, exec-leave, exec-access}
use code_slices.FineMain.{Fine, FineCall, called, locks, accesses, unlocks, leaves}
use code_slices.FineMain.View.{
  view, view_of, viewed, coarse, view_of-Critical, viewed-hidden, viewed-leave, viewed-unlock,
}
use code_slices.FineMain.Coarse.{InCalls, InCalls-update}
use code_slices.FineMain.Hidden.{InCalls-script, asks, no_access, no_unlock, hidden}
use code_slices.FineMain.Simulation.{Outside, Inside, Mode, rest, held, Sim}

module _ (m : Malloc) (q : Ptr) (k n : ℕ) (h : Heap) where
  -- Consumer `i` goes on with the mutex, at `r` with the memory `g`.
  goes-Inside :
      (f : Fine) (i : ℕ) (base g : Heap) (r : Script)
      → Reach m q k n h (coarse base f)
      → view (f.scripts i) (f.sys.consumers i) ≡ f.sys.consumers i
      → g.lock q ≡ some true
      → Inside m q k n h base g (some r)
      → ((j : ℕ) → j ≢ i → Outside m q k n h (f.scripts j))
      → Mode m q k n h
          (record { sys = record f.sys { heap = g }; scripts = update f.scripts i (some r) })
  goes-Inside f i base g r reach plain locked (value, critical, does) out =
      let same : view_of r (f.sys.consumers i) ≡ view (f.scripts i) (f.sys.consumers i) =
        view_of-Critical q r (f.sys.consumers i) critical ∙ sym plain in
      held i base
        (subst (λ c. Reach m q k n h (record (coarse base f) { consumers = c }))
          (sym (viewed-hidden f.scripts f.sys.consumers i (some r) same)) reach)
        locked (rw (update-same f.scripts i (some r)) (value, critical, does))
        (λ j ne. rw (update-other f.scripts i j (some r) ne) (out j ne))

  -- Consumer `i` gives the mutex back: in the view it takes the whole step.
  goes_out :
      (f : Fine) (i : ℕ) (base : Heap) (ret : Bool) (value : Ptr)
      → Reach m q k n h (coarse base f)
      → i < n
      → (f.sys.consumers i).place ≡ Place.working
      → f.scripts i ≡ some (leave ret)
      → Queue.q_dequeue q value base ≡ some (ret, with_lock f.sys.heap q (some false))
      → ((j : ℕ) → j ≢ i → Outside m q k n h (f.scripts j))
      → Mode m q k n h (record {
        sys = record f.sys { heap = with_lock f.sys.heap q (some false) };
        scripts = update f.scripts i (some (returns ret));
      })
  goes_out f i base ret value reach lt at e does out =
      let there : (viewed f.scripts f.sys.consumers i).place ≡ Place.working = rw e at in
      rest
        (subst
          (λ c.
            Reach m q k n h (record (coarse base f) {
              heap = with_lock f.sys.heap q (some false);
              consumers = c;
            }))
          (sym (viewed-unlock f.scripts f.sys.consumers i ret e))
          (QueueMain.later reach (act (consume i lt (Consume.dequeue value there does)))))
        (λ j.
          update_each f.scripts (λ x. Outside m q k n h x) i j (some (returns ret)) (out j)
            (inr tt))

  module _ (f : Fine) (i : ℕ) where
    -- What consumer `i` is at when it takes a step of a call.
    pub at_loop :
        (r : Script)
        → f.scripts i ≡ some r
        → Sim m q k n h f
        → (i < n) × ((f.sys.consumers i).place ≡ Place.working)
    at_loop r e sim = rw e at (sim.calls i)

    InCalls-next :
        (r x : Script)
        → f.scripts i ≡ some r
        → Sim m q k n h f
        → InCalls n (update f.scripts i (some x)) f.sys.consumers
    InCalls-next r x e sim =
        InCalls-script n f.scripts f.sys.consumers i (some x) (at_loop r e sim) sim.calls

    locks-Mode :
        (r : Script)
        → f.scripts i ≡ some (Script.lock r)
        → f.sys.heap.lock q ≡ some false
        → Mode m q k n h f
        → Mode m q k n h (record {
          sys = record f.sys { heap = with_lock f.sys.heap q (some true) };
          scripts = update f.scripts i (some r);
        })
    locks-Mode r e free (rest reach out) = elim (rw e at (out i)) [
      | inl (value, same) ↦
          let critical : Behind q (Script.lock r) ⊎ Leaves (Script.lock r) =
            asks m q k n h (Script.lock r) (inl (value, same)) in
          elim critical [
            | inl inside ↦
                goes-Inside f i f.sys.heap (with_lock f.sys.heap q (some true)) r reach (rw e refl)
                  (ground arith)
                  (
                    value,
                    inside,
                    sym (exec-lock q r f.sys.heap free)
                        ∙ ap (λ x. exec q x f.sys.heap) same
                        ∙ (q_dequeue-Whole q value).runs f.sys.heap,
                  )
                  (λ j ne. out j)
            | inr left ↦ absurd left
          ]
      | inr left ↦ absurd left
    ]
    locks-Mode r e free (held j base reach taken_lock inside out) = absurd (cc)

    accesses-Mode :
        (step : Heap → Option Heap) (next : Heap → Script) (g : Heap)
        → f.scripts i ≡ some (access step next)
        → step f.sys.heap ≡ some g
        → Mode m q k n h f
        → Mode m q k n h (record {
          sys = record f.sys { heap = g };
          scripts = update f.scripts i (some (next f.sys.heap));
        })
    accesses-Mode step next g e ok (rest reach out) = absurd (no_access m q k n h (rw e at (out i)))
    accesses-Mode step next g e ok (held j base reach taken_lock inside out) =
        elim (ℕ_discrete i j) [
          | no ne ↦ absurd (no_access m q k n h (rw e at (out i ne)))
          | yes same ↦
              let mine : Inside m q k n h base f.sys.heap (f.scripts i) = rw same inside in
              let (value, critical, does) = rw e at mine in
              let (keeps, goes_on) = critical f.sys.heap g ok in
              goes-Inside f i base g (next f.sys.heap) reach (rw e refl) (keeps ∙ taken_lock)
                (value, goes_on, sym (exec-access q step next f.sys.heap g ok) ∙ does)
                (λ x ne. out x (λ xj. ne (xj ∙ sym same)))
        ]

    unlocks-Mode :
        (ret : Bool)
        → f.scripts i ≡ some (leave ret)
        → Sim m q k n h f
        → Mode m q k n h f
        → Mode m q k n h (record {
          sys = record f.sys { heap = with_lock f.sys.heap q (some false) };
          scripts = update f.scripts i (some (returns ret));
        })
    unlocks-Mode ret e sim (rest reach out) = absurd (no_unlock m q k n h (rw e at (out i)))
    unlocks-Mode ret e sim (held j base reach taken_lock inside out) = elim (ℕ_discrete i j) [
      | no ne ↦ absurd (no_unlock m q k n h (rw e at (out i ne)))
      | yes same ↦
          let mine : Inside m q k n h base f.sys.heap (f.scripts i) = rw same inside in
          let (value, critical, does) = rw e at mine in
          let (lt, at) = at_loop (leave ret) e sim in
          goes_out f i base ret value reach lt at e
            (sym does ∙ exec-leave q ret f.sys.heap taken_lock)
            (λ x ne. out x (λ xj. ne (xj ∙ sym same)))
    ]

    leaves-Sim :
        (ret : Bool)
        → f.scripts i ≡ some (returns ret)
        → Sim m q k n h f
        → Sim m q k n h (record {
          sys = record f.sys {
            consumers = update f.sys.consumers i (called ret (f.sys.consumers i));
          };
          scripts = update f.scripts i none;
        })
    leaves-Sim ret e sim = record {
      calls =
          InCalls-update n (update f.scripts i none) f.sys.consumers i
            (called ret (f.sys.consumers i)) (update-same f.scripts i none)
            (InCalls-script n f.scripts f.sys.consumers i none tt sim.calls);
      mode =
          hidden m q k n h f
            (record f.sys { consumers = update f.sys.consumers i (called ret (f.sys.consumers i)) })
            i none sim.mode (rw e (inr tt)) tt refl
            (λ base.
              ap (λ c. record (coarse base f) { consumers = c })
                (sym (viewed-leave f.scripts f.sys.consumers i ret e)));
    }

  pub FineCall-Sim :
      (f : Fine) (i : ℕ) (g : Fine) → Sim m q k n h f → FineCall q i f g → Sim m q k n h g
  FineCall-Sim f i g sim (locks {r = r} e free) = record {
    calls = InCalls-next f i (Script.lock r) r e sim;
    mode = locks-Mode f i r e free sim.mode;
  }
  FineCall-Sim f i g sim (accesses {step = step} {next = next} {h = a} e ok) = record {
    calls = InCalls-next f i (access step next) (next f.sys.heap) e sim;
    mode = accesses-Mode f i step next a e ok sim.mode;
  }
  FineCall-Sim f i g sim (unlocks {ret = ret} e _) = record {
    calls = InCalls-next f i (leave ret) (returns ret) e sim;
    mode = unlocks-Mode f i ret e sim sim.mode;
  }
  FineCall-Sim f i g sim (leaves {ret = ret} e) = leaves-Sim f i ret e sim
