-- ===== src/FineMain/Refine.antt =====
-- What holds of c/multi-thread-queue/main.c with its calls of q_dequeue cut into accesses.
use mathlib.Core.Path.{subst}
use code_slices.Base.{
  ℕ, ◌≤◌, ◌≡◌, refl, sym, ap, ◌∙◌, ◌⊎◌, inl, inr, none, some, true, false, arith,
}
use code_slices.Family.{total, total_ext}
use code_slices.Memory.{Ptr, Heap, Malloc}
use code_slices.QueueMain.{
  placed, Place, Consumer, Main, System, Reach, act, consume, provide, conduct,
}
use code_slices.QueueMain as QueueMain
use code_slices.QueueMain.Stages.{
  Stages, Reach-Stages, moved, Consume-Stages, Provide-Stages, Conduct-Stages,
}
use code_slices.QueueMain.Tally.{got, in_use, Holds, Ready}
use code_slices.QueueMain.Accounting.{accounted, all_taken}
use code_slices.FineMain.{
  Fine, FineCall, FineAct, FineStep, FineReach, here, later, called, calls, in_call, locks,
  accesses, unlocks, leaves,
}
use code_slices.FineMain as FineMain
use code_slices.FineMain.View.{none_of_over, none_of_elsewhere, view, viewed, coarse}
use code_slices.FineMain.Coarse.{
  Consume-coarse, spurious-coarse, Provide-coarse, Consume-heap, Provide-heap, InCalls-update,
  Consume-InCalls, Provide-InCalls,
}
use code_slices.FineMain.Simulation.{rest, held, Sim, beside, Conduct-Sim}
use code_slices.FineMain.Hidden.{begins-Sim}
use code_slices.FineMain.Calls.{FineCall-Sim}

module _ (m : Malloc) (q : Ptr) (k n : ℕ) (h : Heap) where
  Act-Sim : (f g : Fine) → Sim m q k n h f → FineAct m q k n f g → Sim m q k n h g
  Act-Sim f g sim (FineMain.consume i {t = t} lt out st whole) =
      beside m q k n h f t sim (Consume-heap st whole)
        (Consume-InCalls n f.scripts i f.sys st out sim.calls)
        (λ base. act (consume i lt (Consume-coarse q i base f out st whole)))
  Act-Sim f g sim (FineMain.provide {t = t} st) =
      beside m q k n h f t sim (Provide-heap st) (Provide-InCalls n f.scripts f.sys st sim.calls)
        (λ base. act (provide (Provide-coarse n base f st)))
  Act-Sim f g sim (FineMain.conduct st) = Conduct-Sim m q k n h f sim st
  Act-Sim f g sim (calls i value lt at out) = begins-Sim m q k n h f i value lt at out sim
  Act-Sim f g sim (in_call i step) = FineCall-Sim m q k n h f i g sim step

  Step-Sim : (f g : Fine) → Sim m q k n h f → FineStep m q k n f g → Sim m q k n h g
  Step-Sim f g sim (FineMain.act a) = Act-Sim f g sim a
  Step-Sim f g sim (FineMain.spurious i lt e) =
      let out : f.scripts i ≡ none =
        none_of_elsewhere n i (f.scripts i) (f.sys.consumers i) (sim.calls i) (λ at. cc) in
      beside m q k n h f (record f.sys { consumers = placed f.sys i Place.woken }) sim refl
        (InCalls-update n f.scripts f.sys.consumers i _ out sim.calls)
        (λ base. spurious-coarse q i base f out m k n lt e)

  pub Reach-Sim : (f : Fine) → FineReach m q k n h f → Sim m q k n h f
  Reach-Sim f here = record { calls = λ j. tt; mode = rest QueueMain.here (λ i. tt) }
  Reach-Sim f (later {f = e} reach step) = Step-Sim e f (Reach-Sim e reach) step

  heap-Stages : (s : System) (g : Heap) → Stages n s → Stages n (record s { heap = g })
  heap-Stages s g stages = record {
    registered = stages.registered;
    all_there = stages.all_there;
    bounded = stages.bounded;
    unborn = stages.unborn;
    joined = stages.joined;
  }

  -- The consumers come and go as in QueueMain.
  Call-Stages :
      (f : Fine) (i : ℕ) (g : Fine)
      → Sim m q k n h f
      → Stages n f.sys
      → FineCall q i f g
      → Stages n g.sys
  Call-Stages f i g sim stages (locks e free) = heap-Stages f.sys _ stages
  Call-Stages f i g sim stages (accesses e ok) = heap-Stages f.sys _ stages
  Call-Stages f i g sim stages (unlocks e _) = heap-Stages f.sys _ stages
  Call-Stages f i g sim stages (leaves {ret = ret} e) =
      let (lt, at) = rw e at (sim.calls i) in
      moved m q k n f.sys stages i (called ret (f.sys.consumers i)) g.sys lt refl (ground arith)

  Act-Stages :
      (f g : Fine) → Sim m q k n h f → Stages n f.sys → FineAct m q k n f g → Stages n g.sys
  Act-Stages f g sim stages (FineMain.consume i lt out st whole) =
      Consume-Stages m q k n f.sys stages i lt st
  Act-Stages f g sim stages (FineMain.provide st) = Provide-Stages m q k n f.sys stages st
  Act-Stages f g sim stages (FineMain.conduct st) = Conduct-Stages m q k n f.sys stages st
  Act-Stages f g sim stages (calls i value lt at out) = stages
  Act-Stages f g sim stages (in_call i step) = Call-Stages f i g sim stages step

  Step-Stages :
      (f g : Fine) → Sim m q k n h f → Stages n f.sys → FineStep m q k n f g → Stages n g.sys
  Step-Stages f g sim stages (FineMain.act a) = Act-Stages f g sim stages a
  Step-Stages f g sim stages (FineMain.spurious i lt e) =
      moved m q k n f.sys stages i _ g.sys lt refl (ground arith)

  pub FineReach-Stages : (f : Fine) → FineReach m q k n h f → Stages n f.sys
  FineReach-Stages f here =
      let first : Reach m q k n h (QueueMain.start h) = QueueMain.here in Reach-Stages first
  FineReach-Stages f (later {f = e} reach step) =
      Step-Stages e f (Reach-Sim e reach) (FineReach-Stages e reach) step

-- Every state that the program reaches, with the consumers' calls of q_dequeue cut into accesses and
-- these interleaved with all other steps, is one that it reaches with each call as a single step: as
-- if a call took place when it gives the mutex back. The memory is the same unless a consumer holds
-- the mutex.
pub FineReach-coarse :
    (m : Malloc) (q : Ptr) (k n : ℕ) (h : Heap) (f : Fine)
    → FineReach m q k n h f
    → (base : Heap) × Reach m q k n h (coarse base f)
      × ((base ≡ f.sys.heap) ⊎ (f.sys.heap.lock q ≡ some true))
FineReach-coarse m q k n h f reach = elim (Reach-Sim m q k n h f reach).mode [
  | rest r out ↦ (f.sys.heap, r, inl refl)
  | held i base r taken_lock inside out ↦ (base, r, inr taken_lock)
]

-- Between q_init and q_clean, whenever no thread holds the queue's mutex, the queue is at rest, and
-- no node is lost or taken twice, although the accesses of the calls are interleaved: the nodes in it
-- and those that consumers have taken, by calls that have given the mutex back, add up to those
-- stored.
pub fine_accounted :
    {m : Malloc} {q : Ptr} {k n : ℕ} {h : Heap} {f : Fine}
    → Ready q h
    → FineReach m q k n h f
    → in_use f.sys.main ≡ true
    → f.sys.heap.lock q ≡ some false
    → Holds n q (coarse f.sys.heap f)
fine_accounted {m} {q} {k} {n} {h} {f} ready reach used free =
    elim (FineReach-coarse m q k n h f reach).2 [
      | inl same ↦
          accounted ready
            (subst (λ b. Reach m q k n h (coarse b f)) same (FineReach-coarse m q k n h f reach).1)
            used
      | inr held_lock ↦ absurd (cc)
    ]

-- When main has returned, with one consumer or more, no call is under way, and the consumers have
-- taken as many nodes as were stored.
pub fine_all_taken :
    {m : Malloc} {q : Ptr} {k n : ℕ} {h : Heap} {f : Fine}
    → Ready q h
    → FineReach m q k n h f
    → 1 ≤ n
    → f.sys.main ≡ Main.returned
    → ((i : ℕ) → f.scripts i ≡ none) × (total got n f.sys.consumers ≡ f.sys.stored)
fine_all_taken {m} {q} {k} {n} {h} {f} ready reach some_there e =
    let (base, r, _) = FineReach-coarse m q k n h f reach in
    let sim = Reach-Sim m q k n h f reach in
    let stages = FineReach-Stages m q k n h f reach in
    let out : (i : ℕ) → f.scripts i ≡ none = λ i.
      none_of_over n i (f.scripts i) (f.sys.consumers i) (sim.calls i)
        (λ lt. stages.joined i (rw e lt)) in
    (
      out,
      sym (
            total_ext got n (viewed f.scripts f.sys.consumers) f.sys.consumers
              (λ i lt. ap (λ o. got (view o (f.sys.consumers i))) (out i)))
          ∙ all_taken ready r some_there e,
    )
