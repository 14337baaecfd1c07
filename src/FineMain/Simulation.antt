-- ===== src/FineMain/Simulation.antt =====
-- c/multi-thread-queue/main.c with its calls cut into accesses takes the steps of QueueMain.
use mathlib.Core.Path.{subst}
use code_slices.Base.{
  ℕ, ◌+◌, ◌≡◌, ◌≢◌, refl, sym, ap, ◌∙◌, ◌⊎◌, inl, inr, Option, none, some, true, arith,
}
use code_slices.Family.{update}
use code_slices.Memory.{Ptr, Heap, Malloc}
use code_slices.Queue as Queue
use code_slices.QueueMain.{
  Place, Consumer, Main, System, Conduct, Reach, act, consume, provide, conduct,
}
use code_slices.QueueMain as QueueMain
use code_slices.QueueMain.Stages.{Stages, Reach-Stages, created_upto, joined_upto}
use code_slices.Atomic as Atomic
use code_slices.Atomic.{Script, returns, access, leave}
use code_slices.Atomic.Models.{exec, Critical, Leaves}
use code_slices.FineMain.{Fine}
use code_slices.FineMain.View.{
  none_of_unborn, view_of_returned, view, viewed, coarse, InCall, view_of-Critical, viewed-update,
}
use code_slices.FineMain.Coarse.{InCalls, InCalls-update}

module _ (m : Malloc) (q : Ptr) (k n : ℕ) (h : Heap) where
  -- The consumer is in no call, asks for the mutex, or has given it back.
  abbrev pub Outside : Option Script → Type 0
  Outside none = Unit {0}
  Outside (some r) = ((value : Ptr) × (r ≡ Atomic.q_dequeue q value)) ⊎ Leaves r

  -- It holds the mutex since the memory was `base`.
  abbrev pub Inside : Heap → Heap → Option Script → Type 0
  Inside base g none = ⊥
  Inside base g (some r) =
      (value : Ptr) × Critical q r × (exec q r g ≡ Queue.q_dequeue q value base)

  -- QueueMain reaches the view.
  pub data Mode (f : Fine) : Type 0 where
    rest : Reach m q k n h (coarse f.sys.heap f) → ((i : ℕ) → Outside (f.scripts i)) → Mode f
    held :
        (i : ℕ) (base : Heap)
        → Reach m q k n h (coarse base f)
        → f.sys.heap.lock q ≡ some true
        → Inside base f.sys.heap (f.scripts i)
        → ((j : ℕ) → j ≢ i → Outside (f.scripts j))
        → Mode f

  pub record Sim (f : Fine) : Type 0 where
    pub calls : InCalls n f.scripts f.sys.consumers
    pub mode : Mode f

  -- A step beside the calls and the memory.
  pub beside :
      (f : Fine) (t : System)
      → Sim f
      → t.heap ≡ f.sys.heap
      → InCalls n f.scripts t.consumers
      → ((base : Heap)
          → QueueMain.Step m q k n (coarse base f) (coarse base (record f { sys = t })))
      → Sim (record f { sys = t })
  beside f t sim same calls step = record {
    calls = calls;
    mode = elim sim.mode [
      | rest reach out ↦
          rest
            (subst (λ b. Reach m q k n h (coarse b (record f { sys = t }))) (sym same)
              (QueueMain.later reach (step f.sys.heap)))
            out
      | held i base reach taken_lock inside out ↦
          held i base (QueueMain.later reach (step base))
            (ap (λ (g : Heap). g.lock q) same ∙ taken_lock)
            (subst (λ b. Inside base b (f.scripts i)) (sym same) inside) out
    ];
  }

  -- Main is before the first consumer or behind the last.
  abbrev Alone : Main → Type 0
  Alone p = (created_upto n p ≡ 0) ⊎ (joined_upto n p ≡ n)

  not-Alone :
      (f : Fine) (i : ℕ) (base : Heap) (o : Option Script) (c : Consumer)
      → Stages n (coarse base f)
      → Alone f.sys.main
      → viewed f.scripts f.sys.consumers i ≡ view o c
      → InCall n i o c
      → Inside base f.sys.heap o
      → ⊥
  not-Alone f i base none c stages alone e call inside = inside
  not-Alone f i base (some r) c stages alone e (lt, at) (value, critical, does) =
      let working : (viewed f.scripts f.sys.consumers i).place ≡ Place.working =
        ap (λ (x : Consumer). x.place) (e ∙ view_of-Critical q r c critical) ∙ at in
      elim alone [
        | inl early ↦ absurd (ground (arith, stages.unborn i))
        | inr late ↦ absurd (ground (arith, stages.joined i))
      ]

  Alone-rests :
      (f : Fine)
      → Sim f
      → Alone f.sys.main
      → Reach m q k n h (coarse f.sys.heap f) × ((i : ℕ) → Outside (f.scripts i))
  Alone-rests f sim alone = elim sim.mode [
    | rest reach out ↦ (reach, out)
    | held i base reach taken_lock inside out ↦ absurd (
        not-Alone f i base (f.scripts i) (f.sys.consumers i) (Reach-Stages reach) alone refl
          (sim.calls i) inside)
  ]

  pub reached : (f : Fine) → Sim f → (base : Heap) × Reach m q k n h (coarse base f)
  reached f sim = elim sim.mode [
    | rest reach out ↦ (f.sys.heap, reach)
    | held i base reach taken_lock inside out ↦ (base, reach)
  ]

  -- A step of main that uses the queue.
  by_main :
      (f : Fine) (g : Heap) (p : Main) (stored : ℕ)
      → Sim f
      → Alone f.sys.main
      → Conduct m q k n (coarse f.sys.heap f) (record (coarse g f) { stored = stored; main = p })
      → Sim (record f { sys = record f.sys { heap = g; stored = stored; main = p } })
  by_main f g p stored sim alone step =
      let (reach, out) = Alone-rests f sim alone in
      record { calls = sim.calls; mode = rest (QueueMain.later reach (act (conduct step))) out }

  -- A step of main that does not.
  by_main_alone :
      (f : Fine) (p : Main)
      → Sim f
      → ((base : Heap) → Conduct m q k n (coarse base f) (record (coarse base f) { main = p }))
      → Sim (record f { sys = record f.sys { main = p } })
  by_main_alone f p sim step =
      beside f (record f.sys { main = p }) sim refl sim.calls (λ base. act (conduct (step base)))

  pub Conduct-Sim :
      (f : Fine) {t : System} → Sim f → Conduct m q k n f.sys t → Sim (record f { sys = t })
  Conduct-Sim f sim (Conduct.init {h = g} e run) =
      by_main f g (Main.filling 0) f.sys.stored sim (inl (rw e refl)) (Conduct.init e run)
  Conduct-Sim f sim (Conduct.enqueue {i} {done} {h = g} e lt run) =
      by_main f g (Main.filling (i + 1)) _ sim (inl (rw e refl)) (Conduct.enqueue e lt run)
  Conduct-Sim f sim (Conduct.filled e le) = by_main_alone f _ sim (λ base. Conduct.filled e le)
  Conduct-Sim f sim (Conduct.create {i} e lt) =
      let (base, reach) = reached f sim in
      let new : Consumer = record { place = Place.at_start; count = 0 } in
      let unborn : (viewed f.scripts f.sys.consumers i).place ≡ Place.unborn =
        ground (arith, (Reach-Stages reach).unborn i) in
      let out : f.scripts i ≡ none =
        none_of_unborn n i (f.scripts i) (f.sys.consumers i) (sim.calls i) unborn in
      beside f
        (record f.sys { consumers = update f.sys.consumers i new; main = Main.creating (i + 1) })
        sim refl (InCalls-update n f.scripts f.sys.consumers i new out sim.calls)
        (λ base.
          subst
            (λ c.
              QueueMain.Step m q k n (coarse base f)
                (record (coarse base f) { consumers = c; main = Main.creating (i + 1) }))
            (sym (viewed-update f.scripts f.sys.consumers i new out))
            (act (conduct (Conduct.create e lt))))
  Conduct-Sim f sim (Conduct.created e le) = by_main_alone f _ sim (λ base. Conduct.created e le)
  Conduct-Sim f sim (Conduct.join_provider e done) =
      by_main_alone f _ sim (λ base. Conduct.join_provider e done)
  Conduct-Sim f sim (Conduct.join {i} e lt done) = by_main_alone f _ sim (λ base.
      Conduct.join e lt (view_of_returned n i (f.scripts i) (f.sys.consumers i) (sim.calls i) done))
  Conduct-Sim f sim (Conduct.joined e le) = by_main_alone f _ sim (λ base. Conduct.joined e le)
  Conduct-Sim f sim (Conduct.clean fuel {h = g} e run) =
      by_main f g Main.returned f.sys.stored sim (inr (rw e refl)) (Conduct.clean fuel e run)
