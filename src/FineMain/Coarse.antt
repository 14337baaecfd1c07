-- ===== src/FineMain/Coarse.antt =====
-- The steps of FineMain beside the calls of q_dequeue are steps of QueueMain in the view.
use mathlib.Core.Path.{subst}
use code_slices.Base.{◌+◌, ℕ, ◌<◌, ◌≡◌, refl, sym, ap, ◌∙◌, Option, none, some, ℕ_discrete}
use code_slices.Family.{update, update-other}
use code_slices.Memory.{Ptr, Heap, Malloc}
use code_slices.QueueMain.{
  Place, Consumer, System, placed, roused, Consume, lock_count, count_up, unlock_count, lock, wait,
  relock, unlock, dequeue, Provide, poll, ready, broadcast, Conduct, Main,
}
use code_slices.QueueMain as QueueMain
use code_slices.Atomic.{Script}
use code_slices.FineMain.{Fine, NoCall, called}
use code_slices.FineMain.View.{viewed, coarse, InCall, viewed-update, viewed-roused}

module _ (q : Ptr) (i : ℕ) (base : Heap) (f : Fine) (out : f.scripts i ≡ none) where
  pub same_consumer : viewed f.scripts f.sys.consumers i ≡ f.sys.consumers i
  same_consumer = rw out refl

  placed-viewed : (p : Place) → viewed f.scripts (placed f.sys i p) ≡ placed (coarse base f) i p
  placed-viewed p =
      viewed-update f.scripts f.sys.consumers i _ out
      ∙ ap
          (λ (c : Consumer).
            update (viewed f.scripts f.sys.consumers) i (record { place = p; count = c.count }))
          (sym same_consumer)

  -- The view of a consumer's new place.
  moved :
      (p : Place) (R : (ℕ → Consumer) → Type 0)
      → R (placed (coarse base f) i p)
      → R (viewed f.scripts (placed f.sys i p))
  moved p R r = subst R (sym (placed-viewed p)) r

  at_place :
      {p : Place} → (f.sys.consumers i).place ≡ p → (viewed f.scripts f.sys.consumers i).place ≡ p
  at_place e = ap (λ (c : Consumer). c.place) same_consumer ∙ e

  pub Consume-coarse :
      {t : System} (st : Consume q i f.sys t)
      → NoCall st
      → Consume q i (coarse base f) (coarse base (record f { sys = t }))
  Consume-coarse (Consume.lock_count e free) none_called =
      moved Place.counting
        (λ c.
          Consume q i (coarse base f) (record (coarse base f) { t_lock = some i; consumers = c }))
        (Consume.lock_count (at_place e) free)
  Consume-coarse (Consume.count_up e) none_called =
      moved Place.counted
        (λ c.
          Consume q i (coarse base f)
            (record (coarse base f) { g_thread_count = f.sys.g_thread_count + 1; consumers = c }))
        (Consume.count_up (at_place e))
  Consume-coarse (Consume.unlock_count e) none_called =
      moved Place.registered
        (λ c. Consume q i (coarse base f) (record (coarse base f) { t_lock = none; consumers = c }))
        (Consume.unlock_count (at_place e))
  Consume-coarse (Consume.lock e free) none_called =
      moved Place.holding
        (λ c.
          Consume q i (coarse base f)
            (record (coarse base f) { g_lock = some (QueueMain.consumer_thread i); consumers = c }))
        (Consume.lock (at_place e) free)
  Consume-coarse (Consume.wait e) none_called =
      moved Place.waiting
        (λ c. Consume q i (coarse base f) (record (coarse base f) { g_lock = none; consumers = c }))
        (Consume.wait (at_place e))
  Consume-coarse (Consume.relock e free) none_called =
      moved Place.leaving
        (λ c.
          Consume q i (coarse base f)
            (record (coarse base f) { g_lock = some (QueueMain.consumer_thread i); consumers = c }))
        (Consume.relock (at_place e) free)
  Consume-coarse (Consume.unlock e) none_called =
      moved Place.working
        (λ c. Consume q i (coarse base f) (record (coarse base f) { g_lock = none; consumers = c }))
        (Consume.unlock (at_place e))
  Consume-coarse (Consume.dequeue value e run) called = absurd called

  pub spurious-coarse :
      (m : Malloc) (k n : ℕ)
      → i < n
      → (f.sys.consumers i).place ≡ Place.waiting
      → QueueMain.Step m q k n
          (coarse base f)
          (coarse base (record f { sys = record f.sys { consumers = placed f.sys i Place.woken } }))
  spurious-coarse m k n lt e =
      moved Place.woken
        (λ c. QueueMain.Step m q k n (coarse base f) (record (coarse base f) { consumers = c }))
        (QueueMain.spurious i lt (at_place e))

pub Provide-coarse :
    (n : ℕ) (base : Heap) (f : Fine) {t : System}
    → Provide n f.sys t
    → Provide n (coarse base f) (coarse base (record f { sys = t }))
Provide-coarse n base f (Provide.poll e less) = Provide.poll e less
Provide-coarse n base f (Provide.ready e enough) = Provide.ready e enough
Provide-coarse n base f (Provide.lock e free) = Provide.lock e free
Provide-coarse n base f (Provide.broadcast e) =
    subst
      (λ c.
        Provide n (coarse base f)
          (record (coarse base f) { consumers = c; provider = QueueMain.Provider.unlocking }))
      (sym (viewed-roused f.scripts f.sys.consumers)) (Provide.broadcast e)
Provide-coarse n base f (Provide.unlock e) = Provide.unlock e

-- What a step beside the calls leaves alone: the memory, and the consumers in a call.
pub Consume-heap :
    {q : Ptr} {i : ℕ} {s t : System} (st : Consume q i s t) → NoCall st → t.heap ≡ s.heap
Consume-heap (Consume.lock_count e free) out = refl
Consume-heap (Consume.count_up e) out = refl
Consume-heap (Consume.unlock_count e) out = refl
Consume-heap (Consume.lock e free) out = refl
Consume-heap (Consume.wait e) out = refl
Consume-heap (Consume.relock e free) out = refl
Consume-heap (Consume.unlock e) out = refl
Consume-heap (Consume.dequeue value e run) out = absurd out

module _ (n : ℕ) (scripts : ℕ → Option Script) where
  -- The consumers that are in a call are there and at their loop.
  abbrev pub InCalls : (ℕ → Consumer) → Type 0
  InCalls consumers = (j : ℕ) → InCall n j (scripts j) (consumers j)

  pub InCalls-update :
      (consumers : ℕ → Consumer) (i : ℕ) (c : Consumer)
      → scripts i ≡ none
      → InCalls consumers
      → InCalls (update consumers i c)
  InCalls-update consumers i c out calls j = elim (ℕ_discrete j i) [
    | yes e ↦ rw (e, out) tt
    | no ne ↦ rw (update-other consumers i j c ne) (calls j)
  ]

  pub Consume-InCalls :
      {q : Ptr} (i : ℕ) (s : System) {t : System}
      → Consume q i s t
      → scripts i ≡ none
      → InCalls s.consumers
      → InCalls t.consumers
  Consume-InCalls i s (Consume.lock_count e free) out calls =
      InCalls-update s.consumers i _ out calls
  Consume-InCalls i s (Consume.count_up e) out calls = InCalls-update s.consumers i _ out calls
  Consume-InCalls i s (Consume.unlock_count e) out calls = InCalls-update s.consumers i _ out calls
  Consume-InCalls i s (Consume.lock e free) out calls = InCalls-update s.consumers i _ out calls
  Consume-InCalls i s (Consume.wait e) out calls = InCalls-update s.consumers i _ out calls
  Consume-InCalls i s (Consume.relock e free) out calls = InCalls-update s.consumers i _ out calls
  Consume-InCalls i s (Consume.unlock e) out calls = InCalls-update s.consumers i _ out calls
  Consume-InCalls i s (Consume.dequeue value e run) out calls =
      InCalls-update s.consumers i _ out calls

  InCall-roused :
      (j : ℕ) (o : Option Script) (c : Consumer)
      → InCall n j o c
      → InCall n j o (record { place = QueueMain.rouse c.place; count = c.count })
  InCall-roused j none c inside = tt
  InCall-roused j (some r) c (lt, e) = (lt, rw e refl)

  pub Provide-InCalls :
      (s : System) {t : System} → Provide n s t → InCalls s.consumers → InCalls t.consumers
  Provide-InCalls s (Provide.poll e less) calls = calls
  Provide-InCalls s (Provide.ready e enough) calls = calls
  Provide-InCalls s (Provide.lock e free) calls = calls
  Provide-InCalls s (Provide.broadcast e) calls =
      λ j. InCall-roused j (scripts j) (s.consumers j) (calls j)
  Provide-InCalls s (Provide.unlock e) calls = calls

pub Provide-heap : {n : ℕ} {s t : System} → Provide n s t → t.heap ≡ s.heap
Provide-heap (Provide.poll e less) = refl
Provide-heap (Provide.ready e enough) = refl
Provide-heap (Provide.lock e free) = refl
Provide-heap (Provide.broadcast e) = refl
Provide-heap (Provide.unlock e) = refl
