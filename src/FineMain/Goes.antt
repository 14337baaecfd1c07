-- ===== src/FineMain/Goes.antt =====
-- Some thread of c/multi-thread-queue/main.c goes on, once the broadcast has reached every consumer,
-- with the calls of q_dequeue cut into accesses.
use code_slices.Base.{ℕ, ◌≤◌, ◌<◌, ◌≡◌, refl, sym, ap, ◌∙◌, ◌⊎◌, inl, inr, Option, none, some}
use code_slices.Memory.{Ptr, Heap, Malloc}
use code_slices.QueueMain.{System, Place, Consumer, Main, Consume, Provide, Conduct, Act}
use code_slices.QueueMain as QueueMain
use code_slices.QueueMain.Tally.{Ready}
use code_slices.QueueMain.Awake.{Roused, roused_acts}
use code_slices.Atomic.{Script}
use code_slices.FineMain.{
  Fine, NoCall, FineAct, FineReach, consume, provide, conduct, calls, in_call,
}
use code_slices.FineMain.View.{viewed, coarse}
use code_slices.FineMain.Coarse.{same_consumer}
use code_slices.FineMain.Simulation.{Inside, Mode, rest, held}
use code_slices.FineMain.Refine.{Reach-Sim}
use code_slices.FineMain.Moves.{fine_moves}

abbrev pub FineCan : Malloc → Ptr → ℕ → ℕ → Fine → Type 0
FineCan m q k n f = (g : Fine) × FineAct m q k n f g

module _ (m : Malloc) (q : Ptr) (k n : ℕ) (h : Heap) (ready : Ready q h) (f : Fine)
    (reach : FineReach m q k n h f) where
  -- A call is under way.
  call_goes : (i : ℕ) (r : Script) → f.scripts i ≡ some r → FineCan m q k n f
  call_goes i r e = elim (fine_moves ready reach i r e) [
    | inl (g, step) ↦ (g, in_call i step)
    | inr (x, j, g, asks, ne, step) ↦ (g, in_call j step)
  ]

  holder_goes :
      (i : ℕ) (base : Heap) (o : Option Script)
      → f.scripts i ≡ o
      → Inside m q k n h base f.sys.heap o
      → FineCan m q k n f
  holder_goes i base none e inside = absurd inside
  holder_goes i base (some r) e inside = call_goes i r e

  -- Consumer `i` is as the view shows it, or in a call.
  shown :
      (i : ℕ) (o : Option Script)
      → f.scripts i ≡ o
      → ((f.scripts i ≡ none) × (viewed f.scripts f.sys.consumers i ≡ f.sys.consumers i))
        ⊎ FineCan m q k n f
  shown i none e = inl (e, same_consumer q i f.sys.heap f e)
  shown i (some r) e = inr (call_goes i r e)

  -- A consumer outside a call takes the step that the view shows, or begins the call.
  module _ (i : ℕ) (lt : i < n) (out : f.scripts i ≡ none)
      (same : viewed f.scripts f.sys.consumers i ≡ f.sys.consumers i) where
    at_place :
        {p : Place} → (viewed f.scripts f.sys.consumers i).place ≡ p → (f.sys.consumers i).place ≡ p
    at_place e = sym (ap (λ (c : Consumer). c.place) same) ∙ e

    goes_alone : {t : System} (st : Consume q i f.sys t) → NoCall st → FineCan m q k n f
    goes_alone st whole = (_, consume i lt out st whole)

    consumer_goes : {t : System} → Consume q i (coarse f.sys.heap f) t → FineCan m q k n f
    consumer_goes (Consume.lock_count e free) = goes_alone (Consume.lock_count (at_place e) free) tt
    consumer_goes (Consume.count_up e) = goes_alone (Consume.count_up (at_place e)) tt
    consumer_goes (Consume.unlock_count e) = goes_alone (Consume.unlock_count (at_place e)) tt
    consumer_goes (Consume.lock e free) = goes_alone (Consume.lock (at_place e) free) tt
    consumer_goes (Consume.wait e) = goes_alone (Consume.wait (at_place e)) tt
    consumer_goes (Consume.relock e free) = goes_alone (Consume.relock (at_place e) free) tt
    consumer_goes (Consume.unlock e) = goes_alone (Consume.unlock (at_place e)) tt
    consumer_goes (Consume.dequeue value e run) = (_, calls i value lt (at_place e) out)

  provider_goes : {t : System} → Provide n (coarse f.sys.heap f) t → FineCan m q k n f
  provider_goes (Provide.poll e less) = (_, provide (Provide.poll e less))
  provider_goes (Provide.ready e enough) = (_, provide (Provide.ready e enough))
  provider_goes (Provide.lock e free) = (_, provide (Provide.lock e free))
  provider_goes (Provide.broadcast e) = (_, provide (Provide.broadcast e))
  provider_goes (Provide.unlock e) = (_, provide (Provide.unlock e))

  main_goes : {t : System} → Conduct m q k n (coarse f.sys.heap f) t → FineCan m q k n f
  main_goes (Conduct.init e run) = (_, conduct (Conduct.init e run))
  main_goes (Conduct.enqueue e lt run) = (_, conduct (Conduct.enqueue e lt run))
  main_goes (Conduct.filled e le) = (_, conduct (Conduct.filled e le))
  main_goes (Conduct.create e lt) = (_, conduct (Conduct.create e lt))
  main_goes (Conduct.created e le) = (_, conduct (Conduct.created e le))
  main_goes (Conduct.join_provider e done) = (_, conduct (Conduct.join_provider e done))
  main_goes (Conduct.join {i} e lt done) = elim (shown i (f.scripts i) refl) [
    | inl (out, same) ↦
        (_, conduct (Conduct.join e lt (sym (ap (λ (c : Consumer). c.place) same) ∙ done)))
    | inr goes ↦ goes
  ]
  main_goes (Conduct.joined e le) = (_, conduct (Conduct.joined e le))
  main_goes (Conduct.clean fuel e run) = (_, conduct (Conduct.clean fuel e run))

  act_goes : {t : System} → Act m q k n (coarse f.sys.heap f) t → FineCan m q k n f
  act_goes (QueueMain.consume i lt st) = elim (shown i (f.scripts i) refl) [
    | inl (out, same) ↦ consumer_goes i lt out same st
    | inr goes ↦ goes
  ]
  act_goes (QueueMain.provide st) = provider_goes st
  act_goes (QueueMain.conduct st) = main_goes st

  Mode-goes :
      1 ≤ n
      → Roused n (coarse f.sys.heap f)
      → Mode m q k n h f
      → (f.sys.main ≡ Main.returned) ⊎ FineCan m q k n f
  Mode-goes some_there roused (held i base coarsely taken_lock inside out) =
      inr (holder_goes i base (f.scripts i) refl inside)
  Mode-goes some_there roused (rest coarsely out) =
      elim (roused_acts m q k n h ready some_there (coarse f.sys.heap f) coarsely roused) [
        | inl done ↦ inl done
        | inr (t, step) ↦ inr (act_goes step)
      ]

  pub roused_goes :
      1 ≤ n → Roused n (coarse f.sys.heap f) → (f.sys.main ≡ Main.returned) ⊎ FineCan m q k n f
  roused_goes some_there roused = Mode-goes some_there roused (Reach-Sim m q k n h f reach).mode
