-- ===== src/FineMain/Hidden.antt =====
-- The steps of a call of q_dequeue in c/multi-thread-queue/main.c that the view does not show: those
-- of a consumer that does not hold the mutex, and the calls' beginnings.
use mathlib.Core.Path.{subst}
use code_slices.Base.{
  ℕ, ◌<◌, ◌≡◌, ◌≢◌, refl, sym, ap, ◌∙◌, ◌⊎◌, inl, inr, Option, none, some, ℕ_discrete,
}
use code_slices.Family.{update, update-same, update-other, update_each}
use code_slices.Memory.{Ptr, Heap, Malloc}
use code_slices.QueueMain.{Place, Consumer, System, Reach}
use code_slices.Atomic as Atomic
use code_slices.Atomic.{Script, returns, access, leave}
use code_slices.Atomic.Models.{Leaves}
use code_slices.Atomic.Listing.{Behind, q_dequeue-Whole}
use code_slices.FineMain.{Fine}
use code_slices.FineMain.View.{view, view_of, coarse, InCall, viewed-hidden}
use code_slices.FineMain.Coarse.{InCalls}
use code_slices.FineMain.Simulation.{Outside, Inside, Mode, rest, held, Sim}

pub InCalls-script :
    (n : ℕ) (scripts : ℕ → Option Script) (consumers : ℕ → Consumer) (i : ℕ) (o : Option Script)
    → InCall n i o (consumers i)
    → InCalls n scripts consumers
    → InCalls n (update scripts i o) consumers
InCalls-script n scripts consumers i o mine calls j = elim (ℕ_discrete j i) [
  | yes e ↦ rw (e, update-same scripts i o) mine
  | no ne ↦ rw (update-other scripts i j o ne) (calls j)
]

pub view_of-q_dequeue : (q value : Ptr) (c : Consumer) → view_of (Atomic.q_dequeue q value) c ≡ c
unfolding Atomic.q_dequeue
view_of-q_dequeue q value c = refl

module _ (m : Malloc) (q : Ptr) (k n : ℕ) (h : Heap) where
  pub asks : (r : Script) → Outside m q k n h (some r) → Behind q r ⊎ Leaves r
  asks r (inl (value, e)) = inl (rw e ((q_dequeue-Whole q value).inside))
  asks r (inr left) = inr left

  pub no_access :
      {step : Heap → Option Heap} {next : Heap → Script}
      → Outside m q k n h (some (access step next))
      → ⊥
  no_access {step = step} {next = next} out = elim (asks (access step next) out) [
    | inl b ↦ b
    | inr b ↦ b
  ]

  pub no_unlock : {r : Script} → Outside m q k n h (some (Script.unlock r)) → ⊥
  no_unlock {r = r} out = elim (asks (Script.unlock r) out) [ inl b ↦ b | inr b ↦ b ]

  pub apart :
      (base g : Heap) (o : Option Script) → Inside m q k n h base g o → Outside m q k n h o → ⊥
  apart base g none inside out = inside
  apart base g (some (returns ret)) inside out = inside.1
  apart base g (some (Script.lock r)) inside out = inside.1
  apart base g (some (Script.unlock r)) inside out = no_unlock out
  apart base g (some (access step next)) inside out = no_access out

  -- Consumer `i`, which does not hold the mutex, goes on where it does not either.
  pub hidden :
      (f : Fine) (s : System) (i : ℕ) (o : Option Script)
      → Mode m q k n h f
      → Outside m q k n h (f.scripts i)
      → Outside m q k n h o
      → s.heap ≡ f.sys.heap
      → ((base : Heap)
          → coarse base f ≡ coarse base (record { sys = s; scripts = update f.scripts i o }))
      → Mode m q k n h (record { sys = s; scripts = update f.scripts i o })
  hidden f s i o (rest reach out) was is same shown =
      rest
        (subst
          (λ b. Reach m q k n h (coarse b (record { sys = s; scripts = update f.scripts i o })))
          (sym same) (subst (Reach m q k n h) (shown f.sys.heap) reach))
        (λ j. update_each f.scripts (λ x. Outside m q k n h x) i j o (λ _. out j) is)
  hidden f s i o (held j base reach taken_lock inside out) was is same shown =
      let ne : j ≢ i = λ e. apart base f.sys.heap (f.scripts i) (rw (← e) inside) was in
      held j base (subst (Reach m q k n h) (shown base) reach)
        (ap (λ (g : Heap). g.lock q) same ∙ taken_lock)
        (rw (update-other f.scripts i j o ne)
          (subst (λ b. Inside m q k n h base b (f.scripts j)) (sym same) inside))
        (λ x other. update_each f.scripts (λ x. Outside m q k n h x) i x o (λ _. out x other) is)

  pub begins-Sim :
      (f : Fine) (i : ℕ) (value : Ptr)
      → i < n
      → (f.sys.consumers i).place ≡ Place.working
      → f.scripts i ≡ none
      → Sim m q k n h f
      → Sim m q k n h (record f { scripts = update f.scripts i (some (Atomic.q_dequeue q value)) })
  begins-Sim f i value lt at out sim =
      let script = some (Atomic.q_dequeue q value) in
      let same : view script (f.sys.consumers i) ≡ view (f.scripts i) (f.sys.consumers i) =
        rw out (view_of-q_dequeue q value (f.sys.consumers i)) in
      record {
        calls = InCalls-script n f.scripts f.sys.consumers i script (lt, at) sim.calls;
        mode = hidden f f.sys i script sim.mode (rw out tt) (inl (value, refl)) refl (λ base.
            ap (λ c. record (coarse base f) { consumers = c })
              (sym (viewed-hidden f.scripts f.sys.consumers i script same)));
      }
