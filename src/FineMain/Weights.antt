-- ===== src/FineMain/Weights.antt =====
-- How far a call of q_dequeue in c/multi-thread-queue/main.c is from its end.
use mathlib.Core.Path.{subst}
use code_slices.Base.{ℕ, ◌≤◌, ◌≡◌, refl, sym, ◌⊎◌, inl, inr, Option, none, some, arith, ℕ_discrete}
use code_slices.Family.{update, update-same, update-other}
use code_slices.Memory.{Ptr, Heap, Malloc}
use code_slices.Atomic as Atomic
use code_slices.Atomic.{Script, returns, access}
use code_slices.Atomic.Models.{Critical}
use code_slices.Atomic.Span.{Within, q_dequeue-Within}
use code_slices.FineMain.{
  Fine, FineCall, FineAct, FineReach, locks, accesses, unlocks, leaves, consume, provide, conduct,
  calls, in_call, act, spurious, here, later,
}
use code_slices.FineMain.Refine.{Reach-Sim}
use code_slices.FineMain.Hidden.{asks, no_access}
use code_slices.FineMain.Simulation.{Outside, Inside, Mode, rest, held}

-- The weight of a consumer: 20 when a call has given the mutex back, 19 outside a call, at most 18
-- in a call.
abbrev pub Fits : ℕ → Option Script → Type 0
Fits w none = w ≡ 19
Fits w (some (returns ret)) = w ≡ 20
Fits w (some (Script.lock r)) = (w ≤ 18) × Within w (Script.lock r)
Fits w (some (Script.unlock r)) = (w ≤ 18) × Within w (Script.unlock r)
Fits w (some (access step next)) = (w ≤ 18) × Within w (access step next)

pub Critical-Fits :
    (q : Ptr) (w : ℕ) (r : Script) → Critical q r → w ≤ 18 → Within w r → Fits w (some r)
Critical-Fits q w (returns ret) critical le inside = absurd critical
Critical-Fits q w (Script.lock r) critical le inside = absurd critical
Critical-Fits q w (Script.unlock r) critical le inside = (le, inside)
Critical-Fits q w (access step next) critical le inside = (le, inside)

pub q_dequeue-Fits : (q target : Ptr) → Fits 18 (some (Atomic.q_dequeue q target))
unfolding Atomic.q_dequeue
q_dequeue-Fits q target = (omega arith, q_dequeue-Within q target)

abbrev pub AllFit : (ℕ → ℕ) → (ℕ → Option Script) → Type 0
AllFit weights scripts = (i : ℕ) → Fits (weights i) (scripts i)

pub AllFit-update :
    (weights : ℕ → ℕ) (scripts : ℕ → Option Script) (i w : ℕ) (o : Option Script)
    → AllFit weights scripts
    → Fits w o
    → AllFit (update weights i w) (update scripts i o)
AllFit-update weights scripts i w o fit mine j = elim (ℕ_discrete j i) [
  | yes e ↦ rw (e, update-same weights i w, update-same scripts i o) mine
  | no ne ↦ rw (update-other weights i j w ne, update-other scripts i j o ne) (fit j)
]

module _ (m : Malloc) (q : Ptr) (k n : ℕ) (h : Heap) (f : Fine) (i : ℕ) where
  stands :
      Mode m q k n h f
      → Outside m q k n h (f.scripts i)
        ⊎ ((base : Heap) × Inside m q k n h base f.sys.heap (f.scripts i))
  stands (rest reach out) = inl (out i)
  stands (held j base reach taken_lock inside out) = elim (ℕ_discrete i j) [
    | yes e ↦ inr (base, rw e inside)
    | no ne ↦ inl (out i ne)
  ]

  pub lock-Critical :
      (r : Script) → f.scripts i ≡ some (Script.lock r) → Mode m q k n h f → Critical q r
  lock-Critical r e mode = elim (rw e at (stands mode)) [
    | inl out ↦ elim (asks m q k n h (Script.lock r) out) [
      | inl critical ↦ critical
      | inr left ↦ absurd left
    ]
    | inr (base, inside) ↦ (let (value, critical, does) = inside in absurd critical)
  ]

  pub access-Critical :
      (step : Heap → Option Heap) (next : Heap → Script) (g : Heap)
      → f.scripts i ≡ some (access step next)
      → step f.sys.heap ≡ some g
      → Mode m q k n h f
      → Critical q (next f.sys.heap)
  access-Critical step next g e ok mode = elim (rw e at (stands mode)) [
    | inl out ↦ absurd (no_access m q k n h out)
    | inr (base, inside) ↦ (let (value, critical, does) = inside in (critical f.sys.heap g ok).1)
  ]

  -- The weight of consumer `i` after a step of its call.
  call_weight :
      (weights : ℕ → ℕ) (g : Fine)
      → AllFit weights f.scripts
      → Mode m q k n h f
      → FineCall q i f g
      → (w : ℕ) × (o : Option Script) × (g.scripts ≡ update f.scripts i o) × Fits w o
  call_weight weights g fit mode (locks {r = x} e free) =
      let (le, inside) = rw e at (fit i) in
      let (fewer, less, within) = inside in
      (fewer, some x, refl, Critical-Fits q fewer x (lock-Critical x e mode) (omega arith) within)
  call_weight weights g fit mode (accesses {step = step} {next = next} {h = a} e ok) =
      let (le, inside) = rw e at (fit i) in
      let (fewer, less, within) = inside in
      (
        fewer,
        some (next f.sys.heap),
        refl,
        Critical-Fits q fewer (next f.sys.heap) (access-Critical step next a e ok mode)
            (omega arith) (within f.sys.heap),
      )
  call_weight weights g fit mode (unlocks {ret = ret} e _) = (20, some (returns ret), refl, refl)
  call_weight weights g fit mode (leaves e) = (19, none, refl, refl)

abbrev pub Weighed : Fine → Type 0
Weighed f = (weights : ℕ → ℕ) × AllFit weights f.scripts

module _ (m : Malloc) (q : Ptr) (k n : ℕ) (h : Heap) where
  Act-Weighed : (f g : Fine) → Mode m q k n h f → Weighed f → FineAct m q k n f g → Weighed g
  Act-Weighed f g mode weighed (consume i lt out st whole) = weighed
  Act-Weighed f g mode weighed (provide st) = weighed
  Act-Weighed f g mode weighed (conduct st) = weighed
  Act-Weighed f g mode (weights, fit) (calls i value lt at out) =
      (update weights i 18, AllFit-update weights f.scripts i 18 _ fit (q_dequeue-Fits q value))
  Act-Weighed f g mode (weights, fit) (in_call i step) =
      let (w, o, e, fits) = call_weight m q k n h f i weights g fit mode step in
      (
        update weights i w,
        subst (AllFit (update weights i w)) (sym e)
            (AllFit-update weights f.scripts i w o fit fits),
      )

  pub Reach-Weighed : (f : Fine) → FineReach m q k n h f → Weighed f
  Reach-Weighed f here = ((λ _. 19), λ i. refl)
  Reach-Weighed f (later {f = b} reach (act step)) =
      Act-Weighed b f (Reach-Sim m q k n h b reach).mode (Reach-Weighed b reach) step
  Reach-Weighed f (later {f = b} reach (spurious i lt e)) = Reach-Weighed b reach
