-- ===== src/Atomic/Serial.antt =====
-- Calls of the queue of c/multi-thread-queue by several threads, one access of the memory at a time.
use code_slices.Base.{
  ℕ, ◌≡◌, ◌≢◌, refl, sym, ap, ◌∙◌, ◌⊎◌, inl, inr, true, false, Option, some, List, arith,
  ℕ_discrete,
}
use code_slices.Family.{update, update-same, update-other, update_each}
use code_slices.Memory.{Ptr, Heap, Malloc}
use code_slices.Memory.Chain.{Nodes}
use code_slices.Queue.Enqueue.{IsQueue}
use code_slices.Queue.Fifo.{Call, done, values, Refines}
use code_slices.Atomic.Calls.{
  script_of-Whole, Fifo-append, exec-lock, exec-leave, exec-access, at_end, call-Fifo, cmd_of,
}
use code_slices.Atomic.{
  Script, returns, lock, unlock, access, script_of, Place, idle, running, System, Act, Step, Reach,
  here, later, call, act, locks, accesses, unlocks, leaves,
}
use code_slices.Atomic.Models.{exec, Critical, Leaves}
use code_slices.Atomic.Listing.{Behind}

module _ (m : Malloc) (q : Ptr) (vs : List ℕ) where
  -- The thread is in no call, asks for the mutex, or has given it back.
  abbrev pub Outside : Place → Type 0
  Outside idle = Unit {0}
  Outside (running c r) = (r ≡ script_of m q c) ⊎ Leaves r

  -- The thread holds the mutex since the memory was `base`: what it still does from `h` on is what
  -- the whole call does from there.
  abbrev pub Inside : Heap → Heap → Place → Type 0
  Inside base h idle = ⊥
  Inside base h (running c r) = Critical q r × (exec q r h ≡ cmd_of m q c base)

  -- What holds in every state that can be reached.
  pub data Inv (s : System) : Type 0 where
    rest : Refines q vs s.calls s.results s.heap → ((i : ℕ) → Outside (s.threads i)) → Inv s
    held :
        (i : ℕ) (base : Heap)
        → Refines q vs s.calls s.results base
        → s.heap.lock q ≡ some true
        → Inside base s.heap (s.threads i)
        → ((j : ℕ) → j ≢ i → Outside (s.threads j))
        → Inv s

  whole_Behind : (c : Call) (r : Script) → r ≡ script_of m q c → Behind q r
  whole_Behind c r e = rw e ((script_of-Whole m q c).inside)

  -- A thread that is outside only asks for the mutex.
  asks : (c : Call) (r : Script) → Outside (running c r) → Behind q r ⊎ Leaves r
  asks c r (inl e) = inl (whole_Behind c r e)
  asks c r (inr left) = inr left

  pub no_access :
      (c : Call) {step : Heap → Option Heap} {next : Heap → Script}
      → Outside (running c (access step next))
      → ⊥
  no_access c {step = step} {next = next} out = elim (asks c (access step next) out) [
    | inl b ↦ b
    | inr b ↦ b
  ]

  pub no_unlock : (c : Call) {r : Script} → Outside (running c (unlock r)) → ⊥
  no_unlock c {r = r} out = elim (asks c (unlock r) out) [ inl b ↦ b | inr b ↦ b ]

  from_rest_goes :
      (s : System)
      → Refines q vs s.calls s.results s.heap
      → ((i : ℕ) → Outside (s.threads i))
      → (i : ℕ) (t : System) → Act q i s t
      → Inv t
  from_rest_goes s fifo out i t (locks {c = c} {r = r} e free) = elim (rw e at (out i)) [
    | inl same ↦
        let critical : Behind q (lock r) = whole_Behind c (lock r) same in
        held i s.heap fifo (ground arith)
          (rw (update-same s.threads i (running c r)) (
            critical,
            sym (exec-lock q r s.heap free)
                ∙ ap (λ x. exec q x s.heap) same
                ∙ (script_of-Whole m q c).runs s.heap,
          ))
          (λ j ne. rw (update-other s.threads i j (running c r) ne) (out j))
    | inr left ↦ absurd left
  ]
  from_rest_goes s fifo out i t (accesses {c = c} e step) = absurd (no_access c (rw e at (out i)))
  from_rest_goes s fifo out i t (unlocks {c = c} e _) = absurd (no_unlock c (rw e at (out i)))
  from_rest_goes s fifo out i t (leaves e) =
      rest fifo (λ j. update_each s.threads (λ x. Outside x) i j _ (λ _. out j) tt)

  from_rest :
      (s t : System)
      → Refines q vs s.calls s.results s.heap
      → ((i : ℕ) → Outside (s.threads i))
      → Step m q s t
      → Inv t
  from_rest s t fifo out (call i c e) =
      rest fifo (λ j. update_each s.threads (λ x. Outside x) i j _ (λ _. out j) (inl refl))
  from_rest s t fifo out (act i a) = from_rest_goes s fifo out i t a

  module _ (s : System) (k : ℕ) (base : Heap) (fifo : Refines q vs s.calls s.results base)
      (taken_lock : s.heap.lock q ≡ some true) (inside : Inside base s.heap (s.threads k))
      (out : (j : ℕ) → j ≢ k → Outside (s.threads j)) where
    -- A step of another thread that moves it from outside to outside.
    beside :
        (i : ℕ) (p : Place) → i ≢ k → Outside p → Inv (record s { threads = update s.threads i p })
    beside i p ne outside =
        held k base fifo taken_lock (rw (update-other s.threads i k p (λ e. ne (sym e))) inside)
          (λ j other. update_each s.threads (λ x. Outside x) i j p (λ _. out j other) outside)

    -- The thread that holds the mutex stands where its step says.
    at_holder : (i : ℕ) (p : Place) → i ≡ k → s.threads i ≡ p → Inside base s.heap p
    at_holder i p same e = let there : s.threads k ≡ p = rw (← same) e in rw there at inside

    from_held_goes : (i : ℕ) (t : System) → Act q i s t → Inv t
    from_held_goes i t (locks e free) = absurd cc
    from_held_goes i t (accesses {c = c} {step = step} {next = next} {h = h} e ok) =
        elim (ℕ_discrete i k) [
          | no ne ↦ absurd (no_access c (rw e at (out i ne)))
          | yes same ↦
              let (critical, does) = at_holder i _ same e in
              let (keeps, goes_on) = critical s.heap h ok in
              rw same (
                held k base fifo (keeps ∙ taken_lock)
                  (rw (update-same s.threads k (running c (next s.heap)))
                    (goes_on, sym (exec-access q step next s.heap h ok) ∙ does))
                  (λ j ne. rw (update-other s.threads k j (running c (next s.heap)) ne) (out j ne)))
        ]
    from_held_goes i t (unlocks {c = c} {ret = ret} e _) = elim (ℕ_discrete i k) [
      | no ne ↦ absurd (no_unlock c (rw e at (out i ne)))
      | yes same ↦
          let (ys, is, f) = fifo in
          let (critical, does) = at_holder i _ same e in
          let (zs, is_after, g) =
            at_end (sym (exec-leave q ret s.heap taken_lock) ∙ does) (call-Fifo m q c base ys is) in
          rest (zs, is_after, Fifo-append f g)
            (λ j.
              update_each s.threads (λ x. Outside x) i j (running c (returns ret))
                (λ ne. out j (λ e. ne (e ∙ sym same))) (inr tt))
    ]
    from_held_goes i t (leaves e) = beside i _ (λ same. (at_holder i _ same e).0) tt

    from_held : (t : System) → Step m q s t → Inv t
    from_held t (call i c e) = beside i _ (λ same. at_holder i idle same e) (inl refl)
    from_held t (act i a) = from_held_goes i t a

  pub Reach-Inv :
      (h : Heap) (xs : Nodes) (s : System) → IsQueue h q xs → vs ≡ values xs → Reach m q h s → Inv s
  Reach-Inv h xs s is e here = rest (xs, is, rw e (done (values xs))) (λ i. tt)
  Reach-Inv h xs t is e (later {s = s} reach step) = elim (Reach-Inv h xs s is e reach) [
    | rest fifo out ↦ from_rest s t fifo out step
    | held k base fifo taken_lock inside out ↦ from_held s k base fifo taken_lock inside out t step
  ]

-- Threads call q_enqueue and q_dequeue on a queue at rest, one access of the memory at a time and in
-- any interleaving. Whenever nobody holds the mutex, the memory holds a queue at rest, and its values
-- are those of a first-in first-out list after the calls that have given the mutex back, in that
-- order and with the results that they return.
pub Reach-Refines :
    (m : Malloc) (q : Ptr) (h : Heap) (xs : Nodes) (s : System)
    → IsQueue h q xs
    → Reach m q h s
    → s.heap.lock q ≡ some false
    → Refines q (values xs) s.calls s.results s.heap
Reach-Refines m q h xs s is reach free = elim (Reach-Inv m q (values xs) h xs s is refl reach) [
  | rest fifo out ↦ fifo
  | held k base fifo taken_lock inside out ↦ absurd cc
]
