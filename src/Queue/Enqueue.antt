-- ===== src/Queue/Enqueue.antt =====
-- q_init and q_enqueue of c/multi-thread-queue/queue.c.
use code_slices.Base.{
  ℕ, ◌≡◌, ◌≢◌, refl, true, false, some, [], ◌∷◌, ◌++◌, arith, ◌⊎◌, inl, inr, ℕ_discrete, ◌==◌,
}
use code_slices.Memory.{Ptr, null, Heap, Malloc, pthread_mutex_init}
use code_slices.Memory.Mutex.{with_lock, lock_free, unlock_held}
use code_slices.Memory.Ends.{Ends, ends, weaken, Ends-then}
use code_slices.Memory.Chain.{Nodes, occurs, Ring}
use code_slices.Ring.{list_init}
use code_slices.Ring.Add.{list_add-append}
use code_slices.Ring.Remove.{live_of_occurs}
use code_slices.Queue.{q_init, q_enqueue}
use code_slices.Queue.Node.{Ring-frame, Ring-with_lock, list_new-fresh, list_new-null}

-- A queue at rest that holds the nodes `xs`.
pub record IsQueue (h : Heap) (q : Ptr) (xs : Nodes) : Type 0 where
  pub ring : Ring h q xs
  pub unlocked : h.lock q ≡ some false
  pub null_free : h.live null ≡ false

-- The memory while this thread holds the queue's mutex.
abbrev pub locked : Heap → Ptr → Heap
locked h q = with_lock h q (some true)

pub locked-held : (h : Heap) (q : Ptr) → (locked h q).lock q ≡ some true
locked-held h q = ground arith

-- The queue's head lies in memory that is there, as the global `g_queue` does.
pub q_init-IsQueue :
    (h : Heap) (q : Ptr)
    → h.live q ≡ true
    → h.live null ≡ false
    → Ends (λ _ g. IsQueue g q [] × (g.live ≡ h.live)) (q_init q h)
unfolding q_init list_init pthread_mutex_init
q_init-IsQueue h q live free =
    let there : (q == null) ≡ false = ground arith in
    rw (there, live, live, live)
      (ends (
        record {
          ring = record { head_live = live; head_apart = refl; chain = ground arith };
          unlocked = ground arith;
          null_free = free;
        },
        refl,
      ))

-- A node of a ring is live, so an unused address is none of them.
live_apart :
    (h : Heap) (q p : Ptr) (xs : Nodes) → Ring h q xs → h.live p ≡ false → occurs p xs ≡ false
live_apart h q p xs ring unused = ground (arith, live_of_occurs h q q p xs ring.chain)

module _ (m : Malloc) (h : Heap) (q : Ptr) (d : ℕ) (xs : Nodes) (is : IsQueue h q xs) where
  -- Without memory q_enqueue says so and leaves the queue as it was.
  q_enqueue-null :
      m.address (locked h q) ≡ null
      → Ends (λ b g. (b ≡ false) × IsQueue g q xs × (g.live ≡ h.live)) (q_enqueue m q d h)
  unfolding q_enqueue
  q_enqueue-null none_left =
      rw
        (
          lock_free q h is.unlocked,
          list_new-null m d (locked h q) none_left,
          unlock_held q (locked h q) (locked-held h q),
        )
        (ends (refl, at_rest, refl))
    where
      at_rest : IsQueue (with_lock (locked h q) q (some false)) q xs
      at_rest = record {
        ring =
            Ring-with_lock (locked h q) q q (some false) xs
              (Ring-with_lock h q q (some true) xs is.ring);
        unlocked = ground arith;
        null_free = is.null_free;
      }

  q_enqueue-append :
      m.address (locked h q) ≢ null
      → Ends
          (λ b g. (b ≡ true) × IsQueue g q (xs ++ (m.address (locked h q), d) ∷ []))
          (q_enqueue m q d h)
  unfolding q_enqueue
  q_enqueue-append got = rw (lock_free q h is.unlocked) (
      Ends-then (list_new-fresh m d (locked h q) got) λ p g (e, live, pay, same).
        let unused : h.live p ≡ false = ground (arith, m.fresh (locked h q) got) in
        let there : (p == null) ≡ false = ground arith in
        let apart : occurs p xs ≡ false = live_apart h q p xs is.ring unused in
        let ne : p ≢ q = ground (arith, is.ring.head_live) in
        let ring =
          Ring-frame p (locked h q) g q xs same (ground arith) apart
            (Ring-with_lock h q q (some true) xs is.ring) in
        rw there (
          Ends-then (list_add-append g q p xs ring live ne apart) λ r k (er, longer, nodes).
            let held : k.lock q ≡ some true = ground (arith, nodes.lock, same.lock) in
            rw (unlock_held q k held) (
              ends (
                refl,
                record {
                  ring = Ring-with_lock k q q (some false) _ (rw (← e, ← pay) longer);
                  unlocked = ground arith;
                  null_free = ground (arith, nodes.live, same.live null, is.null_free);
                },
              ))))

  -- Either malloc gives a node, which then stands last, or it does not, and the queue is as it was.
  pub q_enqueue_lem :
      Ends
        (λ b g.
          ((b ≡ true) × IsQueue g q (xs ++ (m.address (locked h q), d) ∷ []))
          ⊎ ((b ≡ false) × IsQueue g q xs × (m.address (locked h q) ≡ null)))
        (q_enqueue m q d h)
  q_enqueue_lem = elim (ℕ_discrete (m.address (locked h q)) null) [
    | yes none_left ↦ weaken (q_enqueue-null none_left) λ b g (e, same, _). inr (e, same, none_left)
    | no got ↦ weaken (q_enqueue-append got) λ b g r. inl r
  ]
